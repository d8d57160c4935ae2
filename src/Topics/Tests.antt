-- ===== src/Topics/Tests.antt =====
-- A topic that is named twice, a conversation that mentions it, and a query for it.
use my_palace.Common.{
  ◌+◌, ◌*◌, ◌≤◌, ◌≡◌, false, none, some, List, [], ◌∷◌, map, length, codes, In, Descending,
}
use my_palace.Dynamics.Tests.{fractions}
use my_palace.Topics.{RawTopic, Topic, dedupe_topics, TopicMention, Conversation, Env}
use my_palace.Topics.Dedupe.{Distinct, Covered, dedupe_topics-Heaviest}
use my_palace.Topics.Recurrence.{Caller, Sets, Recurring, get_recurrence}
use my_palace.Topics.Recurrence.Listed.{mentions, get_recurrence-Exact}

abbrev light_work : Topic
light_work = record {
  topic = codes "work";
  topic_type = "theme";
  context_snippet = codes "at work";
  emotional_weight = "light";
}

abbrev heavy_work : Topic
heavy_work = record {
  topic = codes "work";
  topic_type = "theme";
  context_snippet = codes "laid off";
  emotional_weight = "heavy";
}

dedupe_topics-Heaviest_example :
    Distinct (map (λ t. t.topic) (dedupe_topics (light_work ∷ heavy_work ∷ [])))
    × ((k : Topic)
        → In k (dedupe_topics (light_work ∷ heavy_work ∷ []))
        → In k (light_work ∷ heavy_work ∷ []))
    × ((t : Topic)
        → In t (light_work ∷ heavy_work ∷ [])
        → Covered (dedupe_topics (light_work ∷ heavy_work ∷ [])) t)
dedupe_topics-Heaviest_example = dedupe_topics-Heaviest (light_work ∷ heavy_work ∷ [])

abbrev raw_topic : RawTopic
raw_topic = record {
  topic = some (codes " Work ");
  topic_type = none;
  context_snippet = some (codes "laid off");
  emotional_weight = some "heavy";
}

abbrev conversation : Conversation fractions
conversation = record {
  tenant_id = "acme";
  user_id = "u1";
  agent_id = "mypalace";
  text = codes "I was laid off last week and I do not know what to tell them.";
  sentiment = (1, 0);
  channel_id = "c1";
  channel_name = "general";
  is_dm = false;
}

abbrev env : Env fractions
env = record {
  now = 100;
  complete = λ s. some (codes "{}");
  loads = λ s. some (raw_topic ∷ []);
  fresh_ids = λ n. "t1";
}

abbrev row : TopicMention fractions
row = record {
  id = "t1";
  tenant_id = "acme";
  user_id = "u1";
  agent_id = "mypalace";
  topic = codes "work";
  topic_type = "theme";
  context_snippet = codes "laid off";
  emotional_weight = "heavy";
  sentiment = (1, 0);
  channel_id = "c1";
  channel_name = "general";
  is_dm = false;
  created_at = 100;
}

abbrev table : List (TopicMention fractions)
table =
    row ∷ record row { id = "t2"; created_at = 200 } ∷ record row { id = "t3"; user_id = "u2" } ∷ []

abbrev caller : Caller
caller = record {
  tenant_id = "acme";
  user_id = "u1";
  agent_id = "mypalace";
  lookback_days = 14;
  min_mentions = 2;
}

abbrev sets : Sets
sets = record { elements = λ xs. xs; sorted = λ xs. xs }

get_recurrence-Exact_example :
    Descending (λ (r : Recurring). r.mention_count) (get_recurrence fractions sets 300 caller table)
    × ((r : Recurring)
        → In r (get_recurrence fractions sets 300 caller table)
        → (2 ≤ r.mention_count)
          × (r.mention_count ≡ length (mentions fractions sets 300 caller r.topic table)))
    × ((k : TopicMention fractions)
        → In k table
        → k.tenant_id ≡ caller.tenant_id
        → k.user_id ≡ caller.user_id
        → k.agent_id ≡ caller.agent_id
        → 300 ≤ k.created_at + 86_400 * caller.lookback_days
        → 2 ≤ length (mentions fractions sets 300 caller k.topic table)
        → (r : Recurring) × In r (get_recurrence fractions sets 300 caller table)
          × (r.topic ≡ k.topic))
get_recurrence-Exact_example = get_recurrence-Exact fractions sets 300 caller table
