-- ===== src/Topics.antt =====
-- mypalace/topic_service.py: the topics that a language model finds in a conversation, and the table
-- of their mentions.
pub mod Patterns
pub mod Recurrence
pub mod Dedupe
pub mod Stored
pub mod Tests
use my_palace.Common.{
  ℕ, zero, suc, ◌+◌, Bool, true, false, ◌&&◌, ◌||◌, ◌==◌, String, Option, none, some, List, [], ◌∷◌,
  ◌++◌, map, filter, any, take, length, ltb, str_eq, elem, text_eq, codes, lower, Codes, is_nil,
  if◌then◌else◌, Result, ok, err,
}
use my_palace.Personality.Fences.{strip, unfenced}
use my_palace.Dynamics.Floats.{Floats}

-- A topic as the model writes it; a key that is missing has no value.
pub record RawTopic : Type 0 where
  pub topic : Option Codes
  pub topic_type : Option String
  pub context_snippet : Option Codes
  pub emotional_weight : Option String

pub record Topic : Type 0 where
  pub topic : Codes
  pub topic_type : String
  pub context_snippet : Codes
  pub emotional_weight : String

abbrev pub valid_types : List String
valid_types = "entity" ∷ "theme" ∷ []

abbrev pub valid_weights : List String
valid_weights = "light" ∷ "moderate" ∷ "heavy" ∷ []

unfoldable pub weight_order : String → ℕ
weight_order w =
    if str_eq w "light"
    then 1
    else if str_eq w "moderate"
    then 2
    else if str_eq w "heavy"
    then 3
    else 0

abbrev text_or_empty : Option Codes → Codes
text_or_empty none = []
text_or_empty (some s) = s

-- `value if value in valid else default`
pub one_of : List String → String → Option String → String
one_of valid default none = default
one_of valid default (some x) = if elem x valid then x else default

-- A topic under its name.
pub named_topic : Codes → RawTopic → Topic
unfolding one_of
named_topic name t = record {
  topic = name;
  topic_type = one_of valid_types "theme" t.topic_type;
  context_snippet = take 100 (text_or_empty t.context_snippet);
  emotional_weight = one_of valid_weights "moderate" t.emotional_weight;
}

pub validate_topics : List RawTopic → List Topic
unfolding named_topic
validate_topics [] = []
validate_topics (t ∷ ts) =
    let name = lower (strip (text_or_empty t.topic)) in
    let rest = validate_topics ts in if ltb (length name) 2 then rest else named_topic name t ∷ rest

-- `seen`, in the order of its keys: a name that is there gives way to a heavier topic.
pub seen_with : Topic → List Topic → List Topic
unfolding weight_order
seen_with t [] = t ∷ []
seen_with t (k ∷ seen) =
    let rest = seen_with t seen in
    if text_eq k.topic t.topic
    then (if ltb (weight_order k.emotional_weight) (weight_order t.emotional_weight) then t else k)
      ∷ seen
    else k ∷ rest

pub dedupe_onto : List Topic → List Topic → List Topic
unfolding seen_with
dedupe_onto seen [] = seen
dedupe_onto seen (t ∷ ts) = dedupe_onto (seen_with t seen) ts

pub dedupe_topics : List Topic → List Topic
unfolding dedupe_onto
dedupe_topics = dedupe_onto []

-- The text up to its last closing brace.
until_last_brace : Codes → Option Codes
until_last_brace [] = none
until_last_brace (c ∷ s) = elim (until_last_brace s) [
  | some t ↦ some (c ∷ t)
  | none ↦ if c == b'}' then some (c ∷ []) else none
]

-- `\{[\s\S]*\}`, from the first brace
first_block : Codes → Option Codes
unfolding until_last_brace
first_block [] = none
first_block (c ∷ s) =
    let rest = first_block s in if c == b'{' then until_last_brace (c ∷ s) else rest

opens_block : Codes → Bool
opens_block [] = false
opens_block (c ∷ s) = c == b'{'

-- The text that _parse_llm_json hands to json.loads.
pub json_text : Codes → Codes
unfolding unfenced first_block opens_block
json_text raw =
    let text = unfenced raw in
    if opens_block text then text else elim (first_block text) [ none ↦ text | some block ↦ block ]

module _ (fl : Floats) where
  pub record TopicMention : Type 0 where
    pub id : String
    pub tenant_id : String
    pub user_id : String
    pub agent_id : String
    pub topic : Codes
    pub topic_type : String
    pub context_snippet : Codes
    pub emotional_weight : String
    pub sentiment : fl.F
    pub channel_id : String
    pub channel_name : String
    pub is_dm : Bool
    pub created_at : ℕ

  -- The arguments of a call.
  pub record Conversation : Type 0 where
    pub tenant_id : String
    pub user_id : String
    pub agent_id : String
    pub text : Codes
    pub sentiment : fl.F
    pub channel_id : String
    pub channel_name : String
    pub is_dm : Bool

  -- The language model and json.loads: `none` is a call that raises, or a text that is no JSON
  -- object. The ids are those of the rows of a call, in order.
  pub record Env : Type 0 where
    pub now : ℕ
    pub complete : Codes → Option Codes
    pub loads : Codes → Option (List RawTopic)
    pub fresh_ids : ℕ → String

  pub mention : Env → Conversation → ℕ → Topic → TopicMention
  mention env c n t = record {
    id = env.fresh_ids n;
    tenant_id = c.tenant_id;
    user_id = c.user_id;
    agent_id = c.agent_id;
    topic = t.topic;
    topic_type = t.topic_type;
    context_snippet = t.context_snippet;
    emotional_weight = t.emotional_weight;
    sentiment = c.sentiment;
    channel_id = c.channel_id;
    channel_name = c.channel_name;
    is_dm = c.is_dm;
    created_at = env.now;
  }

  pub mentions : Env → Conversation → ℕ → List Topic → List TopicMention
  unfolding mention
  mentions env c n [] = []
  mentions env c n (t ∷ ts) = mention env c n t ∷ mentions env c (suc n) ts

  abbrev pub topics_or_empty : Option (List RawTopic) → List RawTopic
  topics_or_empty none = []
  topics_or_empty (some ts) = ts

  pub topics_of : Env → Option Codes → List Topic
  unfolding dedupe_topics validate_topics json_text
  topics_of env none = []
  topics_of env (some raw) =
      take 3 (dedupe_topics (validate_topics (topics_or_empty (env.loads (json_text raw)))))

  -- The rows that are answered, which are those that are added to the table.
  unfoldable pub extract_and_store :
      Env → Conversation → List TopicMention → List TopicMention × List TopicMention
  unfolding topics_of mentions
  extract_and_store env c rows =
      if ltb (length (strip c.text)) 50
      then ([], rows)
      else let new = mentions env c 0 (topics_of env (env.complete (take 4_000 c.text))) in
        (new, rows ++ new)
