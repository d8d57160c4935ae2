-- ===== src/Topics/Recurrence.antt =====
-- get_recurrence of mypalace/topic_service.py: the topics that come up often enough.
pub mod Listed
use my_palace.Common.{
  ℕ, zero, suc, ◌+◌, ◌*◌, Bool, true, false, not, ◌&&◌, String, Option, none, some, List, [], ◌∷◌,
  ◌++◌, map, filter, any, length, ltb, leb, str_eq, elem, text_eq, Codes, sort_by, highest_first,
  if◌then◌else◌,
}
use my_palace.Dynamics.Floats.{Floats}
use my_palace.Topics.{TopicMention}
use my_palace.Topics.Patterns.{
  Trend, Note, Pattern, RelativeTime, just_now, format_relative_time, compute_topic_pattern,
  last_or,
}

-- The arguments of a call.
pub record Caller : Type 0 where
  pub tenant_id : String
  pub user_id : String
  pub agent_id : String
  pub lookback_days : ℕ
  pub min_mentions : ℕ

-- How Python lists a set of texts, of whose order nothing is said, and sorts it.
pub record Sets : Type 0 where
  pub elements : List String → List String
  pub sorted : List String → List String

pub record Recurring : Type 0 where
  pub topic : Codes
  pub topic_type : String
  pub mention_count : ℕ
  pub first_mentioned : RelativeTime
  pub last_mentioned : RelativeTime
  pub sentiment_trend : Trend
  pub avg_emotional_weight : String
  pub pattern_note : Note
  pub channels : List String

-- `types.count(x)`
count_of : List String → String → ℕ
count_of xs x = length (filter (str_eq x) xs)

-- `max(candidates, key=types.count)`: the first of those with the highest count.
most_of : List String → String → List String → String
unfolding count_of
most_of types best [] = best
most_of types best (x ∷ xs) =
    most_of types (if ltb (count_of types best) (count_of types x) then x else best) xs

most_common : List String → List String → String
unfolding most_of
most_common types [] = ""
most_common types (x ∷ xs) = most_of types x xs

-- The keys of `groups`: the topics of the rows, in the order of their first mention.
pub first_seen : List Codes → List Codes → List Codes
first_seen seen [] = []
first_seen seen (t ∷ ts) =
    let old = first_seen seen ts in
    let new = t ∷ first_seen (t ∷ seen) ts in if any (text_eq t) seen then old else new

module _ (fl : Floats) where
  abbrev Row : Type 0
  Row = TopicMention fl

  -- The rows of the query, before they are ordered.
  pub in_window : ℕ → Caller → Row → Bool
  in_window now c r =
      str_eq r.tenant_id c.tenant_id
      && str_eq r.user_id c.user_id
      && str_eq r.agent_id c.agent_id
      && leb now (r.created_at + 86_400 * c.lookback_days)

  -- `ORDER BY created_at`
  pub by_time : List Row → List Row
  by_time = sort_by λ r k. leb r.created_at k.created_at

  abbrev pub group : Codes → List Row → List Row
  group topic = filter λ r. text_eq r.topic topic

  pub time_of_first : ℕ → List Row → RelativeTime
  time_of_first now [] = just_now
  time_of_first now (r ∷ rows) = format_relative_time now r.created_at

  pub time_of_last : ℕ → List Row → RelativeTime
  unfolding last_or
  time_of_last now [] = just_now
  time_of_last now (r ∷ rows) = format_relative_time now (last_or r rows).created_at

  abbrev has_name : String → Bool
  has_name s = not (str_eq s "")

  pub recurring : Sets → ℕ → Codes → List Row → Recurring
  unfolding most_common time_of_first time_of_last by_time
  recurring sets now topic group =
      let items = by_time group in
      let pattern = compute_topic_pattern fl (map (λ r. (r.sentiment, r.emotional_weight)) items) in
      let types = map (λ (r : Row). r.topic_type) items in
      record {
        topic = topic;
        topic_type = most_common types (sets.elements types);
        mention_count = pattern.mention_count;
        first_mentioned = time_of_first now items;
        last_mentioned = time_of_last now items;
        sentiment_trend = pattern.sentiment_trend;
        avg_emotional_weight = pattern.avg_emotional_weight;
        pattern_note = pattern.pattern_note;
        channels = sets.sorted (sets.elements (filter has_name (map (λ r. r.channel_name) items)));
      }

  -- The loop over the groups.
  pub recurrences : Sets → ℕ → ℕ → List Row → List Codes → List Recurring
  unfolding recurring
  recurrences sets now min rows [] = []
  recurrences sets now min rows (t ∷ ts) =
      let items = group t rows in
      let rest = recurrences sets now min rows ts in
      if ltb (length items) min then rest else recurring sets now t items ∷ rest

  unfoldable pub get_recurrence : Sets → ℕ → Caller → List Row → List Recurring
  unfolding recurrences in_window first_seen
  get_recurrence sets now c table =
      let rows = by_time (filter (in_window now c) table) in
      sort_by (highest_first (λ r. r.mention_count))
        (recurrences sets now c.min_mentions rows (first_seen [] (map (λ r. r.topic) rows)))
