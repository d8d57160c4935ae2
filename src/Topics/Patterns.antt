-- ===== src/Topics/Patterns.antt =====
-- How often and how heavily a topic comes up: compute_topic_pattern and _format_relative_time.
use my_palace.Common.{
  ℕ, ◌+◌, ◌-◌, ◌*◌, ◌/◌, ◌%◌, Bool, true, false, ◌&&◌, ◌||◌, ◌==◌, String, List, [], ◌∷◌, map,
  length, ltb, leb, elem, str_eq, if◌then◌else◌,
}
use my_palace.Dynamics.Floats.{Floats}
use my_palace.Topics.{valid_weights, weight_order}

pub data Trend : Type 0 where
  declining improving stable : Trend

-- The notes, with the number of mentions that some of them give.
pub data Note : Type 0 where
  no_note getting_heavier recurring_concern mentioned_times mentioned_recently : Note

pub record Pattern : Type 0 where
  pub mention_count : ℕ
  pub sentiment_trend : Trend
  pub avg_emotional_weight : String
  pub pattern_note : Note

-- `min` hours, minutes and days, as the texts give them
pub data RelativeTime : Type 0 where
  just_now yesterday : RelativeTime
  minutes_ago hours_ago days_ago weeks_ago : ℕ → RelativeTime

-- _format_relative_time at a time that is not before the mention; both are seconds.
pub format_relative_time : ℕ → ℕ → RelativeTime
format_relative_time now ts =
    let delta = now - ts in
    let days = delta / 86_400 in
    let seconds = delta % 86_400 in
    if days == 0
    then (if seconds / 3_600 == 0
        then (if ltb 0 (seconds / 60) then minutes_ago (seconds / 60) else just_now)
        else hours_ago (seconds / 3_600))
    else if days == 1
    then yesterday
    else if ltb days 7
    then days_ago days
    else weeks_ago (days / 7)

sum : List ℕ → ℕ
sum [] = 0
sum (x ∷ xs) = x + sum xs

unfoldable pub last_or {ℓ} : {A : Type ℓ} → A → List A → A
last_or d [] = d
last_or d (x ∷ xs) = last_or x xs

-- `_WEIGHT_ORDER.get(…, 2)`
pub score_of : String → ℕ
score_of w = if elem w valid_weights then weight_order w else 2

-- `avg >= n / 2`, for the average of the scores
average_ge : List ℕ → ℕ → Bool
unfolding sum
average_ge scores n = leb (n * length scores) (2 * sum scores)

-- The last score is above the first of at least two.
pub increasing : List ℕ → Bool
unfolding last_or
increasing [] = false
increasing (x ∷ xs) = leb 1 (length xs) && ltb x (last_or x xs)

pub average_weight : List ℕ → String
unfolding average_ge
average_weight scores =
    if average_ge scores 5 then "heavy" else if average_ge scores 3 then "moderate" else "light"

pub declines : Trend → Bool
declines declining = true
declines _ = false

pub note_of : ℕ → Trend → List ℕ → Note
unfolding declines increasing average_weight
note_of count trend scores =
    if leb 3 count && (declines trend || increasing scores)
    then getting_heavier
    else if leb 3 count && str_eq (average_weight scores) "heavy"
    then recurring_concern
    else if leb 2 count
    then mentioned_times
    else mentioned_recently

module _ (fl : Floats) where
  -- `{"sentiment": …, "emotional_weight": …}`
  abbrev pub Mention : Type 0
  Mention = fl.F × String

  pub trend_between : ℕ → fl.F → fl.F → Trend
  trend_between later first last =
      if leb 1 later && fl.lt (fl.sub last first) (fl.neg (fl.decimal 2 1))
      then declining
      else if leb 1 later && fl.lt (fl.decimal 2 1) (fl.sub last first)
      then improving
      else stable

  unfoldable pub compute_topic_pattern : List Mention → Pattern
  unfolding note_of trend_between score_of last_or
  compute_topic_pattern [] = record {
    mention_count = 0;
    sentiment_trend = stable;
    avg_emotional_weight = "light";
    pattern_note = no_note;
  }
  compute_topic_pattern (m ∷ ms) =
      let scores = map (λ (x : Mention). score_of x.1) (m ∷ ms) in
      let trend = trend_between (length ms) m.0 (last_or m ms).0 in
      record {
        mention_count = length (m ∷ ms);
        sentiment_trend = trend;
        avg_emotional_weight = average_weight scores;
        pattern_note = note_of (length (m ∷ ms)) trend scores;
      }
