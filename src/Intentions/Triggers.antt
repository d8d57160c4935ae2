-- ===== src/Intentions/Triggers.antt =====
-- mypalace/intentions/triggers.py: the four matchers and their dispatch. A condition that is missing
-- from the dictionary is none; the values have the types that the module's docstring gives.
pub mod Meaning
use my_palace.Common.{
  ℕ, ◌*◌, ◌+◌, max, Bool, true, false, not, ◌&&◌, ◌||◌, Option, none, some, List, [], ◌∷◌, ◌++◌,
  leb, ltb, filter, any, length, codes, text_eq, Codes, is_nil, lower, contains, split_words,
  elem_text, distinct, if◌then◌else◌,
}

-- What the standard library does: `re.search`, where none is an invalid pattern, and
-- `datetime.fromisoformat`, where none is a text that it refuses. A time stamp is the reading of its
-- clock, and its offset in minutes east, if it has one, as a number of minutes above UTC-24:00.
pub record Stamp : Type 0 where
  pub clock : ℕ
  pub offset : Option ℕ

pub record Python : Type 0 where
  pub re_search : Bool → Codes → Codes → Option Bool
  pub fromisoformat : Codes → Option Stamp

-- A fraction, for the threshold of a topic as it is written.
pub record Fraction : Type 0 where
  pub num : ℕ
  pub den : ℕ

pub record ContextConditions : Type 0 where
  pub channel_name : Option Codes
  pub is_dm : Option Bool
  pub time_of_day : Option Codes
  pub day_of_week : Option Codes

-- `trigger_conditions`
pub record Trigger : Type 0 where
  pub type : Option Codes
  pub keywords : List Codes
  pub regex : Option Codes
  pub case_sensitive : Bool
  pub topic : Codes
  pub threshold : Option Fraction
  pub quick_keywords : List Codes
  pub at : Option Codes
  pub after : Option Codes
  pub conditions : Option ContextConditions

-- The context of a message.
pub record Context : Type 0 where
  pub channel_name : Codes
  pub is_dm : Bool

-- The clock: the time that a trigger is compared with, and the hour and the weekday in UTC.
pub record Clock : Type 0 where
  pub now : ℕ
  pub hour : ℕ
  pub weekday : Codes

-- What of the context conditions was matched.
pub record Matched : Type 0 where
  pub channel_name : Option Codes
  pub is_dm : Option Bool
  pub time_of_day : Option Codes
  pub day_of_week : Option Codes

pub data Details : Type 0 where
  matched_keywords : List Codes → Details
  similarity : Codes → ℕ → ℕ → Details  -- topic, words in common, words
  trigger_time : Codes → Codes → Details  -- text, kind
  matched_conditions : Matched → Details

-- A matcher answers `(False, {})`, or True with its details, or raises.
pub data Outcome : Type 0 where
  silent : Outcome
  fires : Details → Outcome
  raises : Outcome

found_keywords : Bool → Codes → List Codes → List Codes
found_keywords case_sensitive message = filter λ keyword.
    contains (if case_sensitive then keyword else lower keyword)
      (if case_sensitive then message else lower message)

fired_keywords : List Codes → Outcome
fired_keywords [] = silent
fired_keywords (k ∷ ks) = fires (matched_keywords (k ∷ ks))

abbrev regex_label : Codes
regex_label = codes "regex:"

with_regex : List Codes → Codes → Option Bool → Outcome
unfolding fired_keywords
with_regex found pattern none = raises
with_regex found pattern (some false) = fired_keywords found
with_regex found pattern (some true) = fired_keywords (found ++ (regex_label ++ pattern) ∷ [])

regex_part : Python → Trigger → Codes → List Codes → Option Codes → Outcome
unfolding with_regex fired_keywords
regex_part python t message found none = fired_keywords found
regex_part python t message found (some []) = fired_keywords found
regex_part python t message found (some (c ∷ pattern)) =
    with_regex found (c ∷ pattern) (python.re_search (not t.case_sensitive) (c ∷ pattern) message)

pub check_keyword_trigger : Python → Codes → Trigger → Outcome
unfolding found_keywords regex_part
check_keyword_trigger python message t =
    regex_part python t message (found_keywords t.case_sensitive message t.keywords) t.regex

-- `conditions.get("threshold", 0.7)`
abbrev pub threshold_of : Option Fraction → Fraction
threshold_of none = record { num = 7; den = 10 }
threshold_of (some f) = f

-- The words of the topic that the message has too.
abbrev pub shared_words : Codes → Codes → List Codes
shared_words topic message =
    filter (λ w. elem_text w (split_words (lower message))) (distinct (split_words (lower topic)))

-- `overlap >= threshold`, as fractions
pub check_topic_trigger : Codes → Trigger → Outcome
check_topic_trigger message t =
    let common = length (shared_words t.topic message) in
    let all = max (length (distinct (split_words (lower t.topic)))) 1 in
    let wanted = threshold_of t.threshold in
    if is_nil t.topic
    then silent
    else if leb (wanted.num * all) (common * wanted.den)
    then fires (similarity t.topic common all)
    else silent

-- `text.replace("Z", "+00:00")`
pub utc_suffix : Codes → Codes
utc_suffix [] = []
utc_suffix (c ∷ s) =
    if text_eq (c ∷ []) (codes "Z") then codes "+00:00" ++ utc_suffix s else c ∷ utc_suffix s

-- `target_time.replace(tzinfo=None)` keeps the clock as it reads.
pub has_come : ℕ → Option Stamp → Bool
has_come now none = false
has_come now (some stamp) = leb stamp.clock now

-- A trigger text, when it is there and not empty
pub reached : Python → ℕ → Option Codes → Bool
unfolding utc_suffix has_come
reached python now none = false
reached python now (some []) = false
reached python now (some (c ∷ text)) = has_come now (python.fromisoformat (utc_suffix (c ∷ text)))

abbrev text_of : Option Codes → Codes
text_of none = []
text_of (some t) = t

pub check_time_trigger : Python → ℕ → Trigger → Outcome
unfolding reached
check_time_trigger python now t =
    if reached python now t.at
    then fires (trigger_time (text_of t.at) (codes "at"))
    else if reached python now t.after
    then fires (trigger_time (text_of t.after) (codes "after"))
    else silent

-- The hours of a named part of the day; none is a name that the table does not have.
pub in_period : Codes → ℕ → Option Bool
in_period expected hour =
    if text_eq expected (codes "morning")
    then some (leb 6 hour && ltb hour 12)
    else if text_eq expected (codes "afternoon")
    then some (leb 12 hour && ltb hour 17)
    else if text_eq expected (codes "evening")
    then some (leb 17 hour && ltb hour 21)
    else if text_eq expected (codes "night")
    then some (leb 21 hour || ltb hour 6)
    else none

-- One of the context conditions: none fails, and otherwise what is noted as matched, if anything.
channel_step : Option Codes → Context → Option (Option Codes)
channel_step none context = some none
channel_step (some expected) context =
    if contains (lower expected) (lower context.channel_name)
    then some (some (lower context.channel_name))
    else none

same_bool : Bool → Bool → Bool
same_bool true b = b
same_bool false b = not b

dm_step : Option Bool → Context → Option (Option Bool)
unfolding same_bool
dm_step none context = some none
dm_step (some expected) context =
    if same_bool expected context.is_dm then some (some context.is_dm) else none

noted : Codes → Option Bool → Option (Option Codes)
noted expected none = some none
noted expected (some true) = some (some expected)
noted expected (some false) = none

period_step : Option Codes → ℕ → Option (Option Codes)
unfolding in_period noted
period_step none hour = some none
period_step (some expected) hour = noted (lower expected) (in_period (lower expected) hour)

weekday_step : Option Codes → Codes → Option (Option Codes)
weekday_step none weekday = some none
weekday_step (some expected) weekday =
    if text_eq (lower expected) (lower weekday) then some (some (lower expected)) else none

-- `if matched: return True, …`
any_matched : Matched → Outcome
any_matched m = elim m.channel_name [
  | some x ↦ fires (matched_conditions m)
  | none ↦ elim m.is_dm [
    | some x ↦ fires (matched_conditions m)
    | none ↦ elim m.time_of_day [
      | some x ↦ fires (matched_conditions m)
      | none ↦ elim m.day_of_week [ some x ↦ fires (matched_conditions m) | none ↦ silent ]
    ]
  ]
]

-- The four conditions in the order of the code; the first that fails ends it.
collected :
    Option (Option Codes)
    → Option (Option Bool)
    → Option (Option Codes)
    → Option (Option Codes)
    → Outcome
unfolding any_matched
collected none dm period day = silent
collected (some channel) none period day = silent
collected (some channel) (some dm) none day = silent
collected (some channel) (some dm) (some period) none = silent
collected (some channel) (some dm) (some period) (some day) =
    any_matched
      (record { channel_name = channel; is_dm = dm; time_of_day = period; day_of_week = day })

pub check_context_trigger : Context → Clock → Option ContextConditions → Outcome
unfolding channel_step dm_step period_step weekday_step collected
check_context_trigger context clock none = silent
check_context_trigger context clock (some c) =
    collected (channel_step c.channel_name context) (dm_step c.is_dm context)
      (period_step c.time_of_day clock.hour) (weekday_step c.day_of_week clock.weekday)

-- `trigger_conditions.get("type", "keyword")`
abbrev pub type_of : Option Codes → Codes
type_of none = codes "keyword"
type_of (some t) = t

-- The quick keywords of a topic, when there are any.
pub quick_miss : List Codes → Codes → Bool
quick_miss keywords message =
    not (is_nil keywords) && not (any (λ kw. contains (lower kw) (lower message)) keywords)

unfoldable pub evaluate_trigger : Python → Codes → Trigger → Context → Clock → Outcome
unfolding check_keyword_trigger quick_miss check_topic_trigger check_time_trigger
    check_context_trigger
evaluate_trigger python message t context clock =
    let type = type_of t.type in
    if text_eq type (codes "keyword")
    then check_keyword_trigger python message t
    else if text_eq type (codes "topic")
    then (if quick_miss t.quick_keywords message then silent else check_topic_trigger message t)
    else if text_eq type (codes "time")
    then check_time_trigger python clock.now t
    else if text_eq type (codes "context")
    then check_context_trigger context clock t.conditions
    else silent
