-- ===== src/Intentions/Triggers/Meaning.antt =====
-- When the matchers fire, and when they raise.
use my_palace.Common.{
  ℕ, ◌≡◌, refl, ◌∙◌, Bool, true, false, not, ◌&&◌, ◌||◌, Option, none, some, [], ◌∷◌, codes,
  text_eq, arith, Codes, lower, contains, is_some,
}
use my_palace.Intentions.Triggers.{
  Stamp, Python, Trigger, ContextConditions, Context, Clock, Outcome, silent, fires, raises,
  check_context_trigger, check_time_trigger, check_keyword_trigger, channel_step, dm_step,
  same_bool, period_step, noted, in_period, weekday_step, collected, any_matched, reached,
  utc_suffix, has_come, evaluate_trigger, type_of, regex_part, with_regex,
}

abbrev pub is_fired : Outcome → Bool
is_fired (fires d) = true
is_fired silent = false
is_fired raises = false

-- A condition that is given holds.
pub channel_ok : Context → Option Codes → Bool
channel_ok context none = true
channel_ok context (some expected) = contains (lower expected) (lower context.channel_name)

pub dm_ok : Context → Option Bool → Bool
unfolding same_bool
dm_ok context none = true
dm_ok context (some expected) = same_bool expected context.is_dm

-- A part of the day with a name that is not known holds at any hour.
pub period_ok : ℕ → Option Codes → Bool
unfolding in_period
period_ok hour none = true
period_ok hour (some expected) = elim (in_period (lower expected) hour) [ none ↦ true | some b ↦ b ]

pub weekday_ok : Codes → Option Codes → Bool
weekday_ok weekday none = true
weekday_ok weekday (some expected) = text_eq (lower expected) (lower weekday)

-- Whether a name is one of the four parts of the day.
pub known_period : Option Codes → Bool
known_period none = false
known_period (some e) =
    text_eq (lower e) (codes "morning")
    || text_eq (lower e) (codes "afternoon")
    || text_eq (lower e) (codes "evening")
    || text_eq (lower e) (codes "night")

in_period-known :
    (e : Codes) (hour : ℕ) → is_some (in_period (lower e) hour) ≡ known_period (some e)
unfolding in_period known_period
in_period-known e hour = ground arith

channel-lem : (x : Option Codes) (c : Context) → is_some (channel_step x c) ≡ channel_ok c x
unfolding channel_step channel_ok
channel-lem none c = refl
channel-lem (some e) c = ground arith

dm-lem : (x : Option Bool) (c : Context) → is_some (dm_step x c) ≡ dm_ok c x
unfolding dm_step dm_ok
dm-lem none c = refl
dm-lem (some e) c = ground arith

period-lem : (x : Option Codes) (hour : ℕ) → is_some (period_step x hour) ≡ period_ok hour x
unfolding period_step period_ok
period-lem none hour = refl
period-lem (some e) hour = noted-lem (lower e) (in_period (lower e) hour)
  where
    noted-lem :
        (e : Codes) (o : Option Bool) → is_some (noted e o) ≡ elim o [ none ↦ true | some b ↦ b ]
    noted-lem e none = refl
    noted-lem e (some true) = refl
    noted-lem e (some false) = refl

weekday-lem : (x : Option Codes) (w : Codes) → is_some (weekday_step x w) ≡ weekday_ok w x
unfolding weekday_step weekday_ok
weekday-lem none w = refl
weekday-lem (some e) w = ground arith

-- Whether a condition that was met is noted.
abbrev kept : {A : Type 0} → Option (Option A) → Bool
kept none = false
kept (some none) = false
kept (some (some a)) = true

channel-kept :
    (x : Option Codes) (c : Context)
    → is_some (channel_step x c) ≡ true
    → kept (channel_step x c) ≡ is_some x
unfolding channel_step
channel-kept none c h = refl
channel-kept (some e) c h = ground arith

dm-kept :
    (x : Option Bool) (c : Context) → is_some (dm_step x c) ≡ true → kept (dm_step x c) ≡ is_some x
unfolding dm_step
dm-kept none c h = refl
dm-kept (some e) c h = ground arith

weekday-kept :
    (x : Option Codes) (w : Codes)
    → is_some (weekday_step x w) ≡ true
    → kept (weekday_step x w) ≡ is_some x
unfolding weekday_step
weekday-kept none w h = refl
weekday-kept (some e) w h = ground arith

noted-kept :
    (e : Codes) (o : Option Bool) → is_some (noted e o) ≡ true → kept (noted e o) ≡ is_some o
unfolding noted
noted-kept e none h = refl
noted-kept e (some true) h = refl
noted-kept e (some false) h = ground arith

period-kept :
    (x : Option Codes) (hour : ℕ)
    → is_some (period_step x hour) ≡ true
    → kept (period_step x hour) ≡ known_period x
unfolding period_step known_period
period-kept none hour h = refl
period-kept (some e) hour h =
    noted-kept (lower e) (in_period (lower e) hour) h ∙ in_period-known e hour

collected-fired :
    (a : Option (Option Codes)) (b : Option (Option Bool)) (c d : Option (Option Codes))
    → is_fired (collected a b c d) ≡ (
        (is_some a && is_some b && is_some c && is_some d)
        && (kept a || kept b || kept c || kept d))
unfolding collected any_matched
collected-fired none b c d = refl
collected-fired (some a) none c d = ground arith
collected-fired (some a) (some b) none d = ground arith
collected-fired (some a) (some b) (some c) none = ground arith
collected-fired (some (some x)) (some b) (some c) (some d) = refl
collected-fired (some none) (some (some y)) (some c) (some d) = refl
collected-fired (some none) (some none) (some (some z)) (some d) = refl
collected-fired (some none) (some none) (some none) (some (some w)) = refl
collected-fired (some none) (some none) (some none) (some none) = refl

and_swap :
    (a b c d k l m n k' l' m' n' : Bool)
    → (a ≡ true → k ≡ k')
    → (b ≡ true → l ≡ l')
    → (c ≡ true → m ≡ m')
    → (d ≡ true → n ≡ n')
    → ((a && b && c && d) && (k || l || m || n)) ≡ ((a && b && c && d) && (k' || l' || m' || n'))
and_swap true true true true k l m n k' l' m' n' p q r s = rw (p refl, q refl, r refl, s refl) refl
and_swap true true true false k l m n k' l' m' n' p q r s = refl
and_swap true true false d k l m n k' l' m' n' p q r s = refl
and_swap true false c d k l m n k' l' m' n' p q r s = refl
and_swap false b c d k l m n k' l' m' n' p q r s = refl

-- A context trigger fires exactly when all conditions that it gives hold and at least one of them is
-- given, where a part of the day with a name that the table does not have counts as neither.
check_context_trigger-fires :
    (context : Context) (clock : Clock) (c : ContextConditions)
    → is_fired (check_context_trigger context clock (some c)) ≡ (
        (channel_ok context c.channel_name
          && dm_ok context c.is_dm
          && period_ok clock.hour c.time_of_day
          && weekday_ok clock.weekday c.day_of_week)
        && (is_some c.channel_name
            || is_some c.is_dm
            || known_period c.time_of_day
            || is_some c.day_of_week))
unfolding check_context_trigger
check_context_trigger-fires context clock c =
    collected-fired _ _ _ _
    ∙ and_swap _ _ _ _ _ _ _ _ _ _ _ _ (channel-kept c.channel_name context)
        (dm-kept c.is_dm context) (period-kept c.time_of_day clock.hour)
        (weekday-kept c.day_of_week clock.weekday)
    ∙ rw
        (
          channel-lem c.channel_name context,
          dm-lem c.is_dm context,
          period-lem c.time_of_day clock.hour,
          weekday-lem c.day_of_week clock.weekday,
        )
        refl

-- Two readings of time stamps that show the same clock, whatever their offsets.
abbrev pub SameClock : Option Stamp → Option Stamp → Type 0
SameClock none none = Unit {0}
SameClock none (some t) = ⊥
SameClock (some s) none = ⊥
SameClock (some s) (some t) = s.clock ≡ t.clock

has_come-same : (now : ℕ) (a b : Option Stamp) → SameClock a b → has_come now a ≡ has_come now b
unfolding has_come
has_come-same now none none h = refl
has_come-same now none (some t) h = absurd h
has_come-same now (some s) none h = absurd h
has_come-same now (some s) (some t) h = rw h refl

reached-same :
    (p q : Python) (now : ℕ) (text : Option Codes)
    → ((s : Codes) → SameClock (p.fromisoformat s) (q.fromisoformat s))
    → reached p now text ≡ reached q now text
unfolding reached
reached-same p q now none h = refl
reached-same p q now (some []) h = refl
reached-same p q now (some (c ∷ s)) h = has_come-same now _ _ (h (utc_suffix (c ∷ s)))

-- A time trigger looks at the clock of a time stamp and not at its offset: under two readings of
-- time stamps that differ in offsets only it does the same.
check_time_trigger-clock :
    (p q : Python) (now : ℕ) (t : Trigger)
    → ((s : Codes) → SameClock (p.fromisoformat s) (q.fromisoformat s))
    → check_time_trigger p now t ≡ check_time_trigger q now t
unfolding check_time_trigger
check_time_trigger-clock p q now t h =
    rw (reached-same p q now t.at h, reached-same p q now t.after h) refl

-- A keyword trigger with a regular expression that is no valid one raises, whatever its keywords.
pub evaluate_trigger-raises :
    (p : Python) (message : Codes) (t : Trigger) (context : Context) (clock : Clock) (c : ℕ)
    (pattern : Codes)
    → text_eq (type_of t.type) (codes "keyword") ≡ true
    → t.regex ≡ some (c ∷ pattern)
    → p.re_search (not t.case_sensitive) (c ∷ pattern) message ≡ none
    → evaluate_trigger p message t context clock ≡ raises
unfolding evaluate_trigger check_keyword_trigger regex_part with_regex
evaluate_trigger-raises p message t context clock c pattern kind given bad =
    rw (kind, given, bad) refl
