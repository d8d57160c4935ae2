-- ===== src/Intentions/Tests.antt =====
-- A few intentions on which the theorems of Intentions are tried.
use my_palace.Common.{
  ℕ, ◌≡◌, refl, Bool, true, false, String, Option, none, some, List, [], ◌∷◌, In, codes, text_eq,
  starts_with, Codes, lower, contains, Descending, sort_by,
}
use my_palace.Intentions.Triggers.{
  Python, ContextConditions, Trigger, Context, Clock, Details, matched_keywords, fires,
  evaluate_trigger,
}
use my_palace.Intentions.Service.{Intention, Fired, Store, Caller, fired_of, check}
use my_palace.Intentions.Service.Once.{Due, OfCaller, Alive, check-Due}

abbrev if_tea : Bool → Codes → Option Bool
if_tea true text = some (contains (codes "tea") text)
if_tea false text = none

-- A library whose only pattern is "tea", and whose time stamps all read ten o'clock.
abbrev at_ten : Option ℕ → Python
at_ten offset = record {
  re_search = λ ignore_case pattern text. if_tea (text_eq pattern (codes "tea")) text;
  fromisoformat = λ text. some (record { clock = 36_000; offset = offset });
}

abbrev plain : Trigger
plain = record {
  type = none;
  keywords = codes "Tea" ∷ [];
  regex = none;
  case_sensitive = false;
  topic = [];
  threshold = none;
  quick_keywords = [];
  at = none;
  after = none;
  conditions = none;
}

abbrev context : Context
context = record { channel_name = codes "General"; is_dm = false }

abbrev clock : Clock
clock = record { now = 40_000; hour = 11; weekday = codes "Monday" }

abbrev caller : Caller
caller = record { user_id = "u1"; agent_id = "clara"; tenant_id = "acme" }

abbrev intention : String → ℕ → Trigger → Intention
intention id priority trigger = record {
  id = id;
  tenant_id = "acme";
  user_id = "u1";
  agent_id = "clara";
  content = codes "offer tea";
  source_memory_id = none;
  trigger_conditions = trigger;
  priority = priority;
  fired = false;
  fire_once = false;
  created_at = 1;
  expires_at = none;
  fired_at = none;
}

abbrev two : Store
two = record { rows = intention "i1" 1 plain ∷ intention "i2" 5 plain ∷ []; published = [] }

abbrev message : Codes
message = codes "some tea"

abbrev told : String → ℕ → Fired
told id priority = fired_of (intention id priority plain) (matched_keywords (codes "Tea" ∷ []))

abbrev both : List Fired
both = told "i2" 5 ∷ told "i1" 1 ∷ []

check-Due_example :
    ((f : Fired) → In f both → Due (at_ten none) message context clock caller two.rows f)
    × ((i : Intention) (d : Details)
        → In i two.rows
        → OfCaller caller i
        → i.fired ≡ false
        → Alive 40_000 i.expires_at
        → evaluate_trigger (at_ten none) message i.trigger_conditions context clock ≡ fires d
        → In (fired_of i d) both)
    × Descending (λ f. f.priority) both
unfolding check evaluate_trigger text_eq contains lower starts_with sort_by
check-Due_example =
    check-Due (at_ten none) message context clock caller two
      (check (at_ten none) caller message context clock two).1 both refl

-- A third intention waits for water.
abbrev waiting : Store
waiting = record {
  rows =
      intention "i1" 1 plain
      ∷ intention "i3" 2 (record plain { keywords = codes "water" ∷ [] })
      ∷ [];
  published = [];
}

abbrev first_fired : Fired
first_fired = told "i1" 1

abbrev second_fired : Fired
second_fired =
    fired_of (intention "i3" 2 (record plain { keywords = codes "water" ∷ [] }))
      (matched_keywords (codes "water" ∷ []))

abbrev after_first : Store
after_first = (check (at_ten none) caller message context clock waiting).1

abbrev broken : Trigger
broken = record plain { regex = some (codes "(") }

abbrev on_mornings : ContextConditions
on_mornings = record {
  channel_name = none;
  is_dm = some false;
  time_of_day = some (codes "morning");
  day_of_week = none;
}
