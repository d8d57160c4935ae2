-- ===== src/Intentions/Service.antt =====
-- mypalace/intentions/service.py: the table of intentions. The triggers of one `check` either are all
-- evaluated or the first that raises ends it before the commit.
pub mod Once
use my_palace.Common.{
  ℕ, ◌+◌, Bool, true, false, not, ◌&&◌, ◌||◌, String, Option, none, some, List, [], ◌∷◌, ◌++◌, map,
  filter, find?, take, length, leb, ltb, str_eq, elem, codes, Codes, Result, ok, err, if◌then◌else◌,
  sort_by, highest_first, is_some,
}
use my_palace.Intentions.Triggers.{
  Python, Trigger, Context, Clock, Details, Outcome, silent, fires, raises, evaluate_trigger,
  type_of,
}

pub record Intention : Type 0 where
  pub id : String
  pub tenant_id : String
  pub user_id : String
  pub agent_id : String
  pub content : Codes
  pub source_memory_id : Option String
  pub trigger_conditions : Trigger
  pub priority : ℕ
  pub fired : Bool
  pub fire_once : Bool
  pub created_at : ℕ
  pub expires_at : Option ℕ
  pub fired_at : Option ℕ

-- What `check` answers for an intention that fires.
pub record Fired : Type 0 where
  pub id : String
  pub content : Codes
  pub trigger_type : Codes
  pub priority : ℕ
  pub match_details : Details
  pub source_memory_id : Option String

-- The table, and the ids of the `intention.fired` events by tenant, in order.
pub record Store : Type 0 where
  pub rows : List Intention
  pub published : List (String × String)

pub data Raised : Type 0 where
  invalid_pattern : Raised

-- The caller of the service.
pub record Caller : Type 0 where
  pub user_id : String
  pub agent_id : String
  pub tenant_id : String

abbrev pub of_caller : Caller → Intention → Bool
of_caller c i =
    str_eq i.user_id c.user_id && str_eq i.agent_id c.agent_id && str_eq i.tenant_id c.tenant_id

pub alive : ℕ → Option ℕ → Bool
alive now none = true
alive now (some t) = ltb now t

-- The rows that `check` evaluates.
unfoldable pub pending : Caller → ℕ → Intention → Bool
unfolding alive
pending c now i = of_caller c i && not i.fired && alive now i.expires_at

-- set
pub set :
    String
    → Caller
    → Codes
    → Trigger
    → Option ℕ
    → Option String
    → ℕ
    → Bool
    → ℕ
    → Store
    → Intention × Store
set id c content trigger_conditions expires_at source_memory_id priority fire_once now s =
    let intention : Intention = record {
      id = id;
      tenant_id = c.tenant_id;
      user_id = c.user_id;
      agent_id = c.agent_id;
      content = content;
      source_memory_id = source_memory_id;
      trigger_conditions = trigger_conditions;
      priority = priority;
      fired = false;
      fire_once = fire_once;
      created_at = now;
      expires_at = expires_at;
      fired_at = none;
    } in
    (intention, record s { rows = s.rows ++ intention ∷ [] })

pub fired_of : Intention → Details → Fired
fired_of i details = record {
  id = i.id;
  content = i.content;
  trigger_type = type_of i.trigger_conditions.type;
  priority = i.priority;
  match_details = details;
  source_memory_id = i.source_memory_id;
}

abbrev pub join : Outcome → Intention → Result Raised (List Fired) → Result Raised (List Fired)
join raises i rest = err invalid_pattern
join silent i rest = rest
join (fires d) i (ok fired) = ok (fired_of i d ∷ fired)
join (fires d) i (err e) = err e

-- The loop over the intentions.
pub evaluated : Python → Codes → Context → Clock → List Intention → Result Raised (List Fired)
unfolding fired_of
evaluated python message context clock [] = ok []
evaluated python message context clock (i ∷ is) =
    join (evaluate_trigger python message i.trigger_conditions context clock) i
      (evaluated python message context clock is)

abbrev pub ids : List Fired → List String
ids = map λ f. f.id

-- `fired = True; fired_at = utcnow()`
pub marked : ℕ → List Fired → Intention → Intention
marked now fired i =
    if elem i.id (ids fired) then record i { fired = true; fired_at = some now } else i

-- Fired rows are marked, and those that fire once are deleted.
pub settled : ℕ → List Fired → List Intention → List Intention
unfolding marked
settled now fired rows =
    map (marked now fired) (filter (λ i. not (elem i.id (ids fired) && i.fire_once)) rows)

abbrev pub by_priority : List Fired → List Fired
by_priority = sort_by (highest_first (λ f. f.priority))

pub answered : Caller → ℕ → Result Raised (List Fired) → Store → Result Raised (List Fired) × Store
unfolding settled
answered c now (err e) s = (err e, s)
answered c now (ok fired) s = (
  ok (by_priority fired),
  record {
    rows = settled now fired s.rows;
    published = s.published ++ map (λ (f : Fired). (c.tenant_id, f.id)) (by_priority fired);
  },
)

unfoldable pub check :
    Python → Caller → Codes → Context → Clock → Store → Result Raised (List Fired) × Store
unfolding evaluated answered pending
check python c message context clock s =
    answered c clock.now
      (evaluated python message context clock (filter (pending c clock.now) s.rows)) s

reminder_lines : List Fired → Codes
reminder_lines [] = []
reminder_lines (f ∷ fired) = codes "\n- " ++ (f.content ++ reminder_lines fired)

pub format_for_prompt : List Fired → ℕ → Codes
unfolding reminder_lines
format_for_prompt [] max_intentions = []
format_for_prompt (f ∷ fired) max_intentions =
    codes "## Reminders" ++ reminder_lines (take max_intentions (f ∷ fired))

-- `fired_filter`: any other text than "true" and "false" puts no clause.
pub fired_clause : String → Bool → Bool
fired_clause fired_filter fired =
    if str_eq fired_filter "true"
    then fired
    else if str_eq fired_filter "false"
    then not fired
    else true

pub list_for_user : Caller → String → ℕ → Store → List Intention
unfolding fired_clause
list_for_user c fired_filter limit s = take limit (
    sort_by (highest_first (λ i. i.priority))
      (filter (λ i. of_caller c i && fired_clause fired_filter i.fired) s.rows))

abbrev pub names : String → String → Intention → Bool
names intention_id tenant_id i = str_eq i.id intention_id && str_eq i.tenant_id tenant_id

pub delete : String → String → Store → Bool × Store
delete intention_id tenant_id s =
    if is_some (find? (names intention_id tenant_id) s.rows)
    then (true, record s { rows = filter (λ i. not (names intention_id tenant_id i)) s.rows })
    else (false, s)

-- `expires_at < now`
pub is_over : ℕ → Option ℕ → Bool
is_over now none = false
is_over now (some t) = ltb t now

pub cleanup_expired : String → ℕ → Store → ℕ × Store
unfolding is_over
cleanup_expired tenant_id now s =
    let gone = λ (i : Intention). is_over now i.expires_at && str_eq i.tenant_id tenant_id in
    (length (filter gone s.rows), record s { rows = filter (λ i. not (gone i)) s.rows })
