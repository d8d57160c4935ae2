-- ===== src/Personality.antt =====
-- mypalace/personality_service.py: the traits of an agent and the evaluator that changes them. The
-- language model is a parameter that is given what fills the prompt, and so is `json.loads`. Texts
-- that are taken apart are ASCII texts, as code points; the order of texts is that of code points.
pub mod Fences
pub mod History
pub mod Tests
use my_palace.Common.{
  ℕ, ◌+◌, Bool, true, false, not, ◌&&◌, ◌||◌, String, Option, none, some, List, [], ◌∷◌, ◌++◌, map,
  filter, find?, take, ltb, leb, str_eq, elem, codes, Codes, sort_by, is_some, if◌then◌else◌,
  Result, ok, err,
}
use Prim.Native.String.{compare}
use Prim.Native.Nat.{Ordering}
use my_palace.Jobs.{Table, enqueue}
use my_palace.Personality.Fences.{unfenced}

pub record PersonalityTrait : Type 0 where
  pub id : String
  pub tenant_id : String
  pub agent_id : String
  pub category : String
  pub trait_key : String
  pub content : String
  pub source : String
  pub reason : Option String
  pub active : Bool
  pub created_at : ℕ
  pub updated_at : ℕ

abbrev pub Traits : Type 0
Traits = List PersonalityTrait

-- `s <= t`
pub text_le : String → String → Bool
text_le s t = elim (compare s t) [ Ordering.gt ↦ false | _ ↦ true ]

-- `ORDER BY category, trait_key`
pub in_order : PersonalityTrait → PersonalityTrait → Bool
unfolding text_le
in_order x y =
    if str_eq x.category y.category
    then text_le x.trait_key y.trait_key
    else text_le x.category y.category

unfoldable pub list_active : String → String → Traits → Traits
unfolding in_order
list_active agent_id tenant_id rows =
    sort_by in_order
      (filter (λ t. str_eq t.tenant_id tenant_id && str_eq t.agent_id agent_id && t.active) rows)

pub get : String → Traits → Option PersonalityTrait
get trait_id = find? λ t. str_eq t.id trait_id

pub record Added : Type 0 where
  pub category : String
  pub trait_key : String
  pub content : String
  pub reason : Option String
  pub source : String

-- add, with the id and the time that it draws
unfoldable pub add : String → ℕ → String → String → Added → Traits → PersonalityTrait × Traits
add id now agent_id tenant_id a rows =
    let row : PersonalityTrait = record {
      id = id;
      tenant_id = tenant_id;
      agent_id = agent_id;
      category = a.category;
      trait_key = a.trait_key;
      content = a.content;
      source = a.source;
      reason = a.reason;
      active = true;
      created_at = now;
      updated_at = now;
    } in
    (row, rows ++ row ∷ [])

pub data Raised : Type 0 where
  key_error : String → Raised
  trait_not_found : String → Raised

-- A change of the rows with an id.
abbrev pub change : String → (PersonalityTrait → PersonalityTrait) → Traits → Traits
change trait_id f = map λ t. if str_eq t.id trait_id then f t else t

pub rewritten : String → Option String → String → ℕ → PersonalityTrait → PersonalityTrait
rewritten content reason source now t = record t {
  content = content;
  reason = reason;
  source = source;
  updated_at = now;
}

pub retired : Option String → String → ℕ → PersonalityTrait → PersonalityTrait
retired reason source now t = record t {
  active = false;
  reason = reason;
  source = source;
  updated_at = now;
}

pub update_found :
    Option PersonalityTrait
    → String
    → String
    → Option String
    → String
    → ℕ
    → Traits
    → Result Raised PersonalityTrait × Traits
unfolding rewritten
update_found none trait_id content reason source now rows = (err (trait_not_found trait_id), rows)
update_found (some t) trait_id content reason source now rows = (
  ok (rewritten content reason source now t),
  change trait_id (rewritten content reason source now) rows,
)

pub update :
    String → String → Option String → String → ℕ → Traits → Result Raised PersonalityTrait × Traits
unfolding get update_found
update trait_id content reason source now rows =
    update_found (get trait_id rows) trait_id content reason source now rows

pub remove_found :
    Option PersonalityTrait → String → Option String → String → ℕ → Traits → Bool × Traits
unfolding retired
remove_found none trait_id reason source now rows = (false, rows)
remove_found (some t) trait_id reason source now rows =
    if not t.active then (false, rows) else (true, change trait_id (retired reason source now) rows)

pub remove : String → Option String → String → ℕ → Traits → Bool × Traits
unfolding get remove_found
remove trait_id reason source now rows =
    remove_found (get trait_id rows) trait_id reason source now rows

-- What the language model decides, as a JSON object: `evolve` is whether that value is true, and the
-- others are texts or missing.
pub record Decision : Type 0 where
  pub evolve : Bool
  pub action : Option String
  pub category : Option String
  pub trait_key : Option String
  pub trait_id : Option String
  pub content : Option String
  pub reason : Option String

pub data Json : Type 0 where
  object : Decision → Json
  other : Json

-- The language model, on the traits, the message and the reply, where none is a call that raises; and
-- `json.loads`, where none is a text that it refuses.
pub record Outside : Type 0 where
  pub complete : Codes → Codes → Codes → Option Codes
  pub loads : Codes → Option Json

pub record Answer : Type 0 where
  pub decision : Decision
  pub applied : Bool
  pub error : Option String

no_change : Decision
no_change = record {
  evolve = false;
  action = none;
  category = none;
  trait_key = none;
  trait_id = none;
  content = none;
  reason = none;
}

as_object : Option Json → Option Decision
as_object none = none
as_object (some (object d)) = some d
as_object (some other) = none

-- _parse_llm_json
pub parse_llm_json : Outside → Codes → Option Decision
unfolding as_object
parse_llm_json outside raw = as_object (outside.loads (unfenced raw))

-- _format_traits_for_prompt
trait_line : PersonalityTrait → Codes
trait_line t =
    codes "  - ["
    ++ (codes t.category
        ++ (codes "/"
            ++ (codes t.trait_key
                ++ (codes "] id=" ++ (codes t.id ++ (codes ": " ++ codes t.content))))))

joined : List Codes → Codes
joined [] = []
joined (x ∷ []) = x
joined (x ∷ y ∷ xs) = x ++ (codes "\n" ++ joined (y ∷ xs))

categories : Traits → List String
categories [] = []
categories (t ∷ ts) =
    let rest = categories ts in if elem t.category rest then rest else t.category ∷ rest

pub format_traits_for_prompt : Traits → Codes
unfolding trait_line joined categories text_le
format_traits_for_prompt [] = codes "No evolved traits yet."
format_traits_for_prompt (t ∷ ts) = joined (
    map (λ c. joined (map trait_line (filter (λ k. str_eq k.category c) (t ∷ ts))))
      (sort_by text_le (categories (t ∷ ts))))

-- `decision[key]`
pub required : String → Option String → Result Raised String
required key none = err (key_error key)
required key (some v) = ok v

pub data Outcome : Type 0 where
  done : Traits → Outcome
  unknown_action : Outcome
  failed : Raised → Outcome

abbrev pub with_key : Result Raised String → (String → Outcome) → Outcome
with_key (err e) f = failed e
with_key (ok v) f = f v

updated : Result Raised PersonalityTrait × Traits → Outcome
updated (ok t, rows) = done rows
updated (err e, rows) = failed e

-- What the environment gives: the id and the time.
pub record Env : Type 0 where
  pub fresh_id : String
  pub now : ℕ

-- The arguments are read from the decision in the order of the code.
apply_add : Env → String → String → Decision → Traits → Outcome
unfolding required add
apply_add env agent_id tenant_id d rows = with_key (required "category" d.category) (λ category.
    with_key (required "trait_key" d.trait_key) (λ trait_key.
      with_key (required "content" d.content) (λ content.
        done
          (add env.fresh_id env.now agent_id tenant_id
            (record {
              category = category;
              trait_key = trait_key;
              content = content;
              reason = d.reason;
              source = "evolution";
            })
            rows).1)))

apply_update : Env → Decision → Traits → Outcome
unfolding required update updated
apply_update env d rows = with_key (required "trait_id" d.trait_id) (λ trait_id.
    with_key (required "content" d.content)
      (λ content. updated (update trait_id content d.reason "evolution" env.now rows)))

apply_remove : Env → Decision → Traits → Outcome
unfolding required remove
apply_remove env d rows =
    with_key (required "trait_id" d.trait_id)
      (λ trait_id. done (remove trait_id d.reason "evolution" env.now rows).1)

apply_action : Option String → Env → String → String → Decision → Traits → Outcome
unfolding apply_add apply_update apply_remove
apply_action none env agent_id tenant_id d rows = unknown_action
apply_action (some action) env agent_id tenant_id d rows =
    if str_eq action "add"
    then apply_add env agent_id tenant_id d rows
    else if str_eq action "update"
    then apply_update env d rows
    else if str_eq action "remove"
    then apply_remove env d rows
    else unknown_action

pub apply : Env → String → String → Decision → Traits → Outcome
unfolding apply_action
apply env agent_id tenant_id d rows = apply_action d.action env agent_id tenant_id d rows

-- The error is the key or the id that its `repr` shows.
settled : Decision → Outcome → Traits → Answer × Traits
settled d (done rows') rows = (record { decision = d; applied = true; error = none }, rows')
settled d unknown_action rows =
    (record { decision = d; applied = false; error = some "unknown_action" }, rows)
settled d (failed (key_error key)) rows =
    (record { decision = d; applied = false; error = some key }, rows)
settled d (failed (trait_not_found id)) rows =
    (record { decision = d; applied = false; error = some id }, rows)

decided : Env → String → String → Decision → Traits → Answer × Traits
unfolding apply settled
decided env agent_id tenant_id d rows =
    if not d.evolve
    then (record { decision = d; applied = false; error = none }, rows)
    else settled d (apply env agent_id tenant_id d rows) rows

or_no_change : Option Decision → Decision
unfolding no_change
or_no_change none = no_change
or_no_change (some d) = d

answered : Outside → Env → String → String → Option Codes → Traits → Answer × Traits
unfolding parse_llm_json or_no_change decided
answered outside env agent_id tenant_id none rows =
    (record { decision = no_change; applied = false; error = some "llm_failed" }, rows)
answered outside env agent_id tenant_id (some raw) rows =
    decided env agent_id tenant_id (or_no_change (parse_llm_json outside raw)) rows

unfoldable pub evaluate_and_apply :
    Outside → Env → Codes → Codes → String → String → Traits → Answer × Traits
unfolding answered format_traits_for_prompt list_active
evaluate_and_apply outside env user_message assistant_reply agent_id tenant_id rows =
    answered outside env agent_id tenant_id
      (outside.complete (format_traits_for_prompt (list_active agent_id tenant_id rows))
        (take 2000 user_message) (take 2000 assistant_reply))
      rows

-- maybe_enqueue_evolution: the chance and the random number in millionths; `reachable` says that the
-- job could be put in the table.
pub maybe_enqueue_evolution :
    ℕ → ℕ → Bool → String → String → String → String → ℕ → Table → Bool × Table
maybe_enqueue_evolution chance random reachable id user_id payload tenant_id now jobs =
    if leb chance 0 then (false, jobs) else if ltb chance random then (false, jobs) else (
      true,
      (if reachable
          then (enqueue id "personality_evolve" user_id payload tenant_id now jobs).1
          else jobs),
    )
