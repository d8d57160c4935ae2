-- ===== src/Personality/History.antt =====
-- No trait is lost, and what is not applied changes nothing.
use my_palace.Common.{
  ℕ, ◌≡◌, refl, Bool, true, false, not, String, Option, none, some, str_eq, Codes, Result, ok, err,
  arith, In, map-In, In-append_left, Bool-cases, inl, inr, if◌then◌else◌,
}
use my_palace.Personality.{
  PersonalityTrait, Traits, Raised, key_error, trait_not_found, change, rewritten, retired, add,
  update, update_found, remove, remove_found, get, Decision, Outside, Answer, Env, Outcome, done,
  unknown_action, failed, required, with_key, updated, apply_add, apply_update, apply_remove,
  apply_action, or_no_change, parse_llm_json, apply, settled, decided, answered, evaluate_and_apply,
}

-- The same trait: what never changes about it.
pub record Same (t u : PersonalityTrait) : Type 0 where
  pub id : u.id ≡ t.id
  pub tenant : u.tenant_id ≡ t.tenant_id
  pub agent : u.agent_id ≡ t.agent_id
  pub category : u.category ≡ t.category
  pub key : u.trait_key ≡ t.trait_key
  pub born : u.created_at ≡ t.created_at

-- Every trait of the one table is in the other.
abbrev pub Keeps : Traits → Traits → Type 0
Keeps rows rows' =
    (t : PersonalityTrait) → In t rows → (u : PersonalityTrait) × In u rows' × Same t u

Same-refl : (t : PersonalityTrait) → Same t t
Same-refl t = record {
  id = refl;
  tenant = refl;
  agent = refl;
  category = refl;
  key = refl;
  born = refl;
}

Keeps-refl : (rows : Traits) → Keeps rows rows
Keeps-refl rows t i = (t, i, Same-refl t)

change-Keeps :
    (id : String) (f : PersonalityTrait → PersonalityTrait) (rows : Traits)
    → ((t : PersonalityTrait) → Same t (f t))
    → Keeps rows (change id f rows)
change-Keeps id f rows same t i = (
  _,
  map-In (λ (k : PersonalityTrait). if str_eq k.id id then f k else k) t rows i,
  either (str_eq t.id id),
)
  where
    either : (b : Bool) → Same t (if b then f t else t)
    either true = same t
    either false = Same-refl t

rewritten-Same :
    (content : String) (reason : Option String) (source : String) (now : ℕ) (t : PersonalityTrait)
    → Same t (rewritten content reason source now t)
unfolding rewritten
rewritten-Same content reason source now t = record {
  id = refl;
  tenant = refl;
  agent = refl;
  category = refl;
  key = refl;
  born = refl;
}

retired-Same :
    (reason : Option String) (source : String) (now : ℕ) (t : PersonalityTrait)
    → Same t (retired reason source now t)
unfolding retired
retired-Same reason source now t = record {
  id = refl;
  tenant = refl;
  agent = refl;
  category = refl;
  key = refl;
  born = refl;
}

-- What an outcome leaves keeps the traits.
abbrev OutcomeKeeps : Traits → Outcome → Type 0
OutcomeKeeps rows (done rows') = Keeps rows rows'
OutcomeKeeps rows unknown_action = Unit {0}
OutcomeKeeps rows (failed e) = Unit {0}

with_key-Keeps :
    (rows : Traits) (r : Result Raised String) (f : String → Outcome)
    → ((v : String) → OutcomeKeeps rows (f v))
    → OutcomeKeeps rows (with_key r f)
with_key-Keeps rows (ok v) f h = h v
with_key-Keeps rows (err e) f h = tt

update-Keeps :
    (found : Option PersonalityTrait) (id content : String) (reason : Option String)
    (source : String) (now : ℕ) (rows : Traits)
    → OutcomeKeeps rows (updated (update_found found id content reason source now rows))
unfolding update_found updated
update-Keeps none id content reason source now rows = tt
update-Keeps (some t) id content reason source now rows =
    change-Keeps id (rewritten content reason source now) rows
      (rewritten-Same content reason source now)

remove-Keeps :
    (found : Option PersonalityTrait) (id : String) (reason : Option String) (source : String)
    (now : ℕ) (rows : Traits)
    → Keeps rows (remove_found found id reason source now rows).1
unfolding remove_found
remove-Keeps none id reason source now rows = Keeps-refl rows
remove-Keeps (some t) id reason source now rows = elim (Bool-cases (not t.active)) [
  | inl e ↦ rw e (Keeps-refl rows)
  | inr e ↦ rw e (change-Keeps id (retired reason source now) rows (retired-Same reason source now))
]

apply_add-Keeps :
    (env : Env) (agent tenant : String) (d : Decision) (rows : Traits)
    → OutcomeKeeps rows (apply_add env agent tenant d rows)
unfolding apply_add add
apply_add-Keeps env agent tenant d rows =
    with_key-Keeps rows (required "category" d.category) _ λ category.
      with_key-Keeps rows (required "trait_key" d.trait_key) _ λ key.
        with_key-Keeps rows (required "content" d.content) _
          λ content t i. (t, In-append_left t rows _ i, Same-refl t)

apply_update-Keeps :
    (env : Env) (d : Decision) (rows : Traits) → OutcomeKeeps rows (apply_update env d rows)
unfolding apply_update update
apply_update-Keeps env d rows = with_key-Keeps rows (required "trait_id" d.trait_id) _ λ id.
    with_key-Keeps rows (required "content" d.content) _
      λ content. update-Keeps (get id rows) id content d.reason "evolution" env.now rows

apply_remove-Keeps :
    (env : Env) (d : Decision) (rows : Traits) → OutcomeKeeps rows (apply_remove env d rows)
unfolding apply_remove remove
apply_remove-Keeps env d rows =
    with_key-Keeps rows (required "trait_id" d.trait_id) _
      λ id. remove-Keeps (get id rows) id d.reason "evolution" env.now rows

apply_action-Keeps :
    (action : Option String) (env : Env) (agent tenant : String) (d : Decision) (rows : Traits)
    → OutcomeKeeps rows (apply_action action env agent tenant d rows)
unfolding apply_action
apply_action-Keeps none env agent tenant d rows = tt
apply_action-Keeps (some action) env agent tenant d rows = elim (Bool-cases (str_eq action "add")) [
  | inl e ↦ rw e (apply_add-Keeps env agent tenant d rows)
  | inr e ↦ elim (Bool-cases (str_eq action "update")) [
    | inl f ↦ rw (e, f) (apply_update-Keeps env d rows)
    | inr f ↦ elim (Bool-cases (str_eq action "remove")) [
      | inl g ↦ rw (e, f, g) (apply_remove-Keeps env d rows)
      | inr g ↦ rw (e, f, g) tt
    ]
  ]
]

-- What an answer says of the table.
abbrev Honest : Traits → Answer × Traits → Type 0
Honest rows r = (r.0.applied ≡ false → r.1 ≡ rows) × Keeps rows r.1

settled-Honest :
    (d : Decision) (o : Outcome) (rows : Traits)
    → OutcomeKeeps rows o
    → Honest rows (settled d o rows)
unfolding settled
settled-Honest d (done rows') rows k = (λ h. absurd (ground arith), k)
settled-Honest d unknown_action rows k = (λ h. refl, Keeps-refl rows)
settled-Honest d (failed (key_error key)) rows k = (λ h. refl, Keeps-refl rows)
settled-Honest d (failed (trait_not_found id)) rows k = (λ h. refl, Keeps-refl rows)

answered-Honest :
    (outside : Outside) (env : Env) (agent tenant : String) (raw : Option Codes) (rows : Traits)
    → Honest rows (answered outside env agent tenant raw rows)
unfolding answered decided apply
answered-Honest outside env agent tenant none rows = (λ h. refl, Keeps-refl rows)
answered-Honest outside env agent tenant (some raw) rows =
    let d = or_no_change (parse_llm_json outside raw) in
    elim (Bool-cases (not d.evolve)) [
      | inl e ↦ rw e (λ h. refl, Keeps-refl rows)
      | inr e ↦ rw e (
          settled-Honest d (apply_action d.action env agent tenant d rows) rows
            (apply_action-Keeps d.action env agent tenant d rows))
    ]

-- Whatever the language model answers, valid or not: when the evaluator reports that nothing was
-- applied, the table is as before; and in any case every trait is still in it, with its id, tenant,
-- agent, category, key and time of creation, since a removal only marks it.
pub evaluate_and_apply-Keeps :
    (outside : Outside) (env : Env) (user_message reply : Codes) (agent tenant : String)
    (rows : Traits)
    → let r = evaluate_and_apply outside env user_message reply agent tenant rows in
      (r.0.applied ≡ false → r.1 ≡ rows) × Keeps rows r.1
unfolding evaluate_and_apply
evaluate_and_apply-Keeps outside env user_message reply agent tenant rows =
    answered-Honest outside env agent tenant _ rows
