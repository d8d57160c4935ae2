-- ===== src/Intentions/Service/Once.antt =====
-- What `check` answers, and that no intention fires twice.
use my_palace.Common.{
  ℕ, ◌<◌, ◌≡◌, ◌≢◌, Option, none, some, false, str_eq_iff, lt→ltb, String, Bool, refl, sym, ap, ◌∙◌,
  ◌⊎◌, inl, inr, true, List, [], ◌∷◌, filter, arith, subst, In, In-filter, filter-In, Codes, Result,
  ok, err, In-sort_by, sort_by-In, sort_by-Descending, Descending,
}
use my_palace.Intentions.Triggers.{
  Python, Trigger, Context, Clock, Details, Outcome, silent, fires, raises, evaluate_trigger,
}
use my_palace.Intentions.Service.{
  Intention, Fired, Store, Raised, invalid_pattern, Caller, pending, alive, set, delete,
  cleanup_expired, fired_of, join, evaluated, settled, answered, check, by_priority,
}

fires-inj : (d e : Details) → fires d ≡ fires e → d ≡ e
fires-inj d e h = ap (λ o. elim o [ silent ↦ d | fires x ↦ x | raises ↦ d ]) h

join-err : (o : Outcome) (i : Intention) → join o i (err invalid_pattern) ≡ err invalid_pattern
join-err silent i = refl
join-err (fires d) i = refl
join-err raises i = refl

-- An expiry that is not there or is still to come.
abbrev pub Alive : ℕ → Option ℕ → Type 0
Alive now expires_at = (expires_at ≡ none) ⊎ ((t : ℕ) × (expires_at ≡ some t) × (now < t))

alive-Alive : (now : ℕ) (o : Option ℕ) → alive now o ≡ true → Alive now o
unfolding alive
alive-Alive now none e = inl refl
alive-Alive now (some t) e = inr (t, refl, ground arith)

Alive-alive : (now : ℕ) (o : Option ℕ) → Alive now o → alive now o ≡ true
unfolding alive
Alive-alive now o (inl e) = rw e refl
Alive-alive now o (inr (t, e, h)) = rw (e, lt→ltb now t h) refl

-- The intention is of the caller.
abbrev pub OfCaller : Caller → Intention → Type 0
OfCaller c i = (i.user_id ≡ c.user_id) × (i.agent_id ≡ c.agent_id) × (i.tenant_id ≡ c.tenant_id)

pending-described :
    (c : Caller) (now : ℕ) (i : Intention)
    → pending c now i ≡ true
    → OfCaller c i × (i.fired ≡ false) × Alive now i.expires_at
unfolding pending
pending-described c now i e = (
  (
    (str_eq_iff i.user_id c.user_id).0 (ground arith),
    (str_eq_iff i.agent_id c.agent_id).0 (ground arith),
    (str_eq_iff i.tenant_id c.tenant_id).0 (ground arith),
  ),
  ground arith,
  alive-Alive now i.expires_at (ground arith),
)

described-pending :
    (c : Caller) (now : ℕ) (i : Intention)
    → OfCaller c i
    → i.fired ≡ false
    → Alive now i.expires_at
    → pending c now i ≡ true
unfolding pending
described-pending c now i (user, agent, tenant) fresh live = ground (
  arith,
  (str_eq_iff i.user_id c.user_id).1 user,
  (str_eq_iff i.agent_id c.agent_id).1 agent,
  (str_eq_iff i.tenant_id c.tenant_id).1 tenant,
  Alive-alive now i.expires_at live,
)

pending-not : (c : Caller) (now : ℕ) (i : Intention) → i.fired ≡ true → pending c now i ≡ true → ⊥
unfolding pending
pending-not c now i done due = ground arith

module _ (python : Python) (message : Codes) (context : Context) (clock : Clock) where
  -- An intention that was due and has fired.
  pub record Due (c : Caller) (rows : List Intention) (f : Fired) : Type 0 where
    pub row : Intention
    pub details : Details
    pub stored : In row rows
    pub of_user : row.user_id ≡ c.user_id
    pub of_agent : row.agent_id ≡ c.agent_id
    pub of_tenant : row.tenant_id ≡ c.tenant_id
    pub not_fired : row.fired ≡ false
    pub not_expired : Alive clock.now row.expires_at
    pub hit : evaluate_trigger python message row.trigger_conditions context clock ≡ fires details
    pub told : f ≡ fired_of row details

  join-ok :
      (o : Outcome) (i : Intention) (r : Result Raised (List Fired)) (fired : List Fired)
      → join o i r ≡ ok fired
      → ((r ≡ ok fired) × (o ≡ silent))
        ⊎ ((d : Details) × (rest : List Fired) × (o ≡ fires d)
            × (r ≡ ok rest)
            × (fired ≡ fired_of i d ∷ rest))
  join-ok silent i r fired h = inl (h, refl)
  join-ok raises i r fired h = ground arith
  join-ok (fires d) i (ok rest) fired h = inr (d, rest, refl, refl, ground arith)
  join-ok (fires d) i (err e) fired h = ground arith

  evaluated_sound :
      (is : List Intention) (fired : List Fired) (f : Fired)
      → evaluated python message context clock is ≡ ok fired
      → In f fired
      → (i : Intention) × (d : Details) × In i is
        × (evaluate_trigger python message i.trigger_conditions context clock ≡ fires d)
        × (f ≡ fired_of i d)
  unfolding evaluated
  evaluated_sound [] [] f h j = elim j [ ]
  evaluated_sound [] (x ∷ xs) f h j = ground arith
  evaluated_sound (i ∷ is) fired f h j =
      elim (join-ok (evaluate_trigger python message i.trigger_conditions context clock) i
        (evaluated python message context clock is) fired h) [
          | inl (e, o) ↦
              let (k, d, m, hit, t) = evaluated_sound is fired f e j in (k, d, inr m, hit, t)
          | inr (d, rest, o, e, same) ↦ elim (subst (In f) same j) [
            | inl p ↦ (i, d, inl refl, o, p)
            | inr q ↦
                let (k, d', m, hit, t) = evaluated_sound is rest f e q in (k, d', inr m, hit, t)
          ]
        ]

  evaluated-complete :
      (is : List Intention) (fired : List Fired) (i : Intention) (d : Details)
      → evaluated python message context clock is ≡ ok fired
      → In i is
      → evaluate_trigger python message i.trigger_conditions context clock ≡ fires d
      → In (fired_of i d) fired
  unfolding evaluated
  evaluated-complete [] fired i d h j hit = elim j [ ]
  evaluated-complete (k ∷ is) fired i d h j hit =
      elim (join-ok (evaluate_trigger python message k.trigger_conditions context clock) k
        (evaluated python message context clock is) fired h) [
          | inl (e, o) ↦ elim j [
            | inl p ↦
                let here : evaluate_trigger python message k.trigger_conditions context clock
                    ≡ fires d =
                  subst
                    (λ (z : Intention).
                      evaluate_trigger python message z.trigger_conditions context clock ≡ fires d)
                    p hit in
                absurd (ground arith)
            | inr m ↦ evaluated-complete is fired i d e m hit
          ]
          | inr (d', rest, o, e, same) ↦ elim j [
            | inl p ↦
                let here : evaluate_trigger python message k.trigger_conditions context clock
                    ≡ fires d =
                  subst
                    (λ (z : Intention).
                      evaluate_trigger python message z.trigger_conditions context clock ≡ fires d)
                    p hit in
                let same_details : d ≡ d' = fires-inj d d' (sym here ∙ o) in
                subst (In (fired_of i d)) (sym same)
                  (inl (ap (λ z. fired_of z d) p ∙ ap (fired_of k) same_details))
            | inr m ↦
                subst (In (fired_of i d)) (sym same) (inr (evaluated-complete is rest i d e m hit))
          ]
        ]

  evaluated-raises :
      (is : List Intention) (i : Intention)
      → In i is
      → evaluate_trigger python message i.trigger_conditions context clock ≡ raises
      → evaluated python message context clock is ≡ err invalid_pattern
  unfolding evaluated
  evaluated-raises [] i j bad = elim j [ ]
  evaluated-raises (k ∷ is) i (inl p) bad =
      let here : evaluate_trigger python message k.trigger_conditions context clock ≡ raises =
        subst
          (λ (z : Intention).
            evaluate_trigger python message z.trigger_conditions context clock ≡ raises)
          p bad in
      rw here refl
  evaluated-raises (k ∷ is) i (inr m) bad =
      rw (evaluated-raises is i m bad)
        (join-err (evaluate_trigger python message k.trigger_conditions context clock) k)

  answered-ok :
      (c : Caller) (r : Result Raised (List Fired)) (s s' : Store) (fired : List Fired)
      → answered c clock.now r s ≡ (ok fired, s')
      → (found : List Fired) × (r ≡ ok found)
        × (fired ≡ by_priority found)
        × (s'.rows ≡ settled clock.now found s.rows)
  unfolding answered
  answered-ok c (err e) s s' fired h = ground arith
  answered-ok c (ok found) s s' fired h = (found, refl, ground arith, ground arith)

  -- A check that returns answers the rows of the caller's user, agent and tenant that have not fired,
  -- whose expiry is not there or still to come and whose trigger fires, all of them and no other, the
  -- highest priority first.
  pub check-Due :
      (c : Caller) (s s' : Store) (fired : List Fired)
      → check python c message context clock s ≡ (ok fired, s')
      → ((f : Fired) → In f fired → Due c s.rows f)
        × ((i : Intention) (d : Details)
            → In i s.rows
            → OfCaller c i
            → i.fired ≡ false
            → Alive clock.now i.expires_at
            → evaluate_trigger python message i.trigger_conditions context clock ≡ fires d
            → In (fired_of i d) fired)
        × Descending (λ f. f.priority) fired
  unfolding check
  check-Due c s s' fired h =
      let (found, e, sorted, rows) =
        answered-ok c (evaluated python message context clock (filter (pending c clock.now) s.rows))
          s s' fired h in
      (
        λ f j.
            let (i, d, m, hit, told) =
              evaluated_sound (filter (pending c clock.now) s.rows) found f e
                (In-sort_by _ f found (subst (In f) sorted j)) in
            let (stored, due) = In-filter (pending c clock.now) i s.rows m in
            let (own, fresh, live) = pending-described c clock.now i due in
            record {
              row = i;
              details = d;
              stored = stored;
              of_user = own.0;
              of_agent = own.1;
              of_tenant = own.2;
              not_fired = fresh;
              not_expired = live;
              hit = hit;
              told = told;
            },
        λ i d m own fresh live hit. subst (In (fired_of i d)) (sym sorted) (
            sort_by-In _ (fired_of i d) found (
              evaluated-complete _ found i d e
                (filter-In (pending c clock.now) i s.rows m
                  (described-pending c clock.now i own fresh live))
                hit)),
        subst (Descending (λ f. f.priority)) (sym sorted)
            (sort_by-Descending (λ (f : Fired). f.priority) found),
      )

  -- One intention of the caller that is due and whose trigger raises makes the whole check raise, and
  -- nothing is written: none of the caller's other intentions can fire.
  check-raises :
      (c : Caller) (s : Store) (i : Intention)
      → In i s.rows
      → pending c clock.now i ≡ true
      → evaluate_trigger python message i.trigger_conditions context clock ≡ raises
      → check python c message context clock s ≡ (err invalid_pattern, s)
  unfolding check answered
  check-raises c s i j due bad =
      rw
        (evaluated-raises (filter (pending c clock.now) s.rows) i
          (filter-In (pending c clock.now) i s.rows j due) bad)
        refl

-- What the service may do with its table, one call after the other, as long as no new row has the
-- id `used`.
pub data Step (used : String) (s : Store) : Store → Type 0 where
  checked :
      (p : Python) (c : Caller) (message : Codes) (context : Context) (clock : Clock)
      → Step used s (check p c message context clock s).1
  stored :
      (id : String) (c : Caller) (content : Codes) (t : Trigger) (expires_at : Option ℕ)
      (source : Option String) (priority : ℕ) (fire_once : Bool) (now : ℕ)
      → id ≢ used
      → Step used s (set id c content t expires_at source priority fire_once now s).1
  deleted : (id tenant : String) → Step used s (delete id tenant s).1
  cleaned : (tenant : String) (now : ℕ) → Step used s (cleanup_expired tenant now s).1

pub data Reach (used : String) (s : Store) : Store → Type 0 where
  here : Reach used s s
  next : {t u : Store} → Reach used s t → Step used t u → Reach used s u

-- Every row of the id has fired.
abbrev Spent : String → List Intention → Type 0
Spent id rows = (i : Intention) → In i rows → i.id ≡ id → i.fired ≡ true
