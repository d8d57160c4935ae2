-- ===== src/Jobs/Claim.antt =====
-- What a claim takes, and when it finds nothing.
use my_palace.Common.{
  ℕ, ◌+◌, ◌≤◌, ◌≡◌, ◌≢◌, refl, sym, ap, ◌∙◌, ◌⊎◌, inl, inr, Bool, true, false, String, Option, none,
  some, List, [], ◌∷◌, leb, filter, str_eq, str_eq_iff, arith, In, In-filter, filter-In, In-map,
  All, All-In, Option-cases, Bool-cases, All-mono, ◌↔◌, subst,
}
use native.Mathlib.Nat.{le_refl, le_trans}
use my_palace.Jobs.{
  ReflectionJob, Table, claimable, older, oldest, update, leased, take_lease, lease_length,
  Settings, claim_next,
}

oldest-none : (js : List ReflectionJob) → oldest js ≡ none → js ≡ []
unfolding oldest
oldest-none [] h = refl
oldest-none (j ∷ js) h = absurd (older-some_of j (oldest js) h)
  where
    older-some_of : (k : ReflectionJob) (o : Option ReflectionJob) → older k o ≡ none → ⊥
    older-some_of k none e = cc
    older-some_of k (some m) e = ground arith

older-some :
    (k j : ReflectionJob) (o : Option ReflectionJob)
    → older k o ≡ some j
    → ((j ≡ k) × ((m : ReflectionJob) → o ≡ some m → k.created_at ≤ m.created_at))
      ⊎ ((o ≡ some j) × (j.created_at ≤ k.created_at))
unfolding older
older-some k j none h = inl (ground arith, λ m e. cc)
older-some k j (some m) h = elim (Bool-cases (leb k.created_at m.created_at)) [
  | inl t ↦ inl (ground arith, λ n e. ground arith)
  | inr f ↦ inr (ground arith, ground arith)
]

-- `k` comes before all of `js` if it comes before their oldest.
first :
    (k : ReflectionJob) (js : List ReflectionJob)
    → ((m : ReflectionJob) → oldest js ≡ some m → All (λ i. m.created_at ≤ i.created_at) js)
    → ((m : ReflectionJob) → oldest js ≡ some m → k.created_at ≤ m.created_at)
    → All (λ i. k.created_at ≤ i.created_at) js
first k js least le = elim (Option-cases (oldest js)) [
  | inl n ↦ rw (oldest-none js n) tt
  | inr (m, e) ↦ All-mono _ _ js (λ i h. le_trans (le m e) h) (least m e)
]

oldest-In :
    (j : ReflectionJob) (js : List ReflectionJob)
    → oldest js ≡ some j
    → In j js × All (λ k. j.created_at ≤ k.created_at) js
unfolding oldest
oldest-In j [] h = cc
oldest-In j (k ∷ js) h = elim (older-some k j (oldest js) h) [
  | inl (e, le) ↦ (
    inl e,
    subst (λ (m : ReflectionJob). All (λ i. m.created_at ≤ i.created_at) (k ∷ js)) (sym e)
        (le_refl k.created_at, first k js (λ m q. (oldest-In m js q).1) le),
  )
  | inr (e, le) ↦ let (i, a) = oldest-In j js e in (inr i, (le, a))
]

-- A claim of `old` out of a table, as the leased row and the table after it.
pub record Took (may : ReflectionJob → Bool) (until : ℕ) (rows : Table) (old job : ReflectionJob)
    (after : Table) : Type 0 where
  pub stored : In old rows
  pub allowed : may old ≡ true
  pub first : (k : ReflectionJob) → In k rows → may k ≡ true → old.created_at ≤ k.created_at
  pub result : job ≡ leased until old
  pub table : after ≡ update (λ j. str_eq j.id old.id) (leased until) rows

take_lease-Took :
    (may : ReflectionJob → Bool) (until : ℕ) (rows : Table) (o : Option ReflectionJob)
    (job : ReflectionJob)
    → oldest (filter may rows) ≡ o
    → (take_lease o until rows).0 ≡ some job
    → (old : ReflectionJob) × Took may until rows old job (take_lease o until rows).1
unfolding take_lease
take_lease-Took may until rows none job e h = cc
take_lease-Took may until rows (some old) job e h =
    let (i, least) = oldest-In old (filter may rows) e in
    let (stored, allowed) = In-filter may old rows i in
    (
      old,
      record {
        stored = stored;
        allowed = allowed;
        first = λ k ik mk. All-In _ k (filter may rows) least (filter-In may k rows ik mk);
        result = cc;
        table = refl;
      },
    )

-- A claim returns the oldest of the rows that it may take, with its lease and one more attempt, and
-- writes that to the table; no row with another id changes.
pub claim_next-oldest :
    (settings : Settings) (locked : String → Bool) (lease : Option ℕ) (now : ℕ) (rows : Table)
    (job : ReflectionJob)
    → (claim_next settings locked lease now rows).0 ≡ some job
    → (old : ReflectionJob) × Took
        (claimable locked now settings.worker_max_attempts)
        (now + lease_length lease settings.worker_lease_seconds)
        rows
        old
        job
        (claim_next settings locked lease now rows).1
unfolding claim_next
claim_next-oldest settings locked lease now rows job h = take_lease-Took _ _ rows _ job refl h

take_lease-none :
    (until : ℕ) (rows : Table) (o : Option ReflectionJob)
    → take_lease o until rows ≡ (none, rows)
    → o ≡ none
unfolding take_lease
take_lease-none until rows none h = refl
take_lease-none until rows (some j) h = ground arith

take_lease-idle :
    (until : ℕ) (rows : Table) (o : Option ReflectionJob)
    → (take_lease o until rows).0 ≡ none
    → (take_lease o until rows).1 ≡ rows
unfolding take_lease
take_lease-idle until rows none h = refl
take_lease-idle until rows (some j) h = cc

pub claim_next-idle :
    (settings : Settings) (locked : String → Bool) (lease : Option ℕ) (now : ℕ) (rows : Table)
    → (claim_next settings locked lease now rows).0 ≡ none
    → (claim_next settings locked lease now rows).1 ≡ rows
unfolding claim_next
claim_next-idle settings locked lease now rows h = take_lease-idle _ rows _ h

filter-nil :
    (p : ReflectionJob → Bool) (rows : Table)
    → ((k : ReflectionJob) → In k rows → p k ≡ false)
    → filter p rows ≡ []
filter-nil p [] h = refl
filter-nil p (j ∷ rows) h = rw (h j (inl refl)) (filter-nil p rows (λ k i. h k (inr i)))

not-In-filter :
    (p : ReflectionJob → Bool) (rows : Table) (k : ReflectionJob)
    → filter p rows ≡ []
    → In k rows
    → p k ≡ false
not-In-filter p rows k e i = elim (Bool-cases (p k)) [
  | inl t ↦ absurd (subst (In k) e (filter-In p k rows i t))
  | inr f ↦ f
]

-- A claim finds nothing, and leaves the table as it was, exactly when no row may be taken.
pub claim_next-none :
    (settings : Settings) (locked : String → Bool) (lease : Option ℕ) (now : ℕ) (rows : Table)
    → (claim_next settings locked lease now rows ≡ (none, rows)) ↔ (
        (k : ReflectionJob)
        → In k rows
        → claimable locked now settings.worker_max_attempts k ≡ false)
unfolding claim_next oldest
claim_next-none settings locked lease now rows = (
  λ e k i. not-In-filter _ rows k (oldest-none _ (take_lease-none _ rows _ e)) i,
  λ h. rw (filter-nil (claimable locked now settings.worker_max_attempts) rows h) refl,
)

-- A row that was given the lease cannot be taken while the lease runs.
leased-busy :
    (locked : String → Bool) (now until max : ℕ) (j : ReflectionJob)
    → now ≤ until
    → claimable locked now max (leased until j) ≡ false
unfolding claimable leased
leased-busy locked now until max j h = ground arith

update-busy :
    (locked : String → Bool) (now until max : ℕ) (rows : Table) (id : String) (k : ReflectionJob)
    → now ≤ until
    → In k (update (λ j. str_eq j.id id) (leased until) rows)
    → claimable locked now max k ≡ true
    → k.id ≢ id
unfolding leased
update-busy locked now until max rows id k h i may same =
    let (j, _, e) = In-map _ k rows i in
    ground (arith, str_eq_iff j.id id, leased-busy locked now until max j h)

-- A claim at a time up to the end of the lease that an earlier claim took, on the table that it left,
-- takes another job, whichever rows are locked and however long its own lease is.
pub claim_next-exclusive :
    (settings : Settings) (locked locked' : String → Bool) (lease lease' : Option ℕ) (now now' : ℕ)
    (rows : Table) (a b : ReflectionJob)
    → (claim_next settings locked lease now rows).0 ≡ some a
    → now' ≤ now + lease_length lease settings.worker_lease_seconds
    → (claim_next settings locked' lease' now' (claim_next settings locked lease now rows).1).0
      ≡ some b
    → b.id ≢ a.id
unfolding leased
claim_next-exclusive settings locked locked' lease lease' now now' rows a b ha soon hb same =
    let (old, t) = claim_next-oldest settings locked lease now rows a ha in
    let (next, u) = claim_next-oldest settings locked' lease' now' _ b hb in
    update-busy locked' now' _ settings.worker_max_attempts rows old.id next soon
      (subst (In next) t.table u.stored) u.allowed
      (sym (ap (λ j. j.id) u.result) ∙ same ∙ ap (λ j. j.id) t.result)
