-- ===== src/Jobs/Runner/Budget.antt =====
-- A worker's turns are bounded: every turn that has a job uses up one attempt of it.
use my_palace.Common.{
  ◌++◌, ℕ, ◌+◌, ◌-◌, ◌*◌, ◌≤◌, ◌<◌, ◌≡◌, inl, inr, Bool, true, false, String, Option, none, some,
  List, [], ◌∷◌, str_eq, str_eq_refl, if◌then◌else◌, arith, In, Option-cases, length, subst,
}
use my_palace.Common.Dict
use my_palace.Jobs.{
  is_pending, ReflectionJob, Table, claimable, update, leased, Settings, claim_next, names,
  done_with, failed_with, released_with, complete_job, fail_job,
}
use my_palace.Jobs.Claim.{claim_next-oldest, claim_next-idle}
use my_palace.Jobs.Runner.{
  Returned, value, raised, Handler, Registry, Turn, finish, run_handler, attempt, process_one, run,
}

-- The attempts that a row has left.
abbrev pub left : ℕ → ReflectionJob → ℕ
left max j = if is_pending j.status then max - j.attempts else 0

abbrev pub budget : ℕ → Table → ℕ
budget max [] = 0
budget max (j ∷ rows) = left max j + budget max rows

left-le : (max : ℕ) (j : ReflectionJob) → left max j ≤ max
left-le max j = ground arith

update-budget :
    (max : ℕ) (p : ReflectionJob → Bool) (f : ReflectionJob → ReflectionJob) (rows : Table)
    → ((j : ReflectionJob) → left max (f j) ≤ left max j)
    → budget max (update p f rows) ≤ budget max rows
update-budget max p f [] h = omega arith
update-budget max p f (j ∷ rows) h = ground (arith, h j, update-budget max p f rows h)

-- One row whose share falls brings the whole down.
update-budget_lt :
    (max : ℕ) (p : ReflectionJob → Bool) (f : ReflectionJob → ReflectionJob) (rows : Table)
    (k : ReflectionJob)
    → ((j : ReflectionJob) → left max (f j) ≤ left max j)
    → In k rows
    → p k ≡ true
    → left max (f k) < left max k
    → budget max (update p f rows) < budget max rows
update-budget_lt max p f [] k h i hit less = absurd i
update-budget_lt max p f (j ∷ rows) k h (inl e) hit less =
    subst (λ (m : ReflectionJob). budget max (update p f (m ∷ rows)) < budget max (m ∷ rows)) e
      (rw hit (omega (arith, less, update-budget max p f rows h)))
update-budget_lt max p f (j ∷ rows) k h (inr i) hit less =
    ground (arith, h j, update-budget_lt max p f rows k h i hit less)

leased-left : (max until : ℕ) (j : ReflectionJob) → left max (leased until j) ≤ left max j
unfolding leased
leased-left max until j = ground arith

leased-left_lt :
    (locked : String → Bool) (now max until : ℕ) (j : ReflectionJob)
    → claimable locked now max j ≡ true
    → left max (leased until j) < left max j
unfolding leased claimable
leased-left_lt locked now max until j h = ground arith

ended-left :
    (max now : ℕ) (text : String) (j : ReflectionJob)
    → (left max (done_with text now j) ≤ left max j)
      × (left max (failed_with text now j) ≤ left max j)
      × (left max (released_with text j) ≤ left max j)
unfolding done_with failed_with released_with
ended-left max now text j = ground arith

fail_job-budget :
    (max : ℕ) (id error tenant : String) (permanent : Bool) (now : ℕ) (rows : Table)
    → budget max (fail_job id error tenant permanent now rows) ≤ budget max rows
unfolding fail_job
fail_job-budget max id error tenant true now rows =
    update-budget max (names id tenant) (failed_with error now) rows
      (λ j. (ended-left max now error j).1)
fail_job-budget max id error tenant false now rows =
    update-budget max (names id tenant) (released_with error) rows
      (λ j. (ended-left max now error j).2)

finish-budget :
    (max : ℕ) (settings : Settings) (job : ReflectionJob) (r : Returned) (now : ℕ) (rows : Table)
    → budget max (finish settings job r now rows) ≤ budget max rows
unfolding finish complete_job
finish-budget max settings job (value result) now rows =
    update-budget max (names job.id job.tenant_id) (done_with result now) rows
      (λ j. (ended-left max now result j).0)
finish-budget max settings job (raised e) now rows =
    fail_job-budget max job.id e job.tenant_id _ now rows

run_handler-budget :
    (max : ℕ) (settings : Settings) (job : ReflectionJob) (h : Option Handler) (call now : ℕ)
    (rows : Table)
    → budget max (run_handler settings job h call now rows) ≤ budget max rows
unfolding run_handler
run_handler-budget max settings job none call now rows =
    fail_job-budget max job.id _ job.tenant_id true now rows
run_handler-budget max settings job (some h) call now rows =
    finish-budget max settings job _ now rows

append-budget :
    (max : ℕ) (rows new : Table) → budget max (rows ++ new) ≡ budget max rows + budget max new
append-budget max [] new = omega arith
append-budget max (j ∷ rows) new = omega (arith, append-budget max rows new)

-- The number of the rows that arrive during a run.
abbrev pub arrivals : List Turn → ℕ
arrivals [] = 0
arrivals (turn ∷ turns) = length turn.arrived + arrivals turns

module _ (settings : Settings) where
  abbrev limit : ℕ
  limit = settings.worker_max_attempts

  budget-le : (rows : Table) → budget limit rows ≤ limit * length rows
  budget-le [] = omega arith
  budget-le (j ∷ rows) = omega (arith, left-le limit j, budget-le rows)

  claim_next-budget :
      (locked : String → Bool) (lease : Option ℕ) (now : ℕ) (rows : Table) (job : ReflectionJob)
      → (claim_next settings locked lease now rows).0 ≡ some job
      → budget limit (claim_next settings locked lease now rows).1 < budget limit rows
  claim_next-budget locked lease now rows job h =
      let (old, t) = claim_next-oldest settings locked lease now rows job h in
      rw t.table (
        update-budget_lt limit (λ j. str_eq j.id old.id) (leased _) rows old (leased-left limit _)
          t.stored (str_eq_refl old.id) (leased-left_lt locked now limit _ old t.allowed))

  process_one-budget :
      (registry : Registry) (turn : Turn) (rows : Table)
      → let (did_work, rows') = process_one settings registry turn rows in
        budget limit rows' + (if did_work then 1 else 0) ≤ budget limit rows
  unfolding process_one attempt
  process_one-budget registry turn rows =
      elim (Option-cases (claim_next settings turn.locked none turn.now rows).0) [
        | inl e ↦ rw (e, claim_next-idle settings turn.locked none turn.now rows e) (omega arith)
        | inr (job, e) ↦ rw e (
            omega (
              arith,
              claim_next-budget turn.locked none turn.now rows job e,
              run_handler-budget limit settings job (Dict.get job.kind registry) turn.call
                  turn.later (claim_next settings turn.locked none turn.now rows).1,
            ))
      ]

  run-budget :
      (registry : Registry) (turns : List Turn) (rows : Table)
      → (run settings registry turns rows).0 ≤ budget limit rows + limit * arrivals turns
  unfolding run
  run-budget registry [] rows = omega arith
  run-budget registry (turn ∷ turns) rows = ground (
    arith,
    append-budget limit rows turn.arrived,
    budget-le turn.arrived,
    process_one-budget registry turn (rows ++ turn.arrived),
    run-budget registry turns (process_one settings registry turn (rows ++ turn.arrived)).1,
  )

  -- However its handlers end, each time anew, and however often it polls, a worker that has the table
  -- to itself but for the rows that arrive runs at most `max_attempts` jobs for each row that the
  -- table had or that arrived.
  pub run_bounded :
      (registry : Registry) (turns : List Turn) (rows : Table)
      → (run settings registry turns rows).0 ≤ limit * (length rows + arrivals turns)
  run_bounded registry turns rows = omega (arith, run-budget registry turns rows, budget-le rows)
