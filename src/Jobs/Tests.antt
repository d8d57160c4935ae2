-- ===== src/Jobs/Tests.antt =====
-- Job tables and workers on which the theorems of Jobs are tried.
use my_palace.Common.{
  leb, if◌then◌else◌, ◌+◌, ℕ, ◌*◌, ◌≤◌, ◌≡◌, ◌≢◌, refl, sym, ap, inl, inr, Bool, false, String,
  none, some, List, [], ◌∷◌, subst, In, arith,
}
use my_palace.Jobs.{pending, failed, ReflectionJob, Table, Settings, claim_next}
use my_palace.Jobs.Claim.{claim_next-exclusive}
use my_palace.Jobs.Runner.{value, raised, Handler, Turn, run}
use my_palace.Jobs.Runner.Budget.{run_bounded}
use my_palace.Jobs.World.{World, elapsed, Reach, here, next}
use my_palace.Jobs.World.Stuck.{IsStuck, abandoned_forever, late_failure_overwrites}

abbrev two_tries : Settings
two_tries = record { worker_lease_seconds = 60; worker_max_attempts = 2 }

abbrev one_try : Settings
one_try = record { worker_lease_seconds = 60; worker_max_attempts = 1 }

abbrev job : String → ℕ → ReflectionJob
job id created_at = record {
  id = id;
  tenant_id = "acme";
  kind = "reflect";
  user_id = "u1";
  status = pending;
  payload_json = none;
  result_json = none;
  error = none;
  created_at = created_at;
  completed_at = none;
  leased_until = none;
  attempts = 0;
}

-- The younger of the two jobs stands first.
abbrev two_jobs : Table
two_jobs = job "b" 20 ∷ job "a" 10 ∷ []

abbrev unlocked : String → Bool
unlocked id = false

abbrev first_taken : ReflectionJob
first_taken = record (job "a" 10) { leased_until = some 160; attempts = 1 }

abbrev second_taken : ReflectionJob
second_taken = record (job "b" 20) { leased_until = some 161; attempts = 1 }

claim_next-exclusive_example : second_taken.id ≢ first_taken.id
unfolding claim_next
claim_next-exclusive_example =
    claim_next-exclusive two_tries unlocked unlocked none none 100 101 two_jobs first_taken
      second_taken refl (omega arith) refl

abbrev echo : Handler
echo payload tenant call = value "{}"

-- A handler that raises at its first call.
abbrev flaky : Handler
flaky payload tenant call = if leb call 1 then raised "timeout" else value "{}"

abbrev turn : ℕ → ℕ → Table → Turn
turn now call arrived = record {
  locked = unlocked;
  now = now;
  later = now + 1;
  call = call;
  arrived = arrived;
}

abbrev turns : List Turn
turns = turn 100 1 [] ∷ turn 102 2 (job "c" 101 ∷ []) ∷ turn 200 3 [] ∷ []

run_bounded_example : (run two_tries (("reflect", flaky) ∷ []) turns two_jobs).0 ≤ 2 * (2 + 1)
run_bounded_example = run_bounded two_tries (("reflect", flaky) ∷ []) turns two_jobs

abbrev idle : World
idle = record { rows = job "a" 10 ∷ []; now = 100; running = []; tasks = [] }

abbrev busy : World
busy = record { rows = first_taken ∷ []; now = 100; running = first_taken ∷ []; tasks = [] }

abbrev abandoned : World
abandoned = record { rows = first_taken ∷ []; now = 100; running = []; tasks = [] }

-- The first worker is slow, and its job is claimed again after the lease.
abbrev claimed_again : ReflectionJob
claimed_again = record (job "a" 10) { leased_until = some 221; attempts = 2 }

late_failure_overwrites_example :
    (u : World) × Reach two_tries idle u
    × ((row : ReflectionJob) × In row u.rows
        × (row.id ≡ "a")
        × (row.status ≡ failed)
        × (row.error ≡ some "timeout")
        × (row.result_json ≡ some "{}"))
unfolding claim_next
late_failure_overwrites_example =
    late_failure_overwrites two_tries idle first_taken claimed_again unlocked unlocked 61 "{}"
      "timeout" refl refl refl refl (omega arith)

abbrev later : World
later = record { rows = first_taken ∷ []; now = 105; running = []; tasks = [] }

waited : Reach one_try abandoned later
waited = next here (elapsed 5)

abandoned-tried :
    (j : ReflectionJob) → In j (first_taken ∷ []) → (j.status ≡ pending) × (1 ≤ j.attempts)
abandoned-tried j (inl p) = (
  ap (λ (x : ReflectionJob). x.status) p,
  subst (λ (x : ReflectionJob). 1 ≤ x.attempts) (sym p) (omega arith),
)
abandoned-tried j (inr w) = elim w [ ]

abandoned-IsStuck : IsStuck one_try "a" abandoned
abandoned-IsStuck = (
  ((first_taken, inl refl, refl), λ j i e. abandoned-tried j i),
  λ r i. absurd i,
  λ t i. absurd i,
)

abandoned_forever_example : IsStuck one_try "a" later
abandoned_forever_example = abandoned_forever one_try "a" waited abandoned-IsStuck
