-- ===== src/Jobs/Runner.antt =====
-- mypalace/workers/runner.py and the registry of mypalace/workers/handlers.py: one turn of a worker.
-- What a handler does besides its result is not modelled here.
pub mod Budget
use my_palace.Common.{
  ℕ, zero, suc, ◌+◌, ◌≤◌, ◌<◌, ◌≡◌, ◌≢◌, refl, sym, ap, ◌∙◌, ◌⊎◌, inl, inr, Bool, true, false,
  String, Option, none, some, List, [], ◌∷◌, ◌++◌, map, ltb, leb, str_eq, str_eq_iff, str_eq_refl,
  if◌then◌else◌, arith, In, In-map, map-In, All, Option-cases, Bool-cases, or_default,
}
use my_palace.Common.Dict
use my_palace.Common.Dict.{Dict}
use my_palace.Jobs.{
  Status, pending, completed, failed, is_pending, ReflectionJob, Table, claimable, update, leased,
  lease_length, Settings, claim_next, names, done_with, failed_with, released_with, complete_job,
  fail_job,
}
use my_palace.Jobs.Claim.{Took, claim_next-oldest}

-- What a handler comes to: the JSON text of what it returned, or the repr of what it raised.
pub data Returned : Type 0 where
  value : String → Returned
  raised : String → Returned

-- A handler, of the payload, the tenant and the number of the call: it calls services and may end
-- differently each time.
abbrev pub Handler : Type 0
Handler = Option String → String → ℕ → Returned

abbrev pub Registry : Type 0
Registry = Dict Handler

-- register_handler: the last writer wins.
pub register_handler : String → Handler → Registry → Registry
register_handler kind handler registry = Dict.put kind handler registry

unfoldable pub finish : Settings → ReflectionJob → Returned → ℕ → Table → Table
finish settings job (value result) now rows = complete_job job.id result job.tenant_id now rows
finish settings job (raised e) now rows =
    fail_job job.id e job.tenant_id (leb settings.worker_max_attempts job.attempts) now rows

unfoldable pub run_handler : Settings → ReflectionJob → Option Handler → ℕ → ℕ → Table → Table
unfolding finish
run_handler settings job none call now rows =
    fail_job job.id "unknown job kind" job.tenant_id true now rows
run_handler settings job (some handler) call now rows =
    finish settings job (handler job.payload_json job.tenant_id call) now rows

attempt : Settings → Registry → Option ReflectionJob → ℕ → ℕ → Table → Bool × Table
unfolding run_handler
attempt settings registry none call later rows = (false, rows)
attempt settings registry (some job) call later rows =
    (true, run_handler settings job (Dict.get job.kind registry) call later rows)

-- One turn of a worker: the rows that other transactions lock, the times of the claim and of the
-- handler's end, the number of the handler's call, and what requests have put in the table before it.
pub record Turn : Type 0 where
  pub locked : String → Bool
  pub now : ℕ
  pub later : ℕ
  pub call : ℕ
  pub arrived : Table

-- process_one
pub process_one : Settings → Registry → Turn → Table → Bool × Table
unfolding attempt
process_one settings registry turn rows =
    let (job, rows') = claim_next settings turn.locked none turn.now rows in
    attempt settings registry job turn.call turn.later rows'

-- The last handler registered for a kind is the one that runs, and other kinds keep theirs.
pub register_handler-last :
    (kind other : String) (handler : Handler) (registry : Registry)
    → (Dict.get kind (register_handler kind handler registry) ≡ some handler)
      × (kind ≢ other
          → Dict.get other (register_handler kind handler registry) ≡ Dict.get other registry)
unfolding register_handler
register_handler-last kind other handler registry =
    (rw Dict.get-put (rw str_eq_refl), λ h. rw Dict.get-put (ground (arith, str_eq_iff kind other)))

-- run: one worker's turns, with the number of those that had a job.
pub run : Settings → Registry → List Turn → Table → ℕ × Table
unfolding process_one
run settings registry [] rows = (0, rows)
run settings registry (turn ∷ turns) rows =
    let (did_work, rows') = process_one settings registry turn (rows ++ turn.arrived) in
    let (n, rows'') = run settings registry turns rows' in (if did_work then suc n else n, rows'')
