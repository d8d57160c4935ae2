-- ===== src/Jobs.antt =====
-- mypalace/workers/queue.py and mypalace/job_service.py: the job table and the statements on it. A
-- table is the list of its rows and a statement the function of the rows that it denotes. Times are
-- seconds. Metrics and logging are left out.
pub mod Claim
pub mod Runner
pub mod World
pub mod Tests
use my_palace.Common.{
  ℕ, zero, suc, ◌+◌, ◌≡◌, Bool, true, false, not, ◌&&◌, ◌||◌, String, Option, none, some, List, [],
  ◌∷◌, ◌++◌, map, ltb, leb, filter, find?, any, str_eq, if◌then◌else◌,
}

pub data Status : Type 0 where
  pending completed failed : Status

abbrev pub is_pending : Status → Bool
is_pending pending = true
is_pending _ = false

-- A row of `reflection_jobs`. Payloads and results are JSON texts.
pub record ReflectionJob : Type 0 where
  pub id : String
  pub tenant_id : String
  pub kind : String
  pub user_id : String
  pub status : Status
  pub payload_json : Option String
  pub result_json : Option String
  pub error : Option String
  pub created_at : ℕ
  pub completed_at : Option ℕ
  pub leased_until : Option ℕ
  pub attempts : ℕ

abbrev pub Table : Type 0
Table = List ReflectionJob

-- enqueue; JobService.create is the same with no payload
pub new_job : String → String → String → String → Option String → ℕ → ReflectionJob
new_job id kind user_id tenant_id payload now = record {
  id = id;
  tenant_id = tenant_id;
  kind = kind;
  user_id = user_id;
  status = pending;
  payload_json = payload;
  result_json = none;
  error = none;
  created_at = now;
  completed_at = none;
  leased_until = none;
  attempts = 0;
}

pub enqueue : String → String → String → String → String → ℕ → Table → ReflectionJob × Table
unfolding new_job
enqueue id kind user_id payload tenant_id now rows =
    let job = new_job id kind user_id tenant_id (some payload) now in (job, rows ++ job ∷ [])

pub create : String → String → String → String → ℕ → Table → ReflectionJob × Table
unfolding new_job
create id kind user_id tenant_id now rows =
    let job = new_job id kind user_id tenant_id none now in (job, rows ++ job ∷ [])

-- JobService.get
pub get : String → String → Table → Option ReflectionJob
get job_id tenant_id = find? λ j. str_eq j.id job_id && str_eq j.tenant_id tenant_id

-- `leased_until IS NULL OR leased_until < :now`
pub lease_over : ℕ → Option ℕ → Bool
lease_over now none = true
lease_over now (some t) = ltb t now

-- The WHERE clause of the claim. Rows that another transaction has locked are skipped.
pub claimable : (String → Bool) → ℕ → ℕ → ReflectionJob → Bool
unfolding lease_over
claimable locked now max_attempts j =
    is_pending j.status
    && lease_over now j.leased_until
    && ltb j.attempts max_attempts
    && not (locked j.id)

older : ReflectionJob → Option ReflectionJob → Option ReflectionJob
older j none = some j
older j (some k) = if leb j.created_at k.created_at then some j else some k

-- `ORDER BY created_at LIMIT 1`
pub oldest : List ReflectionJob → Option ReflectionJob
unfolding older
oldest [] = none
oldest (j ∷ js) = older j (oldest js)

-- `UPDATE … SET … WHERE p`
abbrev pub update : (ReflectionJob → Bool) → (ReflectionJob → ReflectionJob) → Table → Table
update p f = map λ j. if p j then f j else j

pub leased : ℕ → ReflectionJob → ReflectionJob
leased until j = record j { leased_until = some until; attempts = j.attempts + 1 }

pub take_lease : Option ReflectionJob → ℕ → Table → Option ReflectionJob × Table
unfolding leased
take_lease none until rows = (none, rows)
take_lease (some job) until rows =
    (some (leased until job), update (λ j. str_eq j.id job.id) (leased until) rows)

-- `lease_seconds or settings.worker_lease_seconds`
pub lease_length : Option ℕ → ℕ → ℕ
lease_length none default = default
lease_length (some zero) default = default
lease_length (some (suc n)) default = suc n

pub record Settings : Type 0 where
  pub worker_lease_seconds : ℕ
  pub worker_max_attempts : ℕ

pub claim_next : Settings → (String → Bool) → Option ℕ → ℕ → Table → Option ReflectionJob × Table
unfolding claimable oldest take_lease lease_length
claim_next settings locked lease_seconds now rows =
    take_lease (oldest (filter (claimable locked now settings.worker_max_attempts) rows))
      (now + lease_length lease_seconds settings.worker_lease_seconds) rows

-- `WHERE id = :id AND status = 'pending'`
abbrev pub is_open : String → ReflectionJob → Bool
is_open job_id j = str_eq j.id job_id && is_pending j.status

abbrev pub with_lease : ℕ → ReflectionJob → ReflectionJob
with_lease until j = record j { leased_until = some until }

pub extend_lease : String → ℕ → ℕ → Table → Bool × Table
extend_lease job_id additional_seconds now rows = (
  any (is_open job_id) rows,
  update (is_open job_id) (with_lease (now + additional_seconds)) rows,
)

abbrev pub names : String → String → ReflectionJob → Bool
names job_id tenant_id j = str_eq j.id job_id && str_eq j.tenant_id tenant_id

pub done_with : String → ℕ → ReflectionJob → ReflectionJob
done_with result now j = record j {
  status = completed;
  result_json = some result;
  completed_at = some now;
  leased_until = none;
}

pub failed_with : String → ℕ → ReflectionJob → ReflectionJob
failed_with error now j = record j {
  status = failed;
  error = some error;
  completed_at = some now;
  leased_until = none;
}

pub released_with : String → ReflectionJob → ReflectionJob
released_with error j = record j { error = some error; leased_until = none }

pub complete_job : String → String → String → ℕ → Table → Table
unfolding done_with
complete_job job_id result tenant_id now = update (names job_id tenant_id) (done_with result now)

pub fail_job : String → String → String → Bool → ℕ → Table → Table
unfolding failed_with released_with
fail_job job_id error tenant_id permanent now =
    if permanent
    then update (names job_id tenant_id) (failed_with error now)
    else update (names job_id tenant_id) (released_with error)

-- JobService.complete and JobService.fail, on the row that `get` finds: they leave the lease alone.
pub complete : String → String → String → ℕ → Table → Table
complete job_id result tenant_id now =
    update (names job_id tenant_id)
      λ j. record j { status = completed; result_json = some result; completed_at = some now }

pub fail : String → String → String → ℕ → Table → Table
fail job_id error tenant_id now =
    update (names job_id tenant_id)
      λ j. record j { status = failed; error = some error; completed_at = some now }
