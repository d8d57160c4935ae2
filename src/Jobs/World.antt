-- ===== src/Jobs/World.antt =====
-- Several workers over one job table, in any order of their steps. A worker may die between its
-- claim and the end of its handler.
pub mod Keyed
pub mod Attempts
pub mod Stuck
use my_palace.Common.{
  ℕ, ◌+◌, ◌≡◌, Bool, true, not, ◌&&◌, String, some, none, List, [], ◌∷◌, ◌++◌, any, str_eq,
}
use my_palace.Jobs.{
  ReflectionJob, Table, Settings, enqueue, create, complete, fail, claim_next, extend_lease,
}
use my_palace.Jobs.Runner.{Returned, value, raised, finish, run_handler}

-- run_async, where its coroutine ends: the JSON of the result or the error goes to the row that it
-- created.
pub end_task : ReflectionJob → Returned → ℕ → Table → Table
end_task task (value result) now rows = complete task.id result task.tenant_id now rows
end_task task (raised e) now rows = fail task.id e task.tenant_id now rows

-- The table, the time, the jobs that some worker runs, as the rows that it claimed, and the tasks of
-- requests, as the rows that they created.
pub record World : Type 0 where
  pub rows : Table
  pub now : ℕ
  pub running : List ReflectionJob
  pub tasks : List ReflectionJob

-- No row and no task has the id.
abbrev pub is_new : String → World → Bool
is_new id w =
    not (any (λ (j : ReflectionJob). str_eq j.id id) w.rows)
    && not (any (λ (j : ReflectionJob). str_eq j.id id) w.tasks)

pub data Step (settings : Settings) (w : World) : World → Type 0 where
  -- A request puts a job in the table, under an id that is new.
  enqueued :
      (id kind user_id payload tenant_id : String)
      → is_new id w ≡ true
      → Step settings w
          (record w { rows = (enqueue id kind user_id payload tenant_id w.now w.rows).1 })
  -- A request creates a row and starts a task of its own process that is to end it.
  requested :
      (id kind user_id tenant_id : String)
      → is_new id w ≡ true
      → Step settings w (record w {
        rows = (create id kind user_id tenant_id w.now w.rows).1;
        tasks = (create id kind user_id tenant_id w.now w.rows).0 ∷ w.tasks;
      })
  task_ended :
      (before after : List ReflectionJob) (task : ReflectionJob) (r : Returned)
      → w.tasks ≡ before ++ task ∷ after
      → Step settings w (record w { rows = end_task task r w.now w.rows; tasks = before ++ after })
  task_died :
      (before after : List ReflectionJob) (task : ReflectionJob)
      → w.tasks ≡ before ++ task ∷ after
      → Step settings w (record w { tasks = before ++ after })
  elapsed : (n : ℕ) → Step settings w (record w { now = w.now + n })
  claimed :
      (locked : String → Bool) (job : ReflectionJob)
      → (claim_next settings locked none w.now w.rows).0 ≡ some job
      → Step settings w (record w {
        rows = (claim_next settings locked none w.now w.rows).1;
        running = job ∷ w.running;
      })
  -- A long handler asks for more time.
  extended :
      (before after : List ReflectionJob) (job : ReflectionJob) (additional : ℕ)
      → w.running ≡ before ++ job ∷ after
      → Step settings w (record w { rows = (extend_lease job.id additional w.now w.rows).1 })
  finished :
      (before after : List ReflectionJob) (job : ReflectionJob) (r : Returned)
      → w.running ≡ before ++ job ∷ after
      → Step settings w
          (record w { rows = finish settings job r w.now w.rows; running = before ++ after })
  -- A worker that has no handler for the kind.
  unknown :
      (before after : List ReflectionJob) (job : ReflectionJob)
      → w.running ≡ before ++ job ∷ after
      → Step settings w (record w {
        rows = run_handler settings job none 0 w.now w.rows;
        running = before ++ after;
      })
  died :
      (before after : List ReflectionJob) (job : ReflectionJob)
      → w.running ≡ before ++ job ∷ after
      → Step settings w (record w { running = before ++ after })

pub data Reach (settings : Settings) (w : World) : World → Type 0 where
  here : Reach settings w w
  next : {u v : World} → Reach settings w u → Step settings u v → Reach settings w v
