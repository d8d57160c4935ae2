-- ===== src/Jobs/World/Attempts.antt =====
-- No job is tried more often than the settings allow.
use my_palace.Common.{
  List, ap, ◌∙◌, In-map, In-append_left, In-append_right, In-append_cases, if◌then◌else◌, ◌⊎◌,
  subst, sym, ℕ, ◌+◌, ◌≤◌, ◌≡◌, refl, Bool, true, false, String, none, some, [], ◌∷◌, ◌++◌, str_eq,
  str_eq_iff, arith, In, All, Bool-cases, leb, inl, inr,
}
use my_palace.Jobs.{
  pending, ReflectionJob, Table, Settings, claimable, update, leased, enqueue, new_job, claim_next,
  extend_lease, lease_length, names, is_open, with_lease, done_with, failed_with, released_with,
  complete_job, fail_job, create, complete, fail,
}
use my_palace.Jobs.Claim.{claim_next-oldest}
use my_palace.Jobs.Runner.{Returned, value, raised, finish, run_handler}
use my_palace.Jobs.World.Keyed.{
  IsKeyed, has_id, not_In, IsKeyed-unique, update-IsKeyed, append-IsKeyed,
}
use my_palace.Jobs.World.{
  World, Step, enqueued, elapsed, claimed, extended, finished, died, requested, task_ended,
  task_died, unknown, end_task,
}

-- A row of the queue, which has a payload, holds no lease once it is done with; none was tried too
-- often.
pub record IsSound (max : ℕ) (j : ReflectionJob) : Type 0 where
  pub tried : j.attempts ≤ max
  pub ended : (j.status ≡ pending) ⊎ (j.leased_until ≡ none) ⊎ (j.payload_json ≡ none)

abbrev pub AllSound : ℕ → Table → Type 0
AllSound max = All (IsSound max)

-- The rows of tasks have no payload.
abbrev pub AllTasked : List ReflectionJob → Table → Type 0
AllTasked tasks rows =
    (t : ReflectionJob) (j : ReflectionJob)
    → In t tasks
    → In j rows
    → j.id ≡ t.id
    → j.payload_json ≡ none

-- What holds of a world: its ids are distinct and its rows sound.
pub record IsSafe (max : ℕ) (w : World) : Type 0 where
  pub keyed : IsKeyed w.rows
  pub sound : AllSound max w.rows
  pub tasked : AllTasked w.tasks w.rows

update-AllSound :
    (max : ℕ) (p : ReflectionJob → Bool) (f : ReflectionJob → ReflectionJob) (rows : Table)
    → ((j : ReflectionJob) → In j rows → p j ≡ true → IsSound max j → IsSound max (f j))
    → AllSound max rows
    → AllSound max (update p f rows)
update-AllSound max p f [] h s = tt
update-AllSound max p f (j ∷ rows) h s = elim (Bool-cases (p j)) [
  | inl e ↦ rw e (h j (inl refl) e s.0, update-AllSound max p f rows (λ k i. h k (inr i)) s.1)
  | inr e ↦ rw e (s.0, update-AllSound max p f rows (λ k i. h k (inr i)) s.1)
]

append-AllSound :
    (max : ℕ) (rows : Table) (j : ReflectionJob)
    → AllSound max rows
    → IsSound max j
    → AllSound max (rows ++ j ∷ [])
append-AllSound max [] j s h = (h, tt)
append-AllSound max (r ∷ rows) j s h = (s.0, append-AllSound max rows j s.1 h)

leased-IsSound :
    (locked : String → Bool) (now max until : ℕ) (j : ReflectionJob)
    → claimable locked now max j ≡ true
    → IsSound max (leased until j)
unfolding claimable leased
leased-IsSound locked now max until j h = record { tried = ground arith; ended = ground arith }

ended-IsSound :
    (max now : ℕ) (text : String) (j : ReflectionJob)
    → IsSound max j
    → IsSound max (done_with text now j)
      × IsSound max (failed_with text now j)
      × IsSound max (released_with text j)
unfolding done_with failed_with released_with
ended-IsSound max now text j s = (
  record { tried = s.tried; ended = inr (inl refl) },
  record { tried = s.tried; ended = inr (inl refl) },
  record { tried = s.tried; ended = inr (inl refl) },
)

update-AllTasked :
    (tasks : List ReflectionJob) (p : ReflectionJob → Bool) (f : ReflectionJob → ReflectionJob)
    (rows : Table)
    → ((j : ReflectionJob) → ((f j).id ≡ j.id) × ((f j).payload_json ≡ j.payload_json))
    → AllTasked tasks rows
    → AllTasked tasks (update p f rows)
update-AllTasked tasks p f rows same v t j it ij e =
    let (k, ik, q) = In-map (λ j. if p j then f j else j) j rows ij in
    elim (Bool-cases (p k)) [
      | inl hit ↦
          let moved : j ≡ f k = q ∙ rw hit refl in
          ap (λ (x : ReflectionJob). x.payload_json) moved
          ∙ (same k).1
          ∙ v t k it ik (sym (ap (λ (x : ReflectionJob). x.id) moved ∙ (same k).0) ∙ e)
      | inr miss ↦
          let stays : j ≡ k = q ∙ rw miss refl in
          ap (λ (x : ReflectionJob). x.payload_json) stays
          ∙ v t k it ik (sym (ap (λ (x : ReflectionJob). x.id) stays) ∙ e)
    ]

-- A statement that keeps ids, payloads and soundness keeps all that holds of a world.
update-IsSafe :
    (max : ℕ) (w : World) (p : ReflectionJob → Bool) (f : ReflectionJob → ReflectionJob)
    → ((j : ReflectionJob) → ((f j).id ≡ j.id) × ((f j).payload_json ≡ j.payload_json))
    → ((j : ReflectionJob) → In j w.rows → p j ≡ true → IsSound max j → IsSound max (f j))
    → IsSafe max w
    → IsSafe max (record w { rows = update p f w.rows })
update-IsSafe max w p f same sound v = record {
  keyed = update-IsKeyed p f (λ j. (same j).0) w.rows v.keyed;
  sound = update-AllSound max p f w.rows sound v.sound;
  tasked = update-AllTasked w.tasks p f w.rows same v.tasked;
}

fail_job-IsSafe :
    (max : ℕ) (w : World) (job : ReflectionJob) (e : String) (permanent : Bool)
    → IsSafe max w
    → IsSafe max (record w { rows = fail_job job.id e job.tenant_id permanent w.now w.rows })
unfolding fail_job failed_with released_with
fail_job-IsSafe max w job e true v =
    update-IsSafe max w (names job.id job.tenant_id) (failed_with e w.now) (λ j. (refl, refl))
      (λ j i hit s. (ended-IsSound max w.now e j s).1) v
fail_job-IsSafe max w job e false v =
    update-IsSafe max w (names job.id job.tenant_id) (released_with e) (λ j. (refl, refl))
      (λ j i hit s. (ended-IsSound max w.now e j s).2) v

finish-IsSafe :
    (settings : Settings) (max : ℕ) (w : World) (job : ReflectionJob) (r : Returned)
    → IsSafe max w
    → IsSafe max (record w { rows = finish settings job r w.now w.rows })
unfolding finish complete_job done_with
finish-IsSafe settings max w job (value result) v =
    update-IsSafe max w (names job.id job.tenant_id) (done_with result w.now) (λ j. (refl, refl))
      (λ j i hit s. (ended-IsSound max w.now result j s).0) v
finish-IsSafe settings max w job (raised e) v =
    fail_job-IsSafe max w job e (leb settings.worker_max_attempts job.attempts) v

-- A task's row has no payload.
task-payload :
    (max : ℕ) (w : World) (task j : ReflectionJob)
    → IsSafe max w
    → In task w.tasks
    → In j w.rows
    → names task.id task.tenant_id j ≡ true
    → j.payload_json ≡ none
task-payload max w task j v it i hit =
    v.tasked task j it i ((str_eq_iff j.id task.id).0 (ground arith))

end_task-IsSafe :
    (max : ℕ) (w : World) (task : ReflectionJob) (r : Returned)
    → In task w.tasks
    → IsSafe max w
    → IsSafe max (record w { rows = end_task task r w.now w.rows })
unfolding end_task complete fail
end_task-IsSafe max w task (value result) it v =
    update-IsSafe max w (names task.id task.tenant_id) _ (λ j. (refl, refl))
      (λ j i hit s. record {
        tried = s.tried;
        ended = inr (inr (task-payload max w task j v it i hit));
      })
      v
end_task-IsSafe max w task (raised e) it v =
    update-IsSafe max w (names task.id task.tenant_id) _ (λ j. (refl, refl))
      (λ j i hit s. record {
        tried = s.tried;
        ended = inr (inr (task-payload max w task j v it i hit));
      })
      v

claim-IsSafe :
    (settings : Settings) (w : World) (locked : String → Bool) (job : ReflectionJob)
    → (claim_next settings locked none w.now w.rows).0 ≡ some job
    → IsSafe settings.worker_max_attempts w
    → IsSafe settings.worker_max_attempts
        (record w { rows = (claim_next settings locked none w.now w.rows).1 })
unfolding leased
claim-IsSafe settings w locked job h v =
    let (old, t) = claim_next-oldest settings locked none w.now w.rows job h in
    let until = w.now + lease_length none settings.worker_lease_seconds in
    let hit = λ (j : ReflectionJob). str_eq j.id old.id in
    subst (λ (rows : Table). IsSafe settings.worker_max_attempts (record w { rows = rows }))
      (sym t.table)
      (update-IsSafe settings.worker_max_attempts w hit (leased until) (λ j. (refl, refl))
        (λ j i same s. leased-IsSound locked w.now settings.worker_max_attempts until j (
          subst
            (λ (k : ReflectionJob). claimable locked w.now settings.worker_max_attempts k ≡ true)
            (IsKeyed-unique w.rows old j v.keyed t.stored i (sym ((str_eq_iff j.id old.id).0 same)))
            t.allowed))
        v)

-- A row under a new id is no row of a task.
append-AllTasked :
    (tasks : List ReflectionJob) (rows : Table) (new : ReflectionJob)
    → has_id new.id tasks ≡ false
    → AllTasked tasks rows
    → AllTasked tasks (rows ++ new ∷ [])
append-AllTasked tasks rows new fresh v t j it ij e = elim (In-append_cases j rows (new ∷ []) ij) [
  | inl old ↦ v t j it old e
  | inr (inl q) ↦ cc (
    not_In t new.id tasks fresh it,
    (str_eq_iff t.id new.id).1 (sym e ∙ ap (λ (x : ReflectionJob). x.id) q),
  )
  | inr (inr n) ↦ absurd n
]

-- The row that a request creates with its task.
add_task :
    (tasks : List ReflectionJob) (rows : Table) (new : ReflectionJob)
    → has_id new.id rows ≡ false
    → new.payload_json ≡ none
    → AllTasked tasks (rows ++ new ∷ [])
    → AllTasked (new ∷ tasks) (rows ++ new ∷ [])
add_task tasks rows new fresh empty v t j (inr it) ij e = v t j it ij e
add_task tasks rows new fresh empty v t j (inl p) ij e =
    elim (In-append_cases j rows (new ∷ []) ij) [
      | inl old ↦ cc (
        not_In j new.id rows fresh old,
        (str_eq_iff j.id new.id).1 (e ∙ ap (λ (x : ReflectionJob). x.id) p),
      )
      | inr (inl q) ↦ ap (λ (x : ReflectionJob). x.payload_json) q ∙ empty
      | inr (inr n) ↦ absurd n
    ]

fewer_tasks :
    (before after : List ReflectionJob) (task : ReflectionJob) (tasks : List ReflectionJob)
    (rows : Table)
    → tasks ≡ before ++ task ∷ after
    → AllTasked tasks rows
    → AllTasked (before ++ after) rows
fewer_tasks before after task tasks rows e v t j it ij same =
    v t j
      (subst (In t) (sym e) (elim (In-append_cases t before after it) [
        | inl b ↦ In-append_left t before (task ∷ after) b
        | inr a ↦ In-append_right t before (task ∷ after) (inr a)
      ]))
      ij same

open_pending : (id : String) (j : ReflectionJob) → is_open id j ≡ true → j.status ≡ pending
open_pending id j h = ground arith

-- Every step of any worker or request keeps the ids distinct and every row sound.
pub Step-IsSafe :
    (settings : Settings) {w u : World}
    → Step settings w u
    → IsSafe settings.worker_max_attempts w
    → IsSafe settings.worker_max_attempts u
unfolding enqueue create new_job extend_lease run_handler
Step-IsSafe settings {w} (enqueued id kind user_id payload tenant_id fresh) v = record {
  keyed = append-IsKeyed w.rows _ (ground arith) v.keyed;
  sound =
      append-AllSound settings.worker_max_attempts w.rows _ v.sound
        (record { tried = omega arith; ended = inl refl });
  tasked = append-AllTasked w.tasks w.rows _ (ground arith) v.tasked;
}
Step-IsSafe settings {w} (requested id kind user_id tenant_id fresh) v = record {
  keyed = append-IsKeyed w.rows _ (ground arith) v.keyed;
  sound =
      append-AllSound settings.worker_max_attempts w.rows _ v.sound
        (record { tried = omega arith; ended = inl refl });
  tasked =
      add_task w.tasks w.rows _ (ground arith) refl
        (append-AllTasked w.tasks w.rows _ (ground arith) v.tasked);
}
Step-IsSafe settings {w} (task_ended before after task r e) v =
    let it = subst (In task) (sym e) (In-append_right task before (task ∷ after) (inl refl)) in
    let u = end_task-IsSafe settings.worker_max_attempts w task r it v in
    record {
      keyed = u.keyed;
      sound = u.sound;
      tasked = fewer_tasks before after task w.tasks _ e u.tasked;
    }
Step-IsSafe settings {w} (task_died before after task e) v = record {
  keyed = v.keyed;
  sound = v.sound;
  tasked = fewer_tasks before after task w.tasks w.rows e v.tasked;
}
Step-IsSafe settings (elapsed n) v = record { keyed = v.keyed; sound = v.sound; tasked = v.tasked }
Step-IsSafe settings {w} (claimed locked job h) v =
    let u = claim-IsSafe settings w locked job h v in
    record { keyed = u.keyed; sound = u.sound; tasked = u.tasked }
Step-IsSafe settings {w} (extended before after job additional e) v =
    update-IsSafe settings.worker_max_attempts w (is_open job.id) (with_lease (w.now + additional))
      (λ j. (refl, refl))
      (λ j i hit s. record { tried = s.tried; ended = inl (open_pending job.id j hit) }) v
Step-IsSafe settings {w} (finished before after job r e) v =
    let u = finish-IsSafe settings settings.worker_max_attempts w job r v in
    record { keyed = u.keyed; sound = u.sound; tasked = u.tasked }
Step-IsSafe settings {w} (unknown before after job e) v =
    let u = fail_job-IsSafe settings.worker_max_attempts w job "unknown job kind" true v in
    record { keyed = u.keyed; sound = u.sound; tasked = u.tasked }
Step-IsSafe settings (died before after job e) v = record {
  keyed = v.keyed;
  sound = v.sound;
  tasked = v.tasked;
}
