-- ===== src/Jobs/World/Stuck.antt =====
-- What the job table does not recover from: a worker that dies on the last attempt of its job, and a
-- worker that ends after its lease has run out.
use my_palace.Common.{
  ℕ, ◌+◌, ◌≤◌, ◌≡◌, ◌≢◌, refl, sym, ap, ◌∙◌, Bool, true, false, ◌&&◌, String, none, some, List, [],
  ◌∷◌, ◌++◌, str_eq, str_eq_refl, str_eq_iff, if◌then◌else◌, arith, In, map-In, In-append_left,
  In-append_right, In-append_cases, Bool-cases, leb, le→leb, inl, inr, subst,
}
use my_palace.Jobs.{
  pending, failed, ReflectionJob, Table, Settings, claimable, update, leased, enqueue, new_job,
  claim_next, extend_lease, names, is_open, with_lease, done_with, failed_with, released_with,
  complete_job, fail_job, lease_length, create, complete, fail,
}
use my_palace.Jobs.Claim.{claim_next-oldest}
use my_palace.Jobs.Runner.{Returned, value, raised, finish, run_handler}
use my_palace.Jobs.World.{
  World, Step, enqueued, elapsed, claimed, extended, finished, died, requested, task_ended,
  task_died, unknown, end_task, Reach, here, next,
}
use my_palace.Jobs.World.Keyed.{has_id, not_In}

-- A statement that passes the rows of a job by leaves them as they were.
update-passes :
    (id : String) (p : ReflectionJob → Bool) (f : ReflectionJob → ReflectionJob) (rows : Table)
    (k : ReflectionJob)
    → ((j : ReflectionJob) → (f j).id ≡ j.id)
    → ((j : ReflectionJob) → In j rows → p j ≡ true → j.id ≢ id)
    → In k (update p f rows)
    → k.id ≡ id
    → In k rows
update-passes id p f [] k same away i e = i
update-passes id p f (j ∷ rows) k same away (inl q) e = elim (Bool-cases (p j)) [
  | inl hit ↦ absurd (
      away j (inl refl) hit
        (sym (same j) ∙ ap (λ (x : ReflectionJob). x.id) (sym (rw hit at q)) ∙ e))
  | inr miss ↦ inl (rw miss at q)
]
update-passes id p f (j ∷ rows) k same away (inr i) e =
    inr (update-passes id p f rows k same (λ m im. away m (inr im)) i e)

update-id :
    (p : ReflectionJob → Bool) (f : ReflectionJob → ReflectionJob) (j : ReflectionJob)
    → ((j : ReflectionJob) → (f j).id ≡ j.id)
    → (if p j then f j else j).id ≡ j.id
update-id p f j same = elim (Bool-cases (p j)) [ inl e ↦ rw e (same j) | inr e ↦ rw e ]

module _ (settings : Settings) (id : String) where
  -- The rows of the job, in any table.
  abbrev pub Exhausted : Table → Type 0
  Exhausted rows =
      ((j : ReflectionJob) × In j rows × (j.id ≡ id))
      × ((j : ReflectionJob)
          → In j rows
          → j.id ≡ id
          → (j.status ≡ pending) × (settings.worker_max_attempts ≤ j.attempts))

  update-Exhausted :
      (p : ReflectionJob → Bool) (f : ReflectionJob → ReflectionJob) (rows : Table)
      → ((j : ReflectionJob) → (f j).id ≡ j.id)
      → ((j : ReflectionJob) → In j rows → p j ≡ true → j.id ≢ id)
      → Exhausted rows
      → Exhausted (update p f rows)
  update-Exhausted p f rows same away ((j, i, e), all) = (
    ((if p j then f j else j), map-In _ j rows i, update-id p f j same ∙ e),
    λ k ik ek. all k (update-passes id p f rows k same away ik ek) ek,
  )

  names-away :
      (job j : ReflectionJob) (b : Bool)
      → job.id ≢ id
      → (str_eq j.id job.id && b) ≡ true
      → j.id ≢ id
  names-away job j b other hit same = other (ground (arith, str_eq_iff j.id job.id))

  fail_job-Exhausted :
      (job : ReflectionJob) (e : String) (permanent : Bool) (now : ℕ) (rows : Table)
      → job.id ≢ id
      → Exhausted rows
      → Exhausted (fail_job job.id e job.tenant_id permanent now rows)
  unfolding fail_job failed_with released_with
  fail_job-Exhausted job e true now rows other x =
      update-Exhausted (names job.id job.tenant_id) (failed_with e now) rows (λ j. refl)
        (λ j i hit. names-away job j _ other hit) x
  fail_job-Exhausted job e false now rows other x =
      update-Exhausted (names job.id job.tenant_id) (released_with e) rows (λ j. refl)
        (λ j i hit. names-away job j _ other hit) x

  finish-Exhausted :
      (job : ReflectionJob) (r : Returned) (now : ℕ) (rows : Table)
      → job.id ≢ id
      → Exhausted rows
      → Exhausted (finish settings job r now rows)
  unfolding finish complete_job done_with
  finish-Exhausted job (value result) now rows other x =
      update-Exhausted (names job.id job.tenant_id) (done_with result now) rows (λ j. refl)
        (λ j i hit. names-away job j _ other hit) x
  finish-Exhausted job (raised e) now rows other x =
      fail_job-Exhausted job e (leb settings.worker_max_attempts job.attempts) now rows other x

  -- What has attempts left is another job.
  claimable-away :
      (locked : String → Bool) (now : ℕ) (rows : Table) (old : ReflectionJob)
      → claimable locked now settings.worker_max_attempts old ≡ true
      → Exhausted rows
      → In old rows
      → old.id ≢ id
  unfolding claimable
  claimable-away locked now rows old may x i e = let (p, used) = x.1 old i e in ground arith

  claim-Exhausted :
      (locked : String → Bool) (now : ℕ) (rows : Table) (job : ReflectionJob)
      → (claim_next settings locked none now rows).0 ≡ some job
      → Exhausted rows
      → (job.id ≢ id) × Exhausted (claim_next settings locked none now rows).1
  unfolding leased
  claim-Exhausted locked now rows job h x =
      let (old, t) = claim_next-oldest settings locked none now rows job h in
      let away = claimable-away locked now rows old t.allowed x t.stored in
      (
        λ e. away (sym (ap (λ (j : ReflectionJob). j.id) t.result) ∙ e),
        rw t.table (
            update-Exhausted (λ j. str_eq j.id old.id) (leased _) rows (λ j. refl)
              (λ j i hit e. away (sym ((str_eq_iff j.id old.id).0 hit) ∙ e)) x),
      )

  append-Exhausted :
      (rows : Table) (job : ReflectionJob)
      → has_id job.id rows ≡ false
      → Exhausted rows
      → Exhausted (rows ++ job ∷ [])
  append-Exhausted rows job fresh ((j, i, e), all) = (
    (j, In-append_left j rows (job ∷ []) i, e),
    λ k ik ek. elim (In-append_cases k rows (job ∷ []) ik) [
      | inl old ↦ all k old ek
      | inr (inl q) ↦ cc (
        not_In j job.id rows fresh i,
        (str_eq_iff j.id job.id).1 (e ∙ sym ek ∙ ap (λ (x : ReflectionJob). x.id) q),
      )
      | inr (inr n) ↦ absurd n
    ],
  )

  -- Dropping or moving past one running job keeps the others.
  still_idle :
      (before after : List ReflectionJob) (job : ReflectionJob)
      → ((r : ReflectionJob) → In r (before ++ job ∷ after) → r.id ≢ id)
      → (r : ReflectionJob) → In r (before ++ after)
      → r.id ≢ id
  still_idle before after job h r i = elim (In-append_cases r before after i) [
    | inl b ↦ h r (In-append_left r before (job ∷ after) b)
    | inr a ↦ h r (In-append_right r before (job ∷ after) (inr a))
  ]

  here_idle :
      (before after : List ReflectionJob) (job : ReflectionJob)
      → ((r : ReflectionJob) → In r (before ++ job ∷ after) → r.id ≢ id)
      → job.id ≢ id
  here_idle before after job h = h job (In-append_right job before (job ∷ after) (inl refl))

  add_idle :
      (job : ReflectionJob) (running : List ReflectionJob)
      → job.id ≢ id
      → ((r : ReflectionJob) → In r running → r.id ≢ id)
      → (r : ReflectionJob) → In r (job ∷ running)
      → r.id ≢ id
  add_idle job running other q r (inl e) same =
      other (sym (ap (λ (x : ReflectionJob). x.id) e) ∙ same)
  add_idle job running other q r (inr i) same = q r i same

  end_task-Exhausted :
      (task : ReflectionJob) (r : Returned) (now : ℕ) (rows : Table)
      → task.id ≢ id
      → Exhausted rows
      → Exhausted (end_task task r now rows)
  unfolding end_task complete fail
  end_task-Exhausted task (value result) now rows other x =
      update-Exhausted (names task.id task.tenant_id) _ rows (λ j. refl)
        (λ j i hit. names-away task j _ other hit) x
  end_task-Exhausted task (raised e) now rows other x =
      update-Exhausted (names task.id task.tenant_id) _ rows (λ j. refl)
        (λ j i hit. names-away task j _ other hit) x

  -- A new row is another one.
  new_away :
      (rows : Table) (job : ReflectionJob)
      → has_id job.id rows ≡ false
      → Exhausted rows
      → job.id ≢ id
  new_away rows job fresh ((j, i, e), all) same =
      cc (not_In j job.id rows fresh i, (str_eq_iff j.id job.id).1 (e ∙ sym same))

  -- The job is pending with its attempts used up, no worker runs it, and no request's task is to end
  -- it.
  abbrev pub IsStuck : World → Type 0
  IsStuck w =
      Exhausted w.rows
      × ((r : ReflectionJob) → In r w.running → r.id ≢ id)
      × ((t : ReflectionJob) → In t w.tasks → t.id ≢ id)

  Step-IsStuck : {w u : World} → Step settings w u → IsStuck w → IsStuck u
  unfolding enqueue create new_job extend_lease run_handler
  Step-IsStuck {w} (enqueued new kind user_id payload tenant_id fresh) (x, q, t) =
      (append-Exhausted w.rows _ (ground arith) x, q, t)
  Step-IsStuck {w} (requested new kind user_id tenant_id fresh) (x, q, t) =
      let job = new_job new kind user_id tenant_id none w.now in
      let unused : has_id new w.rows ≡ false = ground arith in
      (
        append-Exhausted w.rows job unused x,
        q,
        add_idle job w.tasks (new_away w.rows job unused x) t,
      )
  Step-IsStuck {w} (task_ended before after task r e) (x, q, t) = (
    end_task-Exhausted task r w.now w.rows (here_idle before after task (rw e at t)) x,
    q,
    still_idle before after task (rw e at t),
  )
  Step-IsStuck (task_died before after task e) (x, q, t) =
      (x, q, still_idle before after task (rw e at t))
  Step-IsStuck (elapsed n) (x, q, t) = (x, q, t)
  Step-IsStuck {w} (claimed locked job h) (x, q, t) =
      let (other, y) = claim-Exhausted locked w.now w.rows job h x in
      (y, add_idle job w.running other q, t)
  Step-IsStuck {w} (extended before after job additional e) (x, q, t) = (
    update-Exhausted (is_open job.id) (with_lease (w.now + additional)) w.rows (λ j. refl)
        (λ j i hit. names-away job j _ (here_idle before after job (rw e at q)) hit) x,
    q,
    t,
  )
  Step-IsStuck {w} (finished before after job r e) (x, q, t) = (
    finish-Exhausted job r w.now w.rows (here_idle before after job (rw e at q)) x,
    still_idle before after job (rw e at q),
    t,
  )
  Step-IsStuck {w} (unknown before after job e) (x, q, t) = (
    fail_job-Exhausted job "unknown job kind" true w.now w.rows
        (here_idle before after job (rw e at q)) x,
    still_idle before after job (rw e at q),
    t,
  )
  Step-IsStuck (died before after job e) (x, q, t) = (x, still_idle before after job (rw e at q), t)

-- A job that is pending with no attempt left, that no worker runs and no request's task is to end, as
-- after a death in its last attempt, stays so for ever: whatever steps the workers, the requests and
-- their tasks take, no worker runs it again and no step completes or fails it.
pub abandoned_forever :
    (settings : Settings) (id : String) {w u : World}
    → Reach settings w u
    → IsStuck settings id w
    → IsStuck settings id u
abandoned_forever settings id here x = x
abandoned_forever settings id (next r s) x =
    Step-IsStuck settings id s (abandoned_forever settings id r x)

names_own :
    (job row : ReflectionJob)
    → row.id ≡ job.id
    → row.tenant_id ≡ job.tenant_id
    → names job.id job.tenant_id row ≡ true
names_own job row same tenant = rw (same, tenant, str_eq_refl job.id, str_eq_refl job.tenant_id)

-- A statement reaches the rows that it names.
update-reaches :
    (p : ReflectionJob → Bool) (f : ReflectionJob → ReflectionJob) (rows : Table)
    (row : ReflectionJob)
    → In row rows
    → p row ≡ true
    → In (f row) (update p f rows)
update-reaches p f rows row i hit =
    subst (λ x. In x (update p f rows)) (rw hit refl)
      (map-In (λ j. if p j then f j else j) row rows i)

complete-stored :
    (settings : Settings) (a row : ReflectionJob) (result : String) (now : ℕ) (rows : Table)
    → In row rows
    → row.id ≡ a.id
    → row.tenant_id ≡ a.tenant_id
    → In (done_with result now row) (finish settings a (value result) now rows)
unfolding finish complete_job
complete-stored settings a row result now rows i same tenant =
    update-reaches (names a.id a.tenant_id) (done_with result now) rows row i
      (names_own a row same tenant)

fail-stored :
    (settings : Settings) (b row : ReflectionJob) (e : String) (now : ℕ) (rows : Table)
    → In row rows
    → row.id ≡ b.id
    → row.tenant_id ≡ b.tenant_id
    → settings.worker_max_attempts ≤ b.attempts
    → In (failed_with e now row) (finish settings b (raised e) now rows)
unfolding finish fail_job
fail-stored settings b row e now rows i same tenant last =
    rw (le→leb settings.worker_max_attempts b.attempts last) (
      update-reaches (names b.id b.tenant_id) (failed_with e now) rows row i
        (names_own b row same tenant))

claim-stored :
    (settings : Settings) (locked : String → Bool) (now : ℕ) (rows : Table) (b : ReflectionJob)
    → (claim_next settings locked none now rows).0 ≡ some b
    → In b (claim_next settings locked none now rows).1
claim-stored settings locked now rows b h =
    let (old, t) = claim_next-oldest settings locked none now rows b h in
    rw t.table (
      subst
        (λ x. In x (
          update (λ j. str_eq j.id old.id)
            (leased (now + lease_length none settings.worker_lease_seconds)) rows))
        (sym t.result)
        (update-reaches (λ j. str_eq j.id old.id) (leased _) rows old t.stored
          (str_eq_refl old.id)))

-- A worker claims a job, and after a time another worker claims the same job for its last attempt:
-- then it can come to pass that the first worker completes the job with its result, the second one
-- raises, and a row of the job is failed, with that error, and has the result.
pub late_failure_overwrites :
    (settings : Settings) (w : World) (a b : ReflectionJob) (locked locked' : String → Bool) (n : ℕ)
    (result e : String)
    → (claim_next settings locked none w.now w.rows).0 ≡ some a
    → (claim_next settings locked' none
        (w.now + n)
        (claim_next settings locked none w.now w.rows).1).0
      ≡ some b
    → b.id ≡ a.id
    → b.tenant_id ≡ a.tenant_id
    → settings.worker_max_attempts ≤ b.attempts
    → (u : World) × Reach settings w u
      × ((row : ReflectionJob) × In row u.rows
          × (row.id ≡ a.id)
          × (row.status ≡ failed)
          × (row.error ≡ some e)
          × (row.result_json ≡ some result))
unfolding done_with failed_with
late_failure_overwrites settings w a b locked locked' n result e first second same tenant last =
    let now = w.now + n in
    let rows1 = (claim_next settings locked none w.now w.rows).1 in
    let rows2 = (claim_next settings locked' none now rows1).1 in
    let rows3 = finish settings a (value result) now rows2 in
    let done =
      complete-stored settings a b result now rows2
        (claim-stored settings locked' now rows1 b second) same tenant in
    (
      _,
      next
          (next
            (next (next (next here (claimed locked a first)) (elapsed n))
              (claimed locked' b second))
            (finished (b ∷ []) w.running a (value result) refl))
          (finished [] w.running b (raised e) refl),
      (
        failed_with e now (done_with result now b),
        fail-stored settings b (done_with result now b) e now rows3 done refl refl last,
        same,
        refl,
        refl,
        refl,
      ),
    )
