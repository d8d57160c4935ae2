-- ===== src/Memory/Sweep/Leak.antt =====
-- What the two sweeps leave: `delete_for_user` takes rows and vectors alike, `cleanup_expired` takes
-- all the expired rows and the vectors of one batch.
use my_palace.Common.{
  ℕ, ◌≡◌, refl, sym, ap, ◌∙◌, Bool, false, not, ◌&&◌, String, Option, List, [], ◌∷◌, take, length,
  filter, str_eq, elem, Result, ok, err, if◌then◌else◌, arith, subst,
}
use my_palace.Memory.{Memory, Vectors, Raised, Env, Palace, pure, ◌>>◌, >>=-ok, emit, bust_cache}
use my_palace.Memory.Sweep.{
  of_user, expired_in, ids_of, delete_chunks, delete_where, delete_for_user, sweep, cleanup_expired,
}
use my_palace.Memory.Sweep.Chunks.{delete_chunks-Removed}

abbrev value : Result Raised ℕ → ℕ
value (ok n) = n
value (err e) = 0

filter-none : {A : Type 0} (p : A → Bool) (xs : List A) → filter p (filter (λ x. not (p x)) xs) ≡ []
filter-none p [] = refl
filter-none p (x ∷ xs) = ground (arith, filter-none p xs)

missed : (t e b : Bool) → e ≡ false → (if t && e then false else b) ≡ b
missed t e b h = ground arith

module _ (vectors : Vectors) where
  open vectors use {has}

  -- What a sweep has done: the rows that pass the test are gone, the points of `ids` are gone from
  -- the tenant's collection, and nothing else has changed in rows and points.
  pub record Swept (p : Memory → Bool) (ids : List String) (tenant : String) (s s' : Palace vectors)
      : Type 0 where
    pub rows : s'.rows ≡ filter (λ m. not (p m)) s.rows
    pub points :
        (t j : String)
        → has t j s'.store ≡ (if str_eq tenant t && elem j ids then false else has t j s.store)

  bust_cache-frame :
      (env : Env) (tenant : String) (s s' : Palace vectors)
      → (bust_cache vectors env tenant s).1 ≡ s'
      → (s'.rows ≡ s.rows) × (s'.store ≡ s.store)
  unfolding bust_cache emit
  bust_cache-frame env tenant s s' h =
      subst (λ z. (z.rows ≡ s.rows) × (z.store ≡ s.store)) h (ground arith)

  -- The end of both: the chunks, the cache, and the count.
  chunks_then_bust :
      (env : Env) (p : Memory → Bool) (ids : List String) (tenant : String) (s s' : Palace vectors)
      (n : ℕ)
      → ((delete_chunks vectors (length ids) ids tenant
              >> (bust_cache vectors env tenant >> pure (length ids)))
            (record s { rows = filter (λ m. not (p m)) s.rows })
          ≡ (ok n, s'))
      → Swept p ids tenant s s' × (n ≡ length ids)
  chunks_then_bust env p ids tenant s s' n h =
      let cut = record s { rows = filter (λ m. not (p m)) s.rows } in
      let (u, first, rest) =
        >>=-ok (delete_chunks vectors (length ids) ids tenant)
          (λ _. bust_cache vectors env tenant >> pure (length ids)) cut s' n h in
      let (w, second, last) =
        >>=-ok (bust_cache vectors env tenant) (λ _. pure (length ids))
          (delete_chunks vectors (length ids) ids tenant cut).1 s' n rest in
      let removed =
        delete_chunks-Removed vectors (length ids) ids tenant cut
          (delete_chunks vectors (length ids) ids tenant cut).1 (omega arith)
          (ap (λ r. (r, (delete_chunks vectors (length ids) ids tenant cut).1)) first) in
      let frame =
        bust_cache-frame env tenant (delete_chunks vectors (length ids) ids tenant cut).1 s'
          (ap (λ r. r.1) last) in
      (
        record {
          rows = frame.0 ∙ removed.rows;
          points = λ t j. ap (has t j) frame.1 ∙ removed.points t j;
        },
        sym (ap (λ r. value r.0) last),
      )

  -- The points of no id stay.
  no_ids : (t j tenant : String) (b : Bool) → b ≡ (if str_eq tenant t && false then false else b)
  no_ids t j tenant b = ground arith

  sweep-Swept :
      (env : Env) (p : Memory → Bool) (ids : List String) (tenant : String) (s s' : Palace vectors)
      (n : ℕ)
      → sweep vectors env ids tenant (record s { rows = filter (λ m. not (p m)) s.rows })
        ≡ (ok n, s')
      → Swept p ids tenant s s' × (n ≡ length ids)
  unfolding sweep
  sweep-Swept env p [] tenant s s' n h = (
    subst (Swept p [] tenant s) (ap (λ r. r.1) h)
        (record { rows = refl; points = λ t j. no_ids t j tenant (has t j s.store) }),
    sym (ap (λ r. value r.0) h),
  )
  sweep-Swept env p (i ∷ ids) tenant s s' n h = chunks_then_bust env p (i ∷ ids) tenant s s' n h

  -- `delete_for_user` that returns has deleted the rows of the user, with the agent and the run when
  -- they are given, and from the tenant's collection the vector of each of those rows; every other
  -- row and vector is as before, and the answer is the number of rows.
  delete_for_user-Swept :
      (env : Env) (user : String) (agent run : Option String) (tenant : String)
      (s s' : Palace vectors) (n : ℕ)
      → delete_for_user vectors env user agent run tenant s ≡ (ok n, s')
      → Swept
          (of_user tenant user agent run)
          (ids_of (filter (of_user tenant user agent run) s.rows))
          tenant
          s
          s'
        × (n ≡ length (ids_of (filter (of_user tenant user agent run) s.rows)))
  unfolding delete_for_user delete_where
  delete_for_user-Swept env user agent run tenant s s' n h =
      chunks_then_bust env (of_user tenant user agent run)
        (ids_of (filter (of_user tenant user agent run) s.rows)) tenant s s' n h

  -- `cleanup_expired` that returns has deleted every expired row of the tenant, however many there
  -- are, but only the vectors of the first `batch_size` of them; it answers the number of those.
  pub cleanup_expired-Swept :
      (env : Env) (tenant : String) (batch : ℕ) (s s' : Palace vectors) (n : ℕ)
      → cleanup_expired vectors env tenant batch s ≡ (ok n, s')
      → Swept
          (expired_in tenant env.utcnow)
          (take batch (ids_of (filter (expired_in tenant env.utcnow) s.rows)))
          tenant
          s
          s'
        × (n ≡ length (take batch (ids_of (filter (expired_in tenant env.utcnow) s.rows))))
  unfolding cleanup_expired delete_where
  cleanup_expired-Swept env tenant batch s s' n h =
      sweep-Swept env (expired_in tenant env.utcnow)
        (take batch (ids_of (filter (expired_in tenant env.utcnow) s.rows))) tenant s s' n h

  -- An expired row past the batch: after `cleanup_expired` no row of the tenant is expired any more,
  -- so that no later run can find it, and its vector is still there if it was.
  pub cleanup_expired-leaks :
      (env : Env) (tenant : String) (batch : ℕ) (s s' : Palace vectors) (n : ℕ) (m : Memory)
      → cleanup_expired vectors env tenant batch s ≡ (ok n, s')
      → elem m.id (take batch (ids_of (filter (expired_in tenant env.utcnow) s.rows))) ≡ false
      → (filter (expired_in tenant env.utcnow) s'.rows ≡ [])
        × (has tenant m.id s'.store ≡ has tenant m.id s.store)
  cleanup_expired-leaks env tenant batch s s' n m h past =
      let (swept, count) = cleanup_expired-Swept env tenant batch s s' n h in
      (
        ap (filter (expired_in tenant env.utcnow)) swept.rows
            ∙ filter-none (expired_in tenant env.utcnow) s.rows,
        swept.points tenant m.id ∙ missed (str_eq tenant tenant) _ _ past,
      )
