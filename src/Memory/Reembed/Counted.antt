-- ===== src/Memory/Reembed/Counted.antt =====
-- What a re-embedding comes to.
use my_palace.Common.{
  ℕ, zero, suc, ◌+◌, ◌≤◌, ◌<◌, ◌≡◌, refl, sym, ap, ◌∙◌, subst, true, false, String, Option, none,
  some, List, [], ◌∷◌, ◌++◌, filter, take, drop, length, str_eq, str_eq_refl, length-sort_by,
  sort_by-In, filter-In, In, All, All-In, length-take, length-drop, length-map, take-append-drop,
  arith, inl, inr, Bool-cases, length-append, is_nil,
}
use native.Mathlib.Nat.{zero-add, suc-add}
use my_palace.Memory.{Memory, Vectors}
use my_palace.Memory.Reembed.{
  Job, Progress, payload_of, upserted, upsert_batch, batch_done, contents, pages, selection,
  reembed,
}

drop-nil : {A : Type 0} (n : ℕ) → ◌≡◌ {A = List A} [] (drop n [])
drop-nil zero = refl
drop-nil (suc n) = refl

drop-drop : {A : Type 0} (a b : ℕ) (xs : List A) → drop (a + b) xs ≡ drop b (drop a xs)
drop-drop zero b xs = rw zero-add
drop-drop (suc a) b [] = rw suc-add (drop-nil b)
drop-drop (suc a) b (x ∷ xs) = rw suc-add (drop-drop a b xs)

module _ (vectors : Vectors) (tenant : String) where
  abbrev Has : vectors.Store → Memory → Type 0
  Has store m = vectors.has tenant m.id store ≡ true

  -- What a part of the work does with the rows `ms`.
  record Worked (ms : List Memory) (p q : Progress vectors) : Type 0 where
    counted : q.total + q.failures ≡ p.total + p.failures + length ms
    failing : p.failures ≤ q.failures
    whole : q.failures ≡ p.failures → All (Has q.store) ms
    keeps : (m : Memory) → Has p.store m → Has q.store m

  All-keeps :
      (ms : List Memory) (s t : vectors.Store)
      → ((m : Memory) → Has s m → Has t m)
      → All (Has s) ms
      → All (Has t) ms
  All-keeps [] s t k h = tt
  All-keeps (m ∷ ms) s t k h = (k m h.0, All-keeps ms s t k h.1)

  All-append : (P : Memory → Type 0) (xs ys : List Memory) → All P xs → All P ys → All P (xs ++ ys)
  All-append P [] ys h k = k
  All-append P (x ∷ xs) ys h k = (h.0, All-append P xs ys h.1 k)

  Worked-trans :
      (ms ns : List Memory) (p q r : Progress vectors)
      → Worked ms p q
      → Worked ns q r
      → Worked (ms ++ ns) p r
  Worked-trans ms ns p q r a b = record {
    counted = omega (arith, a.counted, b.counted, length-append ms ns);
    failing = omega (arith, a.failing, b.failing);
    whole = λ e.
        All-append (Has r.store) ms ns
          (All-keeps ms q.store r.store b.keeps (a.whole (omega (arith, a.failing, b.failing))))
          (b.whole (omega (arith, a.failing, b.failing)));
    keeps = λ m h. b.keeps m (a.keeps m h);
  }

  upserted-Worked :
      (o : Option vectors.Store) (m : Memory) (v : vectors.Vector) (p : Progress vectors)
      → vectors.upsert m.id v (payload_of vectors tenant m) p.store ≡ o
      → Worked (m ∷ []) p (upserted vectors o p)
  unfolding upserted payload_of
  upserted-Worked none m v p e = record {
    counted = omega arith;
    failing = omega arith;
    whole = λ h. absurd (omega arith);
    keeps = λ k h. h;
  }
  upserted-Worked (some s) m v p e = record {
    counted = omega arith;
    failing = omega arith;
    whole = λ h. (
      ground (
        arith,
        vectors.has-upsert m.id v (payload_of vectors tenant m) p.store s tenant m.id e,
        str_eq_refl tenant,
        str_eq_refl m.id,
      ),
      tt,
    );
    keeps = λ k h.
        ground
          (arith, vectors.has-upsert m.id v (payload_of vectors tenant m) p.store s tenant k.id e);
  }

  upsert_batch-Worked :
      (ms : List Memory) (vs : List vectors.Vector) (p : Progress vectors)
      → length vs ≡ length ms
      → Worked ms p (upsert_batch vectors tenant ms vs p)
  unfolding upsert_batch
  upsert_batch-Worked [] vs p e = record {
    counted = omega arith;
    failing = omega arith;
    whole = λ h. tt;
    keeps = λ k h. h;
  }
  upsert_batch-Worked (m ∷ ms) [] p e = absurd (omega arith)
  upsert_batch-Worked (m ∷ ms) (v ∷ vs) p e =
      let o = vectors.upsert m.id v (payload_of vectors tenant m) p.store in
      let q = upserted vectors o p in
      Worked-trans (m ∷ []) ms p q (upsert_batch vectors tenant ms vs q)
        (upserted-Worked o m v p refl) (upsert_batch-Worked ms vs q (omega arith))

  failed-Worked :
      (ms : List Memory) (p : Progress vectors)
      → Worked ms p (record p { failures = p.failures + length ms })
  failed-Worked [] p = record {
    counted = omega arith;
    failing = omega arith;
    whole = λ h. tt;
    keeps = λ k h. h;
  }
  failed-Worked (m ∷ ms) p = record {
    counted = omega arith;
    failing = omega arith;
    whole = λ h. absurd (omega arith);
    keeps = λ k h. h;
  }

module _ (vectors : Vectors) (job : Job vectors) where
  -- The embedder gives one vector for each text, when it answers.
  abbrev pub Matching : Type 0
  Matching =
      (ts : List String) (vs : List vectors.Vector) → job.embed ts ≡ some vs → length vs ≡ length ts

  batch_done-Worked :
      (ms : List Memory) (o : Option (List vectors.Vector)) (p : Progress vectors)
      → ((vs : List vectors.Vector) → o ≡ some vs → length vs ≡ length ms)
      → Worked vectors job.tenant_id ms p (batch_done vectors job.tenant_id ms o p)
  unfolding batch_done
  batch_done-Worked ms none p h = failed-Worked vectors job.tenant_id ms p
  batch_done-Worked ms (some vs) p h = upsert_batch-Worked vectors job.tenant_id ms vs p (h vs refl)

  nil-of : {A : Type 0} (xs : List A) → length xs ≡ 0 → xs ≡ []
  nil-of [] e = refl
  nil-of (x ∷ xs) e = absurd (omega arith)

  is_nil-length : {A : Type 0} (xs : List A) → is_nil xs ≡ true → length xs ≡ 0
  is_nil-length [] e = refl
  is_nil-length (x ∷ xs) e = cc

  length-is_nil : {A : Type 0} (xs : List A) → is_nil xs ≡ false → 0 < length xs
  length-is_nil [] e = cc
  length-is_nil (x ∷ xs) e = omega arith

  pages_lem :
      (fuel : ℕ) (rows : List Memory) (offset : ℕ) (p : Progress vectors)
      → Matching
      → 0 < job.batch_size
      → length (drop offset rows) < fuel
      → (q : Progress vectors) × (pages vectors fuel job rows offset p ≡ some q)
        × Worked vectors job.tenant_id (drop offset rows) p q
  unfolding pages
  pages_lem zero rows offset p one pos h = absurd (omega arith)
  pages_lem (suc fuel) rows offset p one pos h =
      let left = drop offset rows in
      let batch = take job.batch_size left in
      elim (Bool-cases (is_nil batch)) [
        | inl e ↦
            let empty : left ≡ [] =
              nil-of left (omega (arith, is_nil-length batch e, length-take job.batch_size left)) in
            (
              p,
              rw e,
              subst (λ l. Worked vectors job.tenant_id l p p) (sym empty)
                  (upsert_batch-Worked vectors job.tenant_id [] [] p refl),
            )
        | inr e ↦
            let q = batch_done vectors job.tenant_id batch (job.embed (contents vectors batch)) p in
            let some_rows = length-is_nil batch e in
            let rest = drop-drop offset job.batch_size rows in
            let (r, eq, worked) = pages_lem fuel rows (offset + job.batch_size) q one pos (
              omega (
                arith,
                some_rows,
                length-take job.batch_size left,
                ap length rest,
                length-drop job.batch_size left,
              )) in
            (
              r,
              rw e eq,
              subst (λ l. Worked vectors job.tenant_id l p r) (take-append-drop job.batch_size left)
                  (Worked-trans vectors job.tenant_id batch (drop job.batch_size left) p q r
                    (batch_done-Worked batch (job.embed (contents vectors batch)) p (λ vs h'.
                      one (contents vectors batch) vs h' ∙ length-map batch (λ m. m.content)))
                    (subst (λ l. Worked vectors job.tenant_id l q r) rest worked)),
            )
      ]

  -- A re-embedding with pages of at least one row, whose embedder gives one vector for each text
  -- when it answers, comes to its end: each row of the tenant is counted once, as done or as
  -- failed, and if none has failed, the collection of the tenant has a vector for each of them.
  pub reembed-Counted :
      (rows : List Memory) (store : vectors.Store)
      → Matching
      → 0 < job.batch_size
      → (q : Progress vectors) × (reembed vectors job rows store ≡ some q)
        × (q.total + q.failures ≡ length (filter (λ m. str_eq m.tenant_id job.tenant_id) rows))
        × (q.failures ≡ 0
            → (m : Memory) → In m rows
            → str_eq m.tenant_id job.tenant_id ≡ true
            → vectors.has job.tenant_id m.id q.store ≡ true)
  unfolding reembed selection
  reembed-Counted rows store one pos =
      let selected = selection vectors job rows in
      let p : Progress vectors = record { total = 0; failures = 0; store = store } in
      let (q, e, w) = pages_lem (suc (length selected)) selected 0 p one pos (omega arith) in
      (
        q,
        e,
        omega (
          arith,
          w.counted,
          length-sort_by (λ m k. job.before m.id k.id)
              (filter (λ m. str_eq m.tenant_id job.tenant_id) rows),
        ),
        λ none_failed m i own.
            All-In (Has vectors job.tenant_id q.store) m selected (w.whole none_failed) (
              sort_by-In (λ m k. job.before m.id k.id) m
                (filter (λ m. str_eq m.tenant_id job.tenant_id) rows)
                (filter-In (λ m. str_eq m.tenant_id job.tenant_id) m rows i own)),
      )
