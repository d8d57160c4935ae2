-- ===== src/Memory/Write/Isolation.antt =====
-- The rows of another tenant, whether an update goes through or raises on the way.
use my_palace.Common.{
  ◌≡◌, refl, sym, ap, ◌∙◌, false, String, Option, none, some, List, [], ◌∷◌, map, filter, find?,
  str_eq, str_eq_iff, Result, ok, err, if◌then◌else◌, arith, Bool-cases, subst, inl, inr,
  find?-some,
}
use my_palace.Memory.{
  Memory, Vectors, Raised, Env, Palace, Method, names, continue, pure, ◌>>=◌, ◌>>◌, gets, set_rows,
  emit, embed_text, upsert_vector, write_store, bust_cache, publish_event, record_version,
  next_version_number,
}
use my_palace.Memory.Write.{Patch, patched, version_of, reembed, update_found, update}

abbrev pub rows_of : String → List Memory → List Memory
rows_of t = filter λ m. str_eq m.tenant_id t

rows_of-map :
    (t memory_id tenant : String) (new : Memory) (rows : List Memory)
    → str_eq tenant t ≡ false
    → str_eq new.tenant_id t ≡ false
    → rows_of t (map (λ r. if names memory_id tenant r then new else r) rows) ≡ rows_of t rows
rows_of-map t memory_id tenant new [] h k = refl
rows_of-map t memory_id tenant new (r ∷ rows) h k = elim (Bool-cases (names memory_id tenant r)) [
  | inl e ↦
      let other : str_eq r.tenant_id t ≡ false =
        subst (λ z. str_eq z t ≡ false) (sym ((str_eq_iff r.tenant_id tenant).0 (ground arith)))
          h in
      ground (arith, rows_of-map t memory_id tenant new rows h k)
  | inr e ↦ ground (arith, rows_of-map t memory_id tenant new rows h k)
]

module _ (vectors : Vectors) where
  continue-rows :
      {A B : Type 0} (r : Result Raised A) (f : A → Method vectors B) (s : Palace vectors)
      (view : List Memory → List Memory)
      → ((a : A) → view (f a s).1.rows ≡ view s.rows)
      → view (continue r f s).1.rows ≡ view s.rows
  continue-rows (ok a) f s view h = h a
  continue-rows (err e) f s view h = refl

  >>=-rows :
      {A B : Type 0} (m : Method vectors A) (f : A → Method vectors B) (s : Palace vectors)
      (view : List Memory → List Memory)
      → (m s).1.rows ≡ s.rows
      → ((a : A) → view (f a (m s).1).1.rows ≡ view (m s).1.rows)
      → view ((m >>= f) s).1.rows ≡ view s.rows
  >>=-rows m f s view h k = continue-rows (m s).0 f (m s).1 view k ∙ ap view h

  embed_text-rows :
      (text : String) (s : Palace vectors) → (embed_text vectors text s).1.rows ≡ s.rows
  unfolding embed_text
  embed_text-rows text s = ground arith

  write_store-rows :
      (o : Option vectors.Store) (s : Palace vectors) → (write_store vectors o s).1.rows ≡ s.rows
  unfolding write_store
  write_store-rows none s = refl
  write_store-rows (some st) s = refl

  reembed-rows :
      (content : Option String) (m : Memory) (tenant : String) (s : Palace vectors)
      → (reembed vectors content m tenant s).1.rows ≡ s.rows
  unfolding reembed upsert_vector
  reembed-rows none m tenant s = refl
  reembed-rows (some text) m tenant s =
      >>=-rows (embed_text vectors text) _ s (λ rows. rows) (embed_text-rows text s)
        λ v. write_store-rows _ _

  update_tail-rows :
      (env : Env) (new : Memory) (memory_id tenant : String) (s : Palace vectors)
      → ((bust_cache vectors env tenant
            >> (next_version_number vectors env memory_id >>= λ n.
                record_version vectors env (version_of new tenant n "updated")
                >> (publish_event vectors "memory.updated" tenant memory_id >> pure (some new))))
          s).1.rows
        ≡ s.rows
  unfolding bust_cache next_version_number record_version publish_event emit
  update_tail-rows env new memory_id tenant s = ground arith

  update_found-others :
      (env : Env) (found : Option Memory) (memory_id : String) (p : Patch) (tenant t : String)
      (s : Palace vectors)
      → str_eq tenant t ≡ false
      → ((m : Memory) → found ≡ some m → m.tenant_id ≡ tenant)
      → rows_of t (update_found vectors env found memory_id p tenant s).1.rows ≡ rows_of t s.rows
  unfolding update_found gets set_rows patched
  update_found-others env none memory_id p tenant t s h own = refl
  update_found-others env (some m) memory_id p tenant t s h own =
      >>=-rows (reembed vectors p.content m tenant) _ s (rows_of t)
        (reembed-rows p.content m tenant s)
        λ u.
          let s1 : Palace vectors = (reembed vectors p.content m tenant s).1 in
          ap (rows_of t) (
            update_tail-rows env (patched env.utcnow p m) memory_id tenant (record s1 {
              rows =
                  map (λ r. if names memory_id tenant r then patched env.utcnow p m else r) s1.rows;
            }))
          ∙ rows_of-map t memory_id tenant (patched env.utcnow p m) s1.rows h
              (subst (λ z. str_eq z t ≡ false) (sym (own m refl)) h)

  -- An `update` under one tenant leaves the rows of every other tenant as they are, those with the
  -- same memory id too, and also when the embedder or the vector store raises.
  pub update-others :
      (env : Env) (memory_id : String) (p : Patch) (tenant t : String) (s : Palace vectors)
      → str_eq tenant t ≡ false
      → rows_of t (update vectors env memory_id p tenant s).1.rows ≡ rows_of t s.rows
  unfolding update
  update-others env memory_id p tenant t s h =
      update_found-others env (find? (names memory_id tenant) s.rows) memory_id p tenant t s h
        λ m e.
          (str_eq_iff m.tenant_id tenant).0
            (let (i, good) = find?-some (names memory_id tenant) m s.rows e in ground arith)
