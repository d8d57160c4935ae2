-- ===== src/Memory/Write/Success.antt =====
-- What a create and a delete that return have done.
use my_palace.Common.{
  ◌≡◌, refl, sym, ap, ◌∙◌, Bool, true, false, not, ◌&&◌, String, Option, none, some, List, [], ◌∷◌,
  ◌++◌, filter, find?, str_eq, str_eq_refl, elem, ok, if◌then◌else◌, arith, subst,
}
use my_palace.Memory.{
  Memory, Vectors, Payload, graph_node, Env, Palace, names, pure, ◌>>◌, >>=-ok, gets, set_rows,
  emit, embed_text, upsert_vector, write_store, delete_vectors, bust_cache, publish_event,
  record_version,
}
use my_palace.Memory.Write.{Draft, new_memory, payload_of, version_of, create, delete_found, delete}

module _ (vectors : Vectors) where
  open vectors use {has, has-upsert, has-delete}

  -- The steps after the vector is written change neither rows nor points.
  create_tail-frame :
      (env : Env) (d : Draft) (m : Memory) (s s' : Palace vectors) (r : Memory)
      → (emit vectors (graph_node m.id d.tenant_id)
            >> (bust_cache vectors env d.tenant_id
                >> (record_version vectors env (version_of m d.tenant_id 1 "created")
                    >> (publish_event vectors "memory.created" d.tenant_id m.id >> pure m))))
          s
        ≡ (ok r, s')
      → (r ≡ m) × (s'.rows ≡ s.rows) × (s'.store ≡ s.store)
  unfolding emit bust_cache record_version publish_event
  create_tail-frame env d m s s' r h = ground arith

  embed_text-frame :
      (text : String) (s : Palace vectors) (o : Option vectors.Vector)
      → vectors.embed text ≡ o
      → (embed_text vectors text s).1 ≡ s
  unfolding embed_text
  embed_text-frame text s none e = ground arith
  embed_text-frame text s (some v) e = ground arith

  write_store-some :
      (o : Option vectors.Store) (s : Palace vectors) (u : Unit {0})
      → (write_store vectors o s).0 ≡ ok u
      → (st : vectors.Store) × (o ≡ some st)
        × ((write_store vectors o s).1.store ≡ st)
        × ((write_store vectors o s).1.rows ≡ s.rows)
  unfolding write_store
  write_store-some none s u h = ground arith
  write_store-some (some st) s u h = (st, refl, refl, refl)

  has_written :
      (id : String) (v : vectors.Vector) (p : Payload) (s : Palace vectors) (u : Unit {0})
      → (upsert_vector vectors id v p s).0 ≡ ok u
      → ((upsert_vector vectors id v p s).1.rows ≡ s.rows)
        × ((t j : String)
            → has t j (upsert_vector vectors id v p s).1.store
              ≡ (if str_eq p.tenant_id t && str_eq id j then true else has t j s.store))
  unfolding upsert_vector
  has_written id v p s u h =
      let (st, e, same, rows) = write_store-some (vectors.upsert id v p s.store) s u h in
      (rows, λ t j. ap (has t j) same ∙ has-upsert id v p s.store st t j e)

  -- What holds after `create` has returned `m`.
  pub record Created (env : Env) (d : Draft) (s s' : Palace vectors) (m : Memory) : Type 0 where
    pub made : m ≡ new_memory env d
    pub rows : s'.rows ≡ s.rows ++ m ∷ []
    pub indexed : has d.tenant_id m.id s'.store ≡ true
    pub others :
        (t j : String)
        → (str_eq d.tenant_id t && str_eq m.id j) ≡ false
        → has t j s'.store ≡ has t j s.store

  hit : (a b c : Bool) → a ≡ true → b ≡ true → (if a && b then true else c) ≡ true
  hit a b c h k = ground arith

  miss : (a c : Bool) → a ≡ false → (if a then true else c) ≡ c
  miss a c h = ground arith

  -- A `create` that returns answers the new memory, whose row is now the last of the table and whose
  -- vector is in the collection of its tenant. The rows that were there, and every other vector, are
  -- as before.
  pub create-Created :
      (env : Env) (d : Draft) (s s' : Palace vectors) (m : Memory)
      → create vectors env d s ≡ (ok m, s')
      → Created env d s s' m
  unfolding create gets set_rows payload_of
  create-Created env d s s' m h =
      let new = new_memory env d in
      let s1 : Palace vectors = record s { rows = s.rows ++ new ∷ [] } in
      let (v, embedded, rest) = >>=-ok (embed_text vectors d.content) _ s1 s' m h in
      let s2 : Palace vectors = (embed_text vectors d.content s1).1 in
      let (u, stored, last) =
        >>=-ok (upsert_vector vectors new.id v (payload_of new d.tenant_id)) _ s2 s' m rest in
      let s3 : Palace vectors =
        (upsert_vector vectors new.id v (payload_of new d.tenant_id) s2).1 in
      let (made, rows, store) = create_tail-frame env d new s3 s' m last in
      let (same, points) = has_written new.id v (payload_of new d.tenant_id) s2 u stored in
      let calm = embed_text-frame d.content s1 (vectors.embed d.content) refl in
      record {
        made = made;
        rows = rows ∙ same ∙ ap (λ z. z.rows) calm ∙ ap (λ z. s.rows ++ z ∷ []) (sym made);
        indexed =
            ap (λ z. has d.tenant_id z.id s'.store) made
            ∙ ap (has d.tenant_id new.id) store
            ∙ points d.tenant_id new.id
            ∙ hit _ _ _ (str_eq_refl d.tenant_id) (str_eq_refl new.id);
        others = λ t j k.
            ap (has t j) store
            ∙ points t j
            ∙ miss _ _ (subst (λ z. (str_eq d.tenant_id t && str_eq z.id j) ≡ false) made k)
            ∙ ap (λ z. has t j z.store) calm;
      }

  has_deleted :
      (ids : List String) (tenant : String) (s : Palace vectors) (u : Unit {0})
      → (delete_vectors vectors ids tenant s).0 ≡ ok u
      → ((delete_vectors vectors ids tenant s).1.rows ≡ s.rows)
        × ((t j : String)
            → has t j (delete_vectors vectors ids tenant s).1.store
              ≡ (if str_eq tenant t && elem j ids then false else has t j s.store))
  unfolding delete_vectors
  has_deleted ids tenant s u h =
      let (st, e, same, rows) = write_store-some (vectors.delete ids tenant s.store) s u h in
      (rows, λ t j. ap (has t j) same ∙ has-delete ids tenant s.store st t j e)

  -- What holds after `delete` has returned true.
  pub record Deleted (memory_id tenant : String) (s s' : Palace vectors) : Type 0 where
    pub was : Memory
    pub found : find? (names memory_id tenant) s.rows ≡ some was
    pub rows : s'.rows ≡ filter (λ r. not (names memory_id tenant r)) s.rows
    pub gone : find? (names memory_id tenant) s'.rows ≡ none
    pub points :
        (t j : String)
        → has t j s'.store
          ≡ (if str_eq tenant t && elem j (memory_id ∷ []) then false else has t j s.store)

  delete_tail-frame :
      (env : Env) (memory_id tenant : String) (s s' : Palace vectors) (b : Bool)
      → (bust_cache vectors env tenant
            >> (publish_event vectors "memory.deleted" tenant memory_id >> pure true))
          s
        ≡ (ok b, s')
      → (s'.rows ≡ s.rows) × (s'.store ≡ s.store)
  unfolding emit bust_cache publish_event
  delete_tail-frame env memory_id tenant s s' b h = ground arith

  find?-filter-not :
      (p : Memory → Bool) (xs : List Memory) → find? p (filter (λ x. not (p x)) xs) ≡ none
  find?-filter-not p [] = refl
  find?-filter-not p (x ∷ xs) = ground (arith, find?-filter-not p xs)

  delete_found-Deleted :
      (env : Env) (found : Option Memory) (memory_id tenant : String) (s s' : Palace vectors)
      → find? (names memory_id tenant) s.rows ≡ found
      → delete_found vectors env found memory_id tenant s ≡ (ok true, s')
      → Deleted memory_id tenant s s'
  unfolding delete_found gets set_rows
  delete_found-Deleted env none memory_id tenant s s' e h = absurd (ground arith)
  delete_found-Deleted env (some m) memory_id tenant s s' e h =
      let s1 : Palace vectors = record s {
        rows = filter (λ r. not (names memory_id tenant r)) s.rows;
      } in
      let (u, removed, last) =
        >>=-ok (delete_vectors vectors (memory_id ∷ []) tenant) _ s1 s' true h in
      let s2 : Palace vectors = (delete_vectors vectors (memory_id ∷ []) tenant s1).1 in
      let (rows, store) = delete_tail-frame env memory_id tenant s2 s' true last in
      let (kept, points) = has_deleted (memory_id ∷ []) tenant s1 u removed in
      record {
        was = m;
        found = e;
        rows = rows ∙ kept;
        gone =
            ap (find? (names memory_id tenant)) (rows ∙ kept)
            ∙ find?-filter-not (names memory_id tenant) s.rows;
        points = λ t j. ap (has t j) store ∙ points t j;
      }

  -- A `delete` that answers true has found a row of that id and tenant; the rows of that id and
  -- tenant are gone from the table and its vector from the tenant's collection; the other rows, of
  -- other tenants with the same id too, and the other vectors are as before.
  pub delete-Deleted :
      (env : Env) (memory_id tenant : String) (s s' : Palace vectors)
      → delete vectors env memory_id tenant s ≡ (ok true, s')
      → Deleted memory_id tenant s s'
  unfolding delete
  delete-Deleted env memory_id tenant s s' h =
      delete_found-Deleted env (find? (names memory_id tenant) s.rows) memory_id tenant s s' refl h
