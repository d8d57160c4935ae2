-- ===== src/Ingestion/Pipeline/Superseded.antt =====
-- What a manual correction leaves.
use my_palace.Common.{
  ◌≡◌, refl, sym, ap, ◌∙◌, Bool, true, ◌||◌, String, Option, none, some, [], ◌∷◌, ◌++◌, map, find?,
  find?-some, str_eq, str_eq_refl, str_eq_iff, ok, if◌then◌else◌, arith, subst, Bool-cases, inl,
  inr, In, In-map, In-append_left, In-append_right, filter-In,
}
use my_palace.Memory.{
  Memory, Metadata, Vectors, Env, Palace, pure, >>=-ok, names, gets, set_rows, publish_event,
}
use my_palace.Memory.Write.{create, Draft, new_memory}
use my_palace.Memory.Write.Success.{create-Created}
use my_palace.Memory.Read
use my_palace.Ingestion.Pipeline.{
  Library, memory_call, change, noted, snapshot_old, record_supersession, replaced,
  supersede_memory, get_supersessions, Supersession,
}
use my_palace.Ingestion.Pipeline.Counted.{snapshot-rows, ok-inj}

some-inj : {A : Type 0} {a b : A} → ◌≡◌ {A = Option A} (some a) (some b) → a ≡ b
some-inj {A} {a} {b} h = ap (λ (o : Option A). elim o [ none ↦ a | some x ↦ x ]) h

module _ (vectors : Vectors) where
  record_supersession-eq :
      (env : Env) (row : Supersession) (l l' : Library vectors) (u : Unit {0})
      → record_supersession vectors env row l ≡ (ok u, l')
      → (l'.palace.rows ≡ l.palace.rows) × (l'.supersessions ≡ l.supersessions ++ row ∷ [])
  unfolding record_supersession change noted snapshot_old gets publish_event
  record_supersession-eq env row l l' u h =
      let (x, second, last) =
        >>=-ok (memory_call vectors (snapshot_old vectors env row))
          (λ _.
            memory_call vectors
              (publish_event vectors "memory.superseded" row.tenant_id row.superseded_id))
          (noted vectors row l) l' u h in
      let kept =
        snapshot-rows vectors env (find? (λ m. str_eq m.id row.superseded_id) l.palace.rows) row
          l.palace in
      subst (λ z. (z.palace.rows ≡ l.palace.rows) × (z.supersessions ≡ l.supersessions ++ row ∷ []))
        (ap (λ z. z.1) last) (kept, refl)

  -- What `supersede_memory` has done when it returns a row: the new memory is the last of the table
  -- and has the type, the agent and the source of the old one; the old one is still stored, touched
  -- and no more; and the history of both ids shows the row.
  pub record Superseded (env : Env) (old_id content user_id tenant : String)
      (l l' : Library vectors) (row : Supersession) : Type 0 where
    pub old : Memory
    pub new : Memory
    pub was : In old l.palace.rows
    pub named : names old_id tenant old ≡ true
    pub stored : In (Read.touched env.utcnow old) l'.palace.rows
    pub added : In new l'.palace.rows
    pub contents : new.content ≡ content
    pub inherited :
        (new.memory_type ≡ old.memory_type)
        × (new.agent_id ≡ old.agent_id)
        × (new.source ≡ old.source)
    pub linked : (row.superseded_id ≡ old_id) × (row.new_id ≡ new.id)
    pub told_old : In row (get_supersessions vectors old_id tenant l')
    pub told_new : In row (get_supersessions vectors new.id tenant l')

  told :
      (row : Supersession) (id tenant : String) (l l' : Library vectors)
      → l'.supersessions ≡ l.supersessions ++ row ∷ []
      → row.tenant_id ≡ tenant
      → (str_eq row.superseded_id id || str_eq row.new_id id) ≡ true
      → In row (get_supersessions vectors id tenant l')
  unfolding get_supersessions
  told row id tenant l l' e t h =
      filter-In _ row l'.supersessions
        (subst (In row) (sym e) (In-append_right row l.supersessions (row ∷ []) (inl refl)))
        (rw ((str_eq_iff row.tenant_id tenant).1 t, h) refl)

  or_right : (a b : Bool) → b ≡ true → (a || b) ≡ true
  or_right a b h = ground arith

  or_left : (a b : Bool) → a ≡ true → (a || b) ≡ true
  or_left a b h = ground arith

  -- What `get` gives is the touch of a stored row, and stands in the table then.
  get-some :
      (env : Env) (id tenant : String) (s : Palace vectors) (m : Memory)
      → (Read.get vectors env id tenant s).0 ≡ ok (some m)
      → (old : Memory) × In old s.rows
        × (names id tenant old ≡ true)
        × (m ≡ Read.touched env.utcnow old)
        × In m (Read.get vectors env id tenant s).1.rows
  unfolding Read.get gets set_rows Read.touched
  get-some env id tenant s m h =
      let rows =
        map (λ (m : Memory). if names id tenant m then Read.touched env.utcnow m else m) s.rows in
      let (i, good) = find?-some (names id tenant) m rows (ok-inj h) in
      let (old, j, e) = In-map _ m s.rows i in
      elim (Bool-cases (names id tenant old)) [
        | inl hit ↦ (old, j, hit, e ∙ rw hit refl, i)
        | inr miss ↦
            let plain : m ≡ old = e ∙ rw miss refl in
            absurd (ground (arith, ap (names id tenant) plain))
      ]

  replaced-Superseded :
      (env : Env) (o : Option Memory) (old_id content user_id reason : String)
      (metadata : Option Metadata) (tenant : String) (l l1 l' : Library vectors)
      (row : Supersession)
      → ((m : Memory)
          → o ≡ some m
          → (old : Memory) × In old l.palace.rows
            × (names old_id tenant old ≡ true)
            × (m ≡ Read.touched env.utcnow old)
            × In m l1.palace.rows)
      → replaced vectors env o old_id content user_id reason metadata tenant l1
        ≡ (ok (some row), l')
      → Superseded env old_id content user_id tenant l l' row
  unfolding replaced new_memory Read.touched
  replaced-Superseded env none old_id content user_id reason metadata tenant l l1 l' row origin h =
      absurd (ground arith)
  replaced-Superseded env (some m) old_id content user_id reason metadata tenant l l1 l' row origin
        h =
      let (old, was, named, touch, there) = origin m refl in
      let d : Draft = record {
        user_id = user_id;
        content = content;
        memory_type = m.memory_type;
        agent_id = m.agent_id;
        source = m.source;
        importance = m.importance;
        metadata = metadata;
        tenant_id = tenant;
        ttl_seconds = none;
      } in
      let (new, made, rest) =
        >>=-ok (memory_call vectors (create vectors env d)) _ l1 l' (some row) h in
      let l2 : Library vectors = (memory_call vectors (create vectors env d) l1).1 in
      let entry : Supersession = record {
        tenant_id = tenant;
        superseded_id = old_id;
        new_id = new.id;
        user_id = user_id;
        reason = reason;
        similarity_score = none;
      } in
      let (u, third, last) =
        >>=-ok (record_supersession vectors env entry) (λ _. pure (some entry)) l2 l' (some row)
          rest in
      let l3 : Library vectors = (record_supersession vectors env entry l2).1 in
      let c =
        create-Created vectors env d l1.palace l2.palace new (ap (λ z. (z, l2.palace)) made) in
      let (rows, links) = record_supersession-eq env entry l2 l3 u (ap (λ z. (z, l3)) third) in
      let same : entry ≡ row = some-inj (ok-inj (ap (λ z. z.0) last)) in
      let all : l3.palace.rows ≡ l1.palace.rows ++ new ∷ [] = rows ∙ c.rows in
      let done : Superseded env old_id content user_id tenant l l3 entry = record {
        old = old;
        new = new;
        was = was;
        named = named;
        stored =
            subst (λ z. In z l3.palace.rows) touch
              (subst (In m) (sym all) (In-append_left m l1.palace.rows (new ∷ []) there));
        added = subst (In new) (sym all) (In-append_right new l1.palace.rows (new ∷ []) (inl refl));
        contents = ap (λ (z : Memory). z.content) c.made;
        inherited = (
          ap (λ (z : Memory). z.memory_type) c.made ∙ ap (λ (z : Memory). z.memory_type) touch,
          ap (λ (z : Memory). z.agent_id) c.made ∙ ap (λ (z : Memory). z.agent_id) touch,
          ap (λ (z : Memory). z.source) c.made ∙ ap (λ (z : Memory). z.source) touch,
        );
        linked = (refl, refl);
        told_old = told entry old_id tenant l2 l3 links refl (or_left _ _ (str_eq_refl old_id));
        told_new = told entry new.id tenant l2 l3 links refl (or_right _ _ (str_eq_refl new.id));
      } in
      subst (λ z. Superseded env old_id content user_id tenant l l' z) same
        (subst (λ z. Superseded env old_id content user_id tenant l z entry) (ap (λ z. z.1) last)
          done)

  -- A `supersede_memory` that returns a row has put a new memory with the new content beside the old
  -- one, of the same type, agent and source; the old one is still stored with its access recorded, and
  -- the history of either id in the tenant shows the row that links them.
  supersede_memory-Superseded :
      (env : Env) (old_id content user_id reason : String) (metadata : Option Metadata)
      (tenant : String) (l l' : Library vectors) (row : Supersession)
      → supersede_memory vectors env old_id content user_id reason metadata tenant l
        ≡ (ok (some row), l')
      → Superseded env old_id content user_id tenant l l' row
  unfolding supersede_memory
  supersede_memory-Superseded env old_id content user_id reason metadata tenant l l' row h =
      let (o, got, rest) =
        >>=-ok (memory_call vectors (Read.get vectors env old_id tenant)) _ l l' (some row) h in
      replaced-Superseded env o old_id content user_id reason metadata tenant l
        (memory_call vectors (Read.get vectors env old_id tenant) l).1 l' row
        (λ m e. get-some env old_id tenant l.palace m (got ∙ ap ok e)) rest
