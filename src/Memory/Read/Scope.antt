-- ===== src/Memory/Read/Scope.antt =====
-- What a search may return.
use my_palace.Common.{
  ℕ, suc, ◌≤◌, ◌≡◌, refl, sym, ap, true, String, Option, none, some, List, [], ◌∷◌, map, filter,
  find?, length, str_eq, str_eq_iff, Result, ok, err, if◌then◌else◌, arith, Option-cases,
  Bool-cases, subst, inl, inr, ◌⊎◌, In, In-filter, In-map, find?-some, length-map,
}
use my_palace.Common.Dict
use my_palace.Common.Dict.{Dict}
use my_palace.Memory.{
  Memory, Vectors, Raised, Query, Env, Palace, set_rows, gets, >>=-ok, not_expired, embed_text,
}
use my_palace.Memory.Read.{
  touched, add_scores, hit_ids, searchable, paired, in_order, fetch, search,
}

paired-cases :
    (found : List Memory) (scores : Dict ℕ) (id : String) (rest : List (Memory × ℕ)) (m : Memory)
    (n : ℕ)
    → In (m, n) (paired found scores id rest)
    → (In m found) ⊎ (In (m, n) rest)
unfolding paired
paired-cases found scores id rest m n h = elim (Option-cases (find? (λ k. str_eq k.id id) found)) [
  | inl e ↦ inr (ground arith)
  | inr (k, e) ↦ elim (Option-cases (Dict.get id scores)) [
    | inl f ↦ inr (ground arith)
    | inr (v, f) ↦
        let same : paired found scores id rest ≡ (k, v) ∷ rest = ground arith in
        elim (subst (In (m, n)) same h) [
          | inl q ↦ inl (subst (λ z. In z found) (sym (ap (λ z. z.0) q)) (find?-some _ k found e).0)
          | inr i ↦ inr i
        ]
  ]
]

length-paired :
    (found : List Memory) (scores : Dict ℕ) (id : String) (rest : List (Memory × ℕ))
    → length (paired found scores id rest) ≤ suc (length rest)
unfolding paired
length-paired found scores id rest = ground arith

length-in_order :
    (found : List Memory) (scores : Dict ℕ) (ids : List String)
    → length (in_order found scores ids) ≤ length ids
unfolding in_order
length-in_order found scores [] = omega arith
length-in_order found scores (id ∷ ids) = omega (
  arith,
  length-in_order found scores ids,
  length-paired found scores id (in_order found scores ids),
)

in_order-found :
    (found : List Memory) (scores : Dict ℕ) (ids : List String) (m : Memory) (n : ℕ)
    → In (m, n) (in_order found scores ids)
    → In m found
unfolding in_order
in_order-found found scores [] m n h = absurd h
in_order-found found scores (id ∷ ids) m n h =
    elim (paired-cases found scores id (in_order found scores ids) m n h) [
      | inl i ↦ i
      | inr i ↦ in_order-found found scores ids m n i
    ]

-- A row that a search may return after the touch is the touch of one that it might before.
searchable-touched :
    (tenant : String) (now : ℕ) (ids : List String) (m : Memory)
    → searchable tenant now ids (touched now m) ≡ searchable tenant now ids m
unfolding searchable touched not_expired
searchable-touched tenant now ids m = refl

from_stored :
    (tenant : String) (now : ℕ) (ids : List String) (m : Memory) (rows : List Memory)
    → In m (
        filter
          (searchable tenant now ids)
          (map (λ k. if searchable tenant now ids k then touched now k else k) rows))
    → (old : Memory) × In old rows × (m ≡ touched now old) × (searchable tenant now ids old ≡ true)
from_stored tenant now ids m rows h =
    let (i, good) = In-filter (searchable tenant now ids) m _ h in
    let (old, j, e) = In-map _ m rows i in
    elim (Bool-cases (searchable tenant now ids old)) [
      | inl may ↦ (old, j, ground arith, may)
      | inr never ↦ absurd (ground arith)
    ]

searchable-parts :
    (tenant : String) (now : ℕ) (ids : List String) (m : Memory)
    → searchable tenant now ids m ≡ true
    → (m.tenant_id ≡ tenant) × (not_expired now m ≡ true)
unfolding searchable
searchable-parts tenant now ids m h =
    ((str_eq_iff m.tenant_id tenant).0 (ground arith), ground arith)

abbrev value : Result Raised (List (Memory × ℕ)) → List (Memory × ℕ)
value (ok hits) = hits
value (err e) = []

module _ (vectors : Vectors) where
  -- What is known of a row that a search returns.
  pub record Found (query : Query) (now : ℕ) (s : Palace vectors) (m : Memory) : Type 0 where
    pub old : Memory
    pub stored : In old s.rows
    pub tenant : old.tenant_id ≡ query.tenant_id
    pub alive : not_expired now old ≡ true
    pub touch : m ≡ touched now old

  embed_text-frame :
      (text : String) (s : Palace vectors) (o : Option vectors.Vector)
      → vectors.embed text ≡ o
      → (embed_text vectors text s).1 ≡ s
  unfolding embed_text
  embed_text-frame text s none e = ground arith
  embed_text-frame text s (some v) e = ground arith

  fetch-Found :
      (env : Env) (query : Query) (results : List (String × ℕ)) (s s' : Palace vectors)
      (hits : List (Memory × ℕ))
      → length results ≤ query.limit
      → fetch vectors env query.tenant_id results s ≡ (ok hits, s')
      → (length hits ≤ query.limit)
        × ((m : Memory) (n : ℕ) → In (m, n) hits → Found query env.utcnow s m)
  unfolding fetch gets set_rows
  fetch-Found env query [] s s' hits fits h =
      subst
        (λ z.
          (length z ≤ query.limit)
          × ((m : Memory) (n : ℕ) → In (m, n) z → Found query env.utcnow s m))
        (ap (λ z. value z.0) h) (omega arith, λ m n i. absurd i)
  fetch-Found env query (r ∷ results) s s' hits fits h =
      subst
        (λ z.
          (length z ≤ query.limit)
          × ((m : Memory) (n : ℕ) → In (m, n) z → Found query env.utcnow s m))
        (ap (λ z. value z.0) h)
        (
          omega (
            arith,
            length-in_order _ _ (hit_ids (r ∷ results)),
            length-map (r ∷ results) (λ z. z.0),
            fits,
          ),
          λ m n i.
              let (old, j, e, good) =
                from_stored query.tenant_id env.utcnow (hit_ids (r ∷ results)) m s.rows
                  (in_order-found _ (add_scores [] (r ∷ results)) (hit_ids (r ∷ results)) m n i) in
              let (same, alive) =
                searchable-parts query.tenant_id env.utcnow (hit_ids (r ∷ results)) old good in
              record { old = old; stored = j; tenant = same; alive = alive; touch = e },
        )

  -- A search that returns gives at most `limit` rows, and each is a stored row of the tenant that has
  -- not expired, with its access recorded and nothing else changed, whatever ids the vector store
  -- has answered.
  pub search-Found :
      (env : Env) (text : String) (query : Query) (s s' : Palace vectors) (hits : List (Memory × ℕ))
      → search vectors env text query s ≡ (ok hits, s')
      → (length hits ≤ query.limit)
        × ((m : Memory) (n : ℕ) → In (m, n) hits → Found query env.utcnow s m)
  unfolding search gets
  search-Found env text query s s' hits h =
      let (v, first, rest) = >>=-ok (embed_text vectors text) _ s s' hits h in
      let left : Palace vectors = (embed_text vectors text s).1 in
      subst
        (λ z.
          (length hits ≤ query.limit)
          × ((m : Memory) (n : ℕ) → In (m, n) hits → Found query env.utcnow z m))
        (embed_text-frame text s (vectors.embed text) refl)
        (fetch-Found env query (vectors.search v query left.store) left s' hits
          (vectors.length-search v query left.store) rest)
