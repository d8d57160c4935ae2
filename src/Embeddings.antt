-- ===== src/Embeddings.antt =====
-- mypalace/embeddings.py: CachedEmbedder, which asks the cache before the embedder that it wraps.
pub mod Exact
pub mod Tests
use my_palace.Common.{
  ℕ, suc, ◌+◌, ◌≡◌, Bool, true, false, String, Option, none, some, List, [], ◌∷◌, ◌++◌, map,
  if◌then◌else◌,
}
use my_palace.Cache.{Backend, Cache, get, set}

module _ (b : Backend) where
  abbrev Vector : Type 0
  Vector = b.Value

  -- The wrapped embedder and the keys of texts; `none` is a call that raises.
  pub record Inner : Type 0 where
    pub embed : List String → Option (List b.Value)
    pub key : String → String
    pub ttl : ℕ

  pub record CachedEmbedder : Type 0 where
    pub cache : Cache b
    pub hits : ℕ
    pub misses : ℕ

  pub counted : Option b.Value → CachedEmbedder → CachedEmbedder
  counted none e = record e { misses = e.misses + 1 }
  counted (some v) e = record e { hits = e.hits + 1 }

  -- The loop that asks the cache for each text.
  pub ask : Inner → List String → CachedEmbedder → List (String × Option b.Value) × CachedEmbedder
  unfolding counted
  ask inner [] e = ([], e)
  ask inner (t ∷ ts) e =
      let (v, cache) = get b (inner.key t) e.cache in
      let (rest, e') = ask inner ts (counted v (record e { cache = cache })) in ((t, v) ∷ rest, e')

  -- `miss_texts`
  pub missing : List (String × Option b.Value) → List String
  missing [] = []
  missing ((t, none) ∷ items) = t ∷ missing items
  missing ((t, some v) ∷ items) = missing items

  abbrev pub prepend : b.Value → Option (List b.Value) → Option (List b.Value)
  prepend v none = none
  prepend v (some vs) = some (v ∷ vs)

  -- The loop over the misses and the new vectors, whose `zip` is strict, with the list that is
  -- returned.
  pub fill :
      Inner
      → List (String × Option b.Value)
      → List b.Value
      → CachedEmbedder
      → Option (List b.Value) × CachedEmbedder
  fill inner [] [] e = (some [], e)
  fill inner [] (v ∷ vs) e = (none, e)
  fill inner ((t, some v) ∷ items) vs e =
      let (rest, e') = fill inner items vs e in (prepend v rest, e')
  fill inner ((t, none) ∷ items) [] e = (none, e)
  fill inner ((t, none) ∷ items) (v ∷ vs) e =
      let (rest, e') =
        fill inner items vs (record e { cache = set b (inner.key t) v inner.ttl e.cache }) in
      (prepend v rest, e')

  pub filled :
      Inner
      → List (String × Option b.Value)
      → Option (List b.Value)
      → CachedEmbedder
      → Option (List b.Value) × CachedEmbedder
  unfolding fill
  filled inner items none e = (none, e)
  filled inner items (some vs) e = fill inner items vs e

  -- `if misses_idx`
  pub fetched :
      Inner
      → List (String × Option b.Value)
      → List String
      → CachedEmbedder
      → Option (List b.Value) × CachedEmbedder
  unfolding filled
  fetched inner items [] e = filled inner items (some []) e
  fetched inner items (t ∷ ts) e = filled inner items (inner.embed (t ∷ ts)) e

  unfoldable pub embed :
      Inner → List String → CachedEmbedder → Option (List b.Value) × CachedEmbedder
  unfolding ask missing fetched
  embed inner texts e =
      let (items, e') = ask inner texts e in
      if e.cache.enabled then fetched inner items (missing items) e' else (inner.embed texts, e)
