-- ===== src/Embeddings/Exact.antt =====
-- What the cached embedder answers: what the embedder that it wraps would.
use my_palace.Common.{
  ◌≡◌, refl, sym, ap, ◌∙◌, subst, Bool, true, false, String, Option, none, some, List, [], ◌∷◌, map,
  if◌then◌else◌, inl, inr,
}
use my_palace.Cache.{Backend, Laws, Cache, get, set}
use my_palace.Cache.Entries.{Held, Reread, get-Held, get-keeps, set-Held}
use my_palace.Embeddings.{
  Inner, CachedEmbedder, counted, ask, missing, fill, filled, fetched, embed,
}

module _ (b : Backend) (laws : Laws b) (inner : Inner b) (vec : String → b.Value) where
  -- The embedder answers, one vector for each text, which the text alone decides; json reads in the
  -- text that it wrote for a vector just that vector; and texts that share a key share the vector.
  pub record Reliable : Type 0 where
    pub embeds : (ts : List String) → inner.embed ts ≡ some (map vec ts)
    pub reread : (t : String) (w : b.Value) → Reread b (vec t) w → w ≡ vec t
    pub keyed : (s t : String) → inner.key s ≡ inner.key t → vec s ≡ vec t

  -- What the cache holds under the key of a text is the vector of the text.
  abbrev pub Right : Cache b → Type 0
  Right c = (t : String) (v : b.Value) → Held b c (inner.key t) v → v ≡ vec t

  set-Right :
      (t : String) (c : Cache b)
      → Reliable
      → Right c
      → Right (set b (inner.key t) (vec t) inner.ttl c)
  set-Right t c ok r u v h =
      elim (set-Held b laws (inner.key t) (vec t) inner.ttl c (inner.key u) v h) [
        | inl (same, text) ↦ ok.reread t v text ∙ ok.keyed t u same
        | inr held ↦ r u v held
      ]

  get-Right : (k : String) (c : Cache b) → Right c → Right (get b k c).1
  get-Right k c r t v (raw, g, l) = r t v (raw, rw (get-keeps b k c).0 at g, l)

  -- The values that were found, and for the others the vectors that the embedder gives.
  abbrev Answered : List (String × Option b.Value) → Type 0
  Answered [] = Unit {0}
  Answered ((t, o) ∷ items) = ((v : b.Value) → o ≡ some v → v ≡ vec t) × Answered items

  abbrev texts_of : List (String × Option b.Value) → List String
  texts_of [] = []
  texts_of ((t, o) ∷ items) = t ∷ texts_of items

  counted-cache : (o : Option b.Value) (e : CachedEmbedder b) → (counted b o e).cache ≡ e.cache
  unfolding counted
  counted-cache none e = refl
  counted-cache (some v) e = refl

  ask_lem :
      (ts : List String) (e : CachedEmbedder b)
      → Right e.cache
      → Answered (ask b inner ts e).0
        × (texts_of (ask b inner ts e).0 ≡ ts)
        × Right (ask b inner ts e).1.cache
  unfolding ask
  ask_lem [] e r = (tt, refl, r)
  ask_lem (t ∷ ts) e r =
      let (v, cache) = get b (inner.key t) e.cache in
      let (answered, texts, right) = ask_lem ts (counted b v (record e { cache = cache })) (
        subst Right (sym (counted-cache v (record e { cache = cache })))
          (get-Right (inner.key t) e.cache r)) in
      ((λ w h. r t w (get-Held b (inner.key t) e.cache w h), answered), ap (◌∷◌ t) texts, right)

  fill_lem :
      (items : List (String × Option b.Value)) (e : CachedEmbedder b)
      → Reliable
      → Answered items
      → Right e.cache
      → ((fill b inner items (map vec (missing b items)) e).0 ≡ some (map vec (texts_of items)))
        × Right (fill b inner items (map vec (missing b items)) e).1.cache
  unfolding fill missing
  fill_lem [] e ok a r = (refl, r)
  fill_lem ((t, some v) ∷ items) e ok (h, a) r =
      let (rest, right) = fill_lem items e ok a r in (rw (rest, h v refl), right)
  fill_lem ((t, none) ∷ items) e ok (h, a) r =
      let (rest, right) =
        fill_lem items (record e { cache = set b (inner.key t) (vec t) inner.ttl e.cache }) ok a
          (set-Right t e.cache ok r) in
      (rw rest, right)

  fetched_lem :
      (items : List (String × Option b.Value)) (m : List String) (e : CachedEmbedder b)
      → missing b items ≡ m
      → Reliable
      → Answered items
      → Right e.cache
      → ((fetched b inner items m e).0 ≡ some (map vec (texts_of items)))
        × Right (fetched b inner items m e).1.cache
  unfolding fetched filled
  fetched_lem items [] e none_missing ok a r =
      subst
        (λ m.
          ((fill b inner items (map vec m) e).0 ≡ some (map vec (texts_of items)))
          × Right (fill b inner items (map vec m) e).1.cache)
        none_missing (fill_lem items e ok a r)
  fetched_lem items (t ∷ ts) e some_missing ok a r = rw (ok.embeds (t ∷ ts)) (
      subst
        (λ m.
          ((fill b inner items (map vec m) e).0 ≡ some (map vec (texts_of items)))
          × Right (fill b inner items (map vec m) e).1.cache)
        some_missing (fill_lem items e ok a r))

  if_enabled :
      (on : Bool) (ts : List String) (e : CachedEmbedder b)
      → Reliable
      → Right e.cache
      → (let (items, e') = ask b inner ts e in
          let r : Option (List b.Value) × CachedEmbedder b =
            if on then fetched b inner items (missing b items) e' else (inner.embed ts, e) in
          (r.0 ≡ inner.embed ts) × Right r.1.cache)
  if_enabled true ts e ok r =
      let (a, texts, right) = ask_lem ts e r in
      let (answer, right') =
        fetched_lem (ask b inner ts e).0 (missing b (ask b inner ts e).0) (ask b inner ts e).1 refl
          ok a right in
      (answer ∙ ap (λ l. some (map vec l)) texts ∙ sym (ok.embeds ts), right')
  if_enabled false ts e ok r = (refl, r)

  -- Over an embedder that answers with one vector for each text, which the text alone decides, where
  -- json gives a vector back and texts that share a key share the vector: as long as the cache holds under the key of a
  -- text nothing but its vector, the cached embedder answers what the embedder answers, whichever
  -- calls of Redis fail and whichever texts are there or repeat, and the cache stays so.
  pub embed-Exact :
      (ts : List String) (e : CachedEmbedder b)
      → Reliable
      → Right e.cache
      → ((embed b inner ts e).0 ≡ inner.embed ts) × Right (embed b inner ts e).1.cache
  unfolding embed
  embed-Exact ts e ok r = if_enabled e.cache.enabled ts e ok r
