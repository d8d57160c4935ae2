-- ===== src/Cache/Entries.antt =====
-- What the cache holds under a key, before and after a call.
use my_palace.Common.{
  ℕ, ◌+◌, ◌≡◌, refl, sym, ap, ◌∙◌, Bool, true, false, String, Option, none, some, List, [], ◌∷◌,
  if◌then◌else◌, ◌⊎◌, inl, inr, arith, Option-cases,
}
use my_palace.Cache.{
  Backend, Laws, Cache, get, set, found, decoded, missed, stored, encoded, delete_keys, scanned,
  invalidate_pattern,
}

module _ (b : Backend) where
  -- A value that can be read under a key.
  abbrev pub Held : Cache b → String → b.Value → Type 0
  Held c k v = (raw : String) × (b.get k c.store ≡ some (some raw)) × (b.loads raw ≡ some v)

  -- What json reads in the text that it has written for a value.
  abbrev pub Reread : b.Value → b.Value → Type 0
  Reread v w = (raw : String) × (b.dumps v ≡ some raw) × (b.loads raw ≡ some w)

  decoded-some :
      (o : Option b.Value) (c : Cache b) (v : b.Value) → (decoded b o c).0 ≡ some v → o ≡ some v
  unfolding decoded missed
  decoded-some none c v h = absurd (ground arith)
  decoded-some (some w) c v h = h

  found-Held :
      (o : Option (Option String)) (c : Cache b) (v : b.Value)
      → (found b o c).0 ≡ some v
      → (raw : String) × (o ≡ some (some raw)) × (b.loads raw ≡ some v)
  unfolding found missed
  found-Held none c v h = absurd (ground arith)
  found-Held (some none) c v h = absurd (ground arith)
  found-Held (some (some raw)) c v h = (raw, refl, decoded-some (b.loads raw) c v h)

  if_found-Held :
      (on : Bool) (k : String) (c : Cache b) (v : b.Value)
      → (if on then found b (b.get k c.store) c else (none, c)).0 ≡ some v
      → Held c k v
  if_found-Held true k c v h = found-Held (b.get k c.store) c v h
  if_found-Held false k c v h = absurd (ground arith)

  -- What a `get` answers is held.
  pub get-Held : (k : String) (c : Cache b) (v : b.Value) → (get b k c).0 ≡ some v → Held c k v
  unfolding get
  get-Held k c v h = if_found-Held c.enabled k c v h

  Same : Cache b → Cache b → Type 0
  Same c d = (d.store ≡ c.store) × (d.enabled ≡ c.enabled)

  found-Same : (o : Option (Option String)) (c : Cache b) → Same c (found b o c).1
  unfolding found missed decoded Same
  found-Same none c = (refl, refl)
  found-Same (some none) c = (refl, refl)
  found-Same (some (some raw)) c = ground arith

  if_found-Same :
      (on : Bool) (o : Option (Option String)) (c : Cache b)
      → Same c (if on then found b o c else (none, c)).1
  unfolding Same
  if_found-Same true o c = found-Same o c
  if_found-Same false o c = (refl, refl)

  -- A `get` changes the counts alone.
  pub get-keeps :
      (k : String) (c : Cache b)
      → ((get b k c).1.store ≡ c.store) × ((get b k c).1.enabled ≡ c.enabled)
  unfolding get Same
  get-keeps k c = if_found-Same c.enabled (b.get k c.store) c

  module _ (laws : Laws b) where
    stored-Held :
        (o : Option b.Store) (k text : String) (ttl : ℕ) (c : Cache b) (v w : b.Value) (j : String)
        → b.set k text ttl c.store ≡ o
        → b.dumps v ≡ some text
        → Held (stored b o c) j w
        → ((k ≡ j) × Reread v w) ⊎ Held c j w
    unfolding stored
    stored-Held none k text ttl c v w j e d h = inr h
    stored-Held (some s) k text ttl c v w j e d (raw, g, l) =
        elim (laws.get-set k j raw text ttl c.store s e g) [
          | inl (same, text_is) ↦ inl (same, (raw, d ∙ ap some (sym text_is), l))
          | inr g' ↦ inr (raw, g', l)
        ]

    encoded-Held :
        (o : Option String) (k : String) (ttl : ℕ) (c : Cache b) (v w : b.Value) (j : String)
        → b.dumps v ≡ o
        → Held (encoded b o k ttl c) j w
        → ((k ≡ j) × Reread v w) ⊎ Held c j w
    unfolding encoded
    encoded-Held none k ttl c v w j d h = inr h
    encoded-Held (some text) k ttl c v w j d h =
        stored-Held (b.set k text ttl c.store) k text ttl c v w j refl d h

    if_encoded-Held :
        (on : Bool) (k : String) (v : b.Value) (ttl : ℕ) (c : Cache b) (j : String) (w : b.Value)
        → Held (if on then encoded b (b.dumps v) k ttl c else c) j w
        → ((k ≡ j) × Reread v w) ⊎ Held c j w
    if_encoded-Held true k v ttl c j w h = encoded-Held (b.dumps v) k ttl c v w j refl h
    if_encoded-Held false k v ttl c j w h = inr h

    -- What is held after a `set` is what JSON makes of the value that was set, or was held before.
    pub set-Held :
        (k : String) (v : b.Value) (ttl : ℕ) (c : Cache b) (j : String) (w : b.Value)
        → Held (set b k v ttl c) j w
        → ((k ≡ j) × Reread v w) ⊎ Held c j w
    unfolding set
    set-Held k v ttl c j w h = if_encoded-Held c.enabled k v ttl c j w h

    delete_keys-Held :
        (ks : List String) (n : ℕ) (c : Cache b) (j : String) (w : b.Value)
        → Held (delete_keys b ks n c).1 j w
        → Held c j w
    unfolding delete_keys
    delete_keys-Held [] n c j w h = h
    delete_keys-Held (k ∷ ks) n c j w h = elim (Option-cases (b.delete k c.store)) [
      | inl e ↦ rw (e, delete_keys) at h
      | inr (s, e) ↦
          let (raw, g, l) =
            delete_keys-Held ks (n + 1) (record c { store = s }) j w (rw (e, delete_keys) at h) in
          (raw, laws.get-delete k j raw c.store s e g, l)
    ]

    scanned-Held :
        (on : Bool) (o : Option (List String)) (c : Cache b) (j : String) (w : b.Value)
        → Held (if on then scanned b o c else (0, c)).1 j w
        → Held c j w
    unfolding scanned
    scanned-Held true none c j w h = h
    scanned-Held true (some ks) c j w h = delete_keys-Held ks 0 c j w h
    scanned-Held false o c j w h = h

    -- An invalidation finds nothing new.
    pub invalidate_pattern-Held :
        (pattern : String) (c : Cache b) (j : String) (w : b.Value)
        → Held (invalidate_pattern b pattern c).1 j w
        → Held c j w
    unfolding invalidate_pattern
    invalidate_pattern-Held pattern c j w h =
        scanned-Held c.enabled (b.scan pattern c.store) c j w h
