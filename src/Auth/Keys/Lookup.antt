-- ===== src/Auth/Keys/Lookup.antt =====
-- Whom `lookup` lets in.
use my_palace.Common.{
  ℕ, ◌≡◌, refl, true, Option, none, some, List, arith, In, In-filter, find?-some,
}
use my_palace.Auth.Context.{AuthContext}
use my_palace.Auth.Keys.{
  Bcrypt, ApiKey, KeyStore, Env, split, verify, first_verified, context_of, authenticated,
  lookup_split, lookup,
}

module _ (bcrypt : Bcrypt) where
  -- What stands behind an identity that `lookup` returned.
  pub record Vouches (s : KeyStore) (plaintext : List ℕ) (ctx : AuthContext) (key : ApiKey)
      : Type 0 where
    pub stored : In key s.rows
    pub live : key.revoked_at ≡ none
    pub right : verify bcrypt plaintext key.key_hash ≡ true
    pub same : ctx ≡ context_of bcrypt key

  first_verified-some :
      (plaintext : List ℕ) (rows : List ApiKey) (key : ApiKey)
      → first_verified bcrypt plaintext rows ≡ some key
      → In key rows × (key.revoked_at ≡ none) × (verify bcrypt plaintext key.key_hash ≡ true)
  unfolding first_verified
  first_verified-some plaintext rows key h =
      let (i, t) = find?-some _ key rows h in (i, ground arith, ground arith)

  authenticated-some :
      (found : Option ApiKey) (env : Env) (s : KeyStore) (ctx : AuthContext)
      → (authenticated bcrypt found env s).0 ≡ some ctx
      → (key : ApiKey) × (found ≡ some key) × (ctx ≡ context_of bcrypt key)
  unfolding authenticated
  authenticated-some none env s ctx h = cc
  authenticated-some (some key) env s ctx h = (key, refl, ground arith)

  lookup_split_sound :
      (parts : Option (List ℕ × List ℕ)) (plaintext : List ℕ) (env : Env) (s : KeyStore)
      (ctx : AuthContext)
      → (lookup_split bcrypt parts plaintext env s).0 ≡ some ctx
      → (key : ApiKey) × Vouches s plaintext ctx key
  unfolding lookup_split
  lookup_split_sound none plaintext env s ctx h = cc
  lookup_split_sound (some (prefix, r)) plaintext env s ctx h =
      let (key, e, same) = authenticated-some _ env s ctx h in
      let (i, live, right) = first_verified-some plaintext _ key e in
      (
        key,
        record { stored = (In-filter _ key s.rows i).0; live = live; right = right; same = same },
      )

  -- Whoever is let in shows a stored key that is not revoked and whose hash fits, and has the
  -- scopes and the tenant of its row.
  pub lookup_sound :
      (plaintext : List ℕ) (env : Env) (s : KeyStore) (ctx : AuthContext)
      → (lookup bcrypt plaintext env s).0 ≡ some ctx
      → (key : ApiKey) × Vouches s plaintext ctx key
  unfolding lookup
  lookup_sound plaintext env s ctx h = lookup_split_sound (split plaintext) plaintext env s ctx h
