-- ===== src/Auth/Keys/Lifecycle.antt =====
-- A key from its minting to its revocation.
use my_palace.Common.{
  ℕ, ◌≡◌, ◌≢◌, refl, sym, ap, ◌∙◌, true, false, String, Option, none, some, List, ◌++◌, arith,
  find?, In, In-map, any-filter_last, find?-filter_last, find?-some, text_eq, text_eq_refl,
  starts_with, is_some, is_none, Bool-cases, inl, inr, length, take, elem, str_eq, str_eq_iff,
  Result, ok, err,
}
use my_palace.Auth.Context.{AuthContext}
use my_palace.Auth.Keys.{
  Bcrypt, ApiKey, KeyStore, Env, KeyError, split, verify, first_verified, context_of, authenticated,
  lookup_split, lookup, key_prefix_literal, prefix_index_len, sorted_scopes, validate_scopes,
  new_key, add_row, create_with, create_key, insert_admin, mint_admin, has_admin,
  bootstrap_if_needed, set_revoked, revoke_row, revoke,
}
use my_palace.Auth.Keys.Lookup.{lookup_sound}

validate_scopes-ok :
    (scopes valid : List String) → validate_scopes scopes ≡ ok valid → valid ≡ sorted_scopes scopes
unfolding validate_scopes
validate_scopes-ok scopes valid h = ground arith

split-minted :
    (random : List ℕ)
    → length random ≡ 32
    → split (key_prefix_literal ++ random) ≡ some (take prefix_index_len random, random)
unfolding split starts_with
split-minted random h = rw h

module _ (bcrypt : Bcrypt) where
  open bcrypt use {hashpw, checkpw}

  create_with-ok :
      (valid : Result KeyError (List String)) (label : String) (tenant_id : Option String)
      (env : Env) (s : KeyStore) (key : ApiKey) (plaintext : List ℕ) (s' : KeyStore)
      → create_with bcrypt valid label tenant_id env s ≡ (ok (key, plaintext), s')
      → (scopes : List String) × (valid ≡ ok scopes)
        × (plaintext ≡ key_prefix_literal ++ env.random)
        × (key ≡ new_key bcrypt plaintext label tenant_id scopes env)
        × (s' ≡ add_row bcrypt key s)
  unfolding create_with
  create_with-ok (err e) label tenant_id env s key plaintext s' h = ground arith
  create_with-ok (ok scopes) label tenant_id env s key plaintext s' h =
      (scopes, refl, ground arith, ground arith, ground arith)

  create_key-ok :
      (label : String) (scopes : List String) (tenant_id : Option String) (env : Env) (s : KeyStore)
      (key : ApiKey) (plaintext : List ℕ) (s' : KeyStore)
      → create_key bcrypt label scopes tenant_id env s ≡ (ok (key, plaintext), s')
      → (plaintext ≡ key_prefix_literal ++ env.random)
        × (key ≡ new_key bcrypt plaintext label tenant_id (sorted_scopes scopes) env)
        × (s' ≡ add_row bcrypt key s)
  unfolding create_key
  create_key-ok label scopes tenant_id env s key plaintext s' h =
      let (valid, v, text, row, after) =
        create_with-ok (validate_scopes scopes) label tenant_id env s key plaintext s' h in
      (text, rw (← validate_scopes-ok scopes valid v) row, after)

  verify-hashpw :
      ((p : List ℕ) (salt : ℕ) → checkpw p (hashpw p salt) ≡ some true)
      → (p : List ℕ) (salt : ℕ) → verify bcrypt p (hashpw p salt) ≡ true
  unfolding verify
  verify-hashpw law p salt = rw (law p salt, verify)

  lookup-add_row :
      (later : Env) (s : KeyStore) (key : ApiKey) (plaintext prefix rest : List ℕ)
      → split plaintext ≡ some (prefix, rest)
      → key.key_prefix ≡ prefix
      → key.revoked_at ≡ none
      → verify bcrypt plaintext key.key_hash ≡ true
      → first_verified bcrypt plaintext s.rows ≡ none
      → (lookup bcrypt plaintext later (add_row bcrypt key s)).0 ≡ some (context_of bcrypt key)
  unfolding lookup authenticated first_verified
  lookup-add_row later s key plaintext prefix rest parts same live right novel =
      rw (parts, lookup_split)
        (rw (
          find?-filter_last _ (λ k. text_eq k.key_prefix prefix) s.rows key novel
            (rw same (text_eq_refl prefix)) (ground arith)))

  -- A key that was just minted opens the door: the text that `create_key` returned is let in under
  -- the scopes and the tenant that were asked for, when bcrypt accepts its own hashes, the random
  -- part has its length, and no stored key accepts the same text.
  pub create_key-lookup :
      (label : String) (scopes : List String) (tenant_id : Option String) (env later : Env)
      (s s' : KeyStore) (key : ApiKey) (plaintext : List ℕ)
      → ((p : List ℕ) (salt : ℕ) → checkpw p (hashpw p salt) ≡ some true)
      → length env.random ≡ 32
      → first_verified bcrypt plaintext s.rows ≡ none
      → create_key bcrypt label scopes tenant_id env s ≡ (ok (key, plaintext), s')
      → (lookup bcrypt plaintext later s').0
        ≡ some (record {
          key_id = env.fresh_id;
          label = label;
          scopes = sorted_scopes scopes;
          tenant_id = tenant_id;
        })
  unfolding context_of new_key
  create_key-lookup label scopes tenant_id env later s s' key plaintext law len novel h =
      let (text, row, after) = create_key-ok label scopes tenant_id env s key plaintext s' h in
      rw after (
        lookup-add_row later s key plaintext (take prefix_index_len env.random) env.random
          (rw text (split-minted env.random len)) (rw (row, text)) (rw row)
          (rw row (verify-hashpw law plaintext env.salt)) novel
        ∙ rw row)

  has_admin-add_row :
      (s : KeyStore) (key : ApiKey)
      → elem "admin" key.scopes ≡ true
      → key.revoked_at ≡ none
      → has_admin bcrypt (add_row bcrypt key s) ≡ true
  unfolding has_admin
  has_admin-add_row s key e r =
      any-filter_last (λ k. elem "admin" k.scopes) (λ k. is_none k.revoked_at) s.rows key
        (ground arith) e

  insert_admin-has_admin :
      (parts : Option (List ℕ × List ℕ)) (plaintext : List ℕ) (env : Env) (s : KeyStore)
      → (insert_admin bcrypt parts plaintext env s).0 ≡ true
      → has_admin bcrypt (insert_admin bcrypt parts plaintext env s).1 ≡ true
  unfolding insert_admin
  insert_admin-has_admin none plaintext env s h = cc
  insert_admin-has_admin (some parts) plaintext env s h = has_admin-add_row s _ refl refl

  mint_admin-has_admin :
      (plaintext : Option (List ℕ)) (env : Env) (s : KeyStore)
      → (mint_admin bcrypt plaintext env s).0 ≡ true
      → has_admin bcrypt (mint_admin bcrypt plaintext env s).1 ≡ true
  unfolding mint_admin
  mint_admin-has_admin none env s h = cc
  mint_admin-has_admin (some plaintext) env s h =
      insert_admin-has_admin (split plaintext) plaintext env s h

  -- Once `bootstrap_if_needed` has answered True, another call, whatever key the environment gives
  -- then, answers False and changes nothing.
  bootstrap_once :
      (plaintext again : Option (List ℕ)) (env later : Env) (s : KeyStore)
      → (bootstrap_if_needed bcrypt plaintext env s).0 ≡ true
      → bootstrap_if_needed bcrypt again later (bootstrap_if_needed bcrypt plaintext env s).1
        ≡ (false, (bootstrap_if_needed bcrypt plaintext env s).1)
  unfolding bootstrap_if_needed
  bootstrap_once plaintext again env later s h = elim (Bool-cases (has_admin bcrypt s)) [
    | inl e ↦ rw e (rw e)
    | inr e ↦ rw e (rw (mint_admin-has_admin plaintext env s (rw e at h)))
  ]

module _ (s : KeyStore) where
  -- `id` is the primary key of the table.
  abbrev pub IsKeyed : Type 0
  IsKeyed = (k j : ApiKey) → In k s.rows → In j s.rows → k.id ≡ j.id → k ≡ j

-- Every row of this id is revoked.
abbrev Locked : String → List ApiKey → Type 0
Locked key_id rows = (k : ApiKey) → In k rows → k.id ≡ key_id → is_some k.revoked_at ≡ true

set_revoked-Locked :
    (key_id : String) (now : ℕ) (rows : List ApiKey) → Locked key_id (set_revoked key_id now rows)
unfolding set_revoked
set_revoked-Locked key_id now rows k i e =
    let (j, ij, ej) = In-map _ k rows i in ground (arith, str_eq_iff j.id key_id)

revoke_row-Locked :
    (found : Option ApiKey) (key_id : String) (env : Env) (s : KeyStore)
    → find? (λ row. str_eq row.id key_id) s.rows ≡ found
    → IsKeyed s
    → (revoke_row found key_id env s).0 ≡ true
    → Locked key_id (revoke_row found key_id env s).1.rows
unfolding revoke_row
revoke_row-Locked none key_id env s e keyed h = cc
revoke_row-Locked (some row) key_id env s e keyed h = elim (Bool-cases (is_some row.revoked_at)) [
  | inl r ↦ rw r λ k i q. rw (keyed k row i found.0 (q ∙ sym named)) r
  | inr r ↦ rw r (set_revoked-Locked key_id env.utcnow s.rows)
]
  where
    found : In row s.rows × (str_eq row.id key_id ≡ true)
    found = find?-some _ row s.rows e

    named : row.id ≡ key_id
    named = (str_eq_iff row.id key_id).0 found.1

revoke-Locked :
    (key_id : String) (env : Env) (s : KeyStore)
    → IsKeyed s
    → (revoke key_id env s).0 ≡ true
    → Locked key_id (revoke key_id env s).1.rows
unfolding revoke
revoke-Locked key_id env s keyed h = revoke_row-Locked _ key_id env s refl keyed h

-- Once `revoke` has returned True for a key, no text gets in as that key against the table that it
-- left. The ids of the table are distinct.
pub revoke-locks_out :
    (bcrypt : Bcrypt) (key_id : String) (env later : Env) (s : KeyStore) (plaintext : List ℕ)
    (ctx : AuthContext)
    → IsKeyed s
    → (revoke key_id env s).0 ≡ true
    → (lookup bcrypt plaintext later (revoke key_id env s).1).0 ≡ some ctx
    → ctx.key_id ≢ key_id
unfolding context_of
revoke-locks_out bcrypt key_id env later s plaintext ctx keyed h found same =
    let (key, v) = lookup_sound bcrypt plaintext later (revoke key_id env s).1 ctx found in
    let locked = revoke-Locked key_id env s keyed h key v.stored (named key v.same) in
    cc (locked, v.live)
  where
    named : (key : ApiKey) → ctx ≡ context_of bcrypt key → key.id ≡ key_id
    named key e = sym (ap (λ c. c.key_id) e) ∙ same
