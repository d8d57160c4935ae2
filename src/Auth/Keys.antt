-- ===== src/Auth/Keys.antt =====
-- mypalace/auth/key_service.py and mypalace/auth/usage.py: API keys. The table `api_keys` is a list
-- of rows. bcrypt is a parameter, and so are the random texts and ids that a call draws.
pub mod Lookup
pub mod Lifecycle
use my_palace.Common.{
  ℕ, ◌+◌, ◌≡◌, refl, Bool, true, false, not, ◌&&◌, ◌||◌, String, Option, none, some, List, [], ◌∷◌,
  ◌++◌, ◌==◌, leb, length, take, drop, filter, any, all, find?, is_some, is_none, elem, str_eq,
  codes, starts_with, text_eq, Result, ok, err, if◌then◌else◌, map,
}
use my_palace.Common.Dict
use my_palace.Common.Dict.{Dict}
use my_palace.Auth.Tenant.{is_valid_tenant_id}
use my_palace.Auth.Context.{AuthContext, valid_scopes}

abbrev key_prefix_literal : List ℕ
key_prefix_literal = codes "pk_live_"

abbrev random_part_len : ℕ
random_part_len = 32

abbrev prefix_index_len : ℕ
prefix_index_len = 8

-- bcrypt, with the salt as an argument. `checkpw` raises (`none`) on what is no hash.
pub record Bcrypt : Type 0 where
  pub hashpw : List ℕ → ℕ → String
  pub checkpw : List ℕ → String → Option Bool

-- A row of `api_keys`.
pub record ApiKey : Type 0 where
  pub id : String
  pub key_prefix : List ℕ
  pub key_hash : String
  pub label : String
  pub tenant_id : Option String
  pub scopes : List String
  pub created_at : ℕ
  pub last_used_at : Option ℕ
  pub revoked_at : Option ℕ

-- The table, and the process-local record of the last bumps.
pub record KeyStore : Type 0 where
  pub rows : List ApiKey
  pub last_bumps : Dict ℕ

-- What the environment gives to one call: the wall clock, the monotonic clock in seconds, and what
-- a call that mints a key draws.
pub record Env : Type 0 where
  pub utcnow : ℕ
  pub monotonic : ℕ
  pub random : List ℕ
  pub salt : ℕ
  pub fresh_id : String

unfoldable pub split : List ℕ → Option (List ℕ × List ℕ)
split plaintext =
    if not (starts_with key_prefix_literal plaintext)
    then none
    else let random_part = drop (length key_prefix_literal) plaintext in
      if not (length random_part == random_part_len)
      then none
      else some (take prefix_index_len random_part, random_part)

-- UsageTracker.should_update, with its debounce of a minute
pub should_update : String → ℕ → Dict ℕ → Bool × Dict ℕ
should_update key_id now last_bumps =
    let last : ℕ = elim (Dict.get key_id last_bumps) [ none ↦ 0 | some t ↦ t ] in
    if leb (last + 60) now then (true, Dict.put key_id now last_bumps) else (false, last_bumps)

set_last_used : String → ℕ → List ApiKey → List ApiKey
set_last_used key_id now =
    map λ row. if str_eq row.id key_id then record row { last_used_at = some now } else row

pub maybe_bump_last_used : String → Env → KeyStore → KeyStore
unfolding should_update set_last_used
maybe_bump_last_used key_id env s =
    let (due, last_bumps) = should_update key_id env.monotonic s.last_bumps in
    record {
      rows = if due then set_last_used key_id env.utcnow s.rows else s.rows;
      last_bumps = last_bumps;
    }

module _ (bcrypt : Bcrypt) where
  open bcrypt use {hashpw, checkpw}

  pub verify : List ℕ → String → Bool
  verify plaintext hashed = elim (checkpw plaintext hashed) [ none ↦ false | some b ↦ b ]

  -- The first candidate that is not revoked and has the right hash.
  unfoldable pub first_verified : List ℕ → List ApiKey → Option ApiKey
  unfolding verify
  first_verified plaintext =
      find? λ key. if is_some key.revoked_at then false else verify plaintext key.key_hash

  pub context_of : ApiKey → AuthContext
  context_of key = record {
    key_id = key.id;
    label = key.label;
    scopes = key.scopes;
    tenant_id = key.tenant_id;
  }

  pub authenticated : Option ApiKey → Env → KeyStore → Option AuthContext × KeyStore
  unfolding context_of
  authenticated none env s = (none, s)
  authenticated (some key) env s = (some (context_of key), maybe_bump_last_used key.id env s)

  pub lookup_split :
      Option (List ℕ × List ℕ) → List ℕ → Env → KeyStore → Option AuthContext × KeyStore
  unfolding first_verified authenticated
  lookup_split none plaintext env s = (none, s)
  lookup_split (some (prefix, _)) plaintext env s =
      authenticated
        (first_verified plaintext (filter (λ key. text_eq key.key_prefix prefix) s.rows)) env s

  unfoldable pub lookup : List ℕ → Env → KeyStore → Option AuthContext × KeyStore
  unfolding lookup_split
  lookup plaintext env s = lookup_split (split plaintext) plaintext env s

-- What `create_key` raises as a ValueError.
pub data KeyError : Type 0 where
  invalid_scopes no_scopes invalid_tenant : KeyError

-- `sorted(frozenset(scopes))` where every scope is a valid one
pub sorted_scopes : List String → List String
sorted_scopes scopes = filter (λ v. elem v scopes) ("admin" ∷ "read" ∷ "unlimited" ∷ "write" ∷ [])

is_nil : List String → Bool
is_nil [] = true
is_nil (s ∷ scopes) = false

pub validate_scopes : List String → Result KeyError (List String)
unfolding sorted_scopes is_nil
validate_scopes scopes =
    if any (λ s. not (elem s valid_scopes)) scopes
    then err invalid_scopes
    else if is_nil scopes
    then err no_scopes
    else ok (sorted_scopes scopes)

tenant_ok : Option String → Bool
tenant_ok none = true
tenant_ok (some t) = is_valid_tenant_id (codes t)

module _ (bcrypt : Bcrypt) where
  open bcrypt use {hashpw}

  pub new_key : List ℕ → String → Option String → List String → Env → ApiKey
  new_key plaintext label tenant_id scopes env = record {
    id = env.fresh_id;
    key_prefix = take prefix_index_len (drop (length key_prefix_literal) plaintext);
    key_hash = hashpw plaintext env.salt;
    label = label;
    tenant_id = tenant_id;
    scopes = scopes;
    created_at = env.utcnow;
    last_used_at = none;
    revoked_at = none;
  }

  abbrev pub add_row : ApiKey → KeyStore → KeyStore
  add_row key s = record s { rows = s.rows ++ key ∷ [] }

  pub create_with :
      Result KeyError (List String)
      → String
      → Option String
      → Env
      → KeyStore
      → Result KeyError (ApiKey × List ℕ) × KeyStore
  unfolding new_key tenant_ok
  create_with (err e) label tenant_id env s = (err e, s)
  create_with (ok scopes) label tenant_id env s =
      let plaintext = key_prefix_literal ++ env.random in
      let key = new_key plaintext label tenant_id scopes env in
      if tenant_ok tenant_id then (ok (key, plaintext), add_row key s) else (err invalid_tenant, s)

  unfoldable pub create_key :
      String
      → List String
      → Option String
      → Env
      → KeyStore
      → Result KeyError (ApiKey × List ℕ) × KeyStore
  unfolding create_with validate_scopes
  create_key label scopes tenant_id env s =
      create_with (validate_scopes scopes) label tenant_id env s

  insert_admin : Option (List ℕ × List ℕ) → List ℕ → Env → KeyStore → Bool × KeyStore
  unfolding new_key
  insert_admin none plaintext env s = (false, s)
  insert_admin (some _) plaintext env s = (
    true,
    add_row (new_key plaintext "bootstrap-admin" none ("read" ∷ "write" ∷ "admin" ∷ []) env) s,
  )

  mint_admin : Option (List ℕ) → Env → KeyStore → Bool × KeyStore
  unfolding insert_admin
  mint_admin none env s = (false, s)
  mint_admin (some plaintext) env s = insert_admin (split plaintext) plaintext env s

  unfoldable pub has_admin : KeyStore → Bool
  has_admin s = any (λ k. elem "admin" k.scopes) (filter (λ k. is_none k.revoked_at) s.rows)

  unfoldable pub bootstrap_if_needed : Option (List ℕ) → Env → KeyStore → Bool × KeyStore
  unfolding mint_admin
  bootstrap_if_needed plaintext env s =
      if has_admin s then (false, s) else mint_admin plaintext env s

set_revoked : String → ℕ → List ApiKey → List ApiKey
set_revoked key_id now =
    map λ row. if str_eq row.id key_id then record row { revoked_at = some now } else row

revoke_row : Option ApiKey → String → Env → KeyStore → Bool × KeyStore
unfolding set_revoked
revoke_row none key_id env s = (false, s)
revoke_row (some row) key_id env s =
    if is_some row.revoked_at
    then (true, s)
    else (true, record s { rows = set_revoked key_id env.utcnow s.rows })

unfoldable pub revoke : String → Env → KeyStore → Bool × KeyStore
unfolding revoke_row
revoke key_id env s = revoke_row (find? (λ row. str_eq row.id key_id) s.rows) key_id env s
