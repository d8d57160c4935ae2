-- ===== src/Grpc/Guard.antt =====
-- Which remote calls reach their servicer, and as whom.
use my_palace.Common.{◌≡◌, refl, true, false, String, Option, none, some, [], ◌∷◌, Codes, arith}
use my_palace.Auth.Context.{AuthContext, has_scope}
use my_palace.Auth.Keys.{Bcrypt, ApiKey, KeyStore, Env, lookup}
use my_palace.Auth.Keys.Lookup.{Vouches, lookup_sound}
use my_palace.Grpc.{
  required_rpc_scope, AuthVar, continued, check_rpc, check_metadata, intercept_service,
  current_auth,
}

module _ (bcrypt : Bcrypt) where
  -- The identity of a call that goes on.
  pub record Served (method : String) (metadata : Option Codes) (s : KeyStore) (default : String)
      (var : AuthVar) : Type 0 where
    pub text : Codes
    pub key : ApiKey
    pub shown : metadata ≡ some text
    pub vouched : Vouches bcrypt s text (current_auth var default) key
    pub scoped : has_scope (current_auth var default) (required_rpc_scope method) ≡ true

  check_rpc-continued :
      (method : String) (found : Option AuthContext) (var : AuthVar)
      → check_rpc method found ≡ continued var
      → (ctx : AuthContext) × (found ≡ some ctx)
        × (var ≡ some ctx)
        × (has_scope ctx (required_rpc_scope method) ≡ true)
  unfolding check_rpc
  check_rpc-continued method none var h = ground arith
  check_rpc-continued method (some ctx) var h = (ctx, refl, ground arith, ground arith)

  check_metadata-continued :
      (method : String) (metadata : Option Codes) (env : Env) (s : KeyStore) (default : String)
      (var : AuthVar)
      → (check_metadata bcrypt method metadata env s).0 ≡ continued var
      → Served method metadata s default var
  unfolding check_metadata current_auth
  check_metadata-continued method none env s default var h = absurd (ground arith)
  check_metadata-continued method (some []) env s default var h = absurd (ground arith)
  check_metadata-continued method (some (c ∷ text)) env s default var h =
      let (ctx, found, same, scope) =
        check_rpc-continued method (lookup bcrypt (c ∷ text) env s).0 var h in
      let (key, v) = lookup_sound bcrypt (c ∷ text) env s ctx found in
      rw same (record { text = c ∷ text; key = key; shown = refl; vouched = v; scoped = scope })

  -- With auth switched on, a remote call reaches its servicer only with a key in its metadata that
  -- is stored, not revoked and fits by its hash; the servicer works as the identity of that key,
  -- whatever the variable held before, and this has the scope that the table has for the method,
  -- or "write" for a method that the table does not have.
  pub intercept_service-Served :
      (method : String) (metadata : Option Codes) (env : Env) (s : KeyStore) (before var : AuthVar)
      (default : String)
      → (intercept_service bcrypt false method metadata env s before).0 ≡ continued var
      → Served method metadata s default var
  unfolding intercept_service
  intercept_service-Served method metadata env s before var default h =
      check_metadata-continued method metadata env s default var h
