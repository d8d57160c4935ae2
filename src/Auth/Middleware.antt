-- ===== src/Auth/Middleware.antt =====
-- mypalace/auth/middleware.py: the checks that every request passes before its route.
use my_palace.Common.{
  ℕ, ◌≡◌, refl, Bool, true, false, String, Option, none, some, List, [], ◌∷◌, arith, Bool-cases,
  inl, inr, if◌then◌else◌, codes, starts_with,
}
use my_palace.Auth.Scopes.{is_public, upper, required_scope}
use my_palace.Auth.Scopes.Table.{described_scope, required_scope-described, is_public-not_v1}
use my_palace.Auth.Context.{AuthContext, CurrentTenant, set_current_tenant, has_scope, all_scopes}
use my_palace.Auth.Keys.{Bcrypt, ApiKey, KeyStore, Env, lookup}
use my_palace.Auth.Keys.Lookup.{Vouches, lookup_sound}

pub record Settings : Type 0 where
  pub auth_disabled : Bool
  pub default_tenant_id : String

-- A request, with the value of its X-Palace-Key header.
pub record Request : Type 0 where
  pub method : List ℕ
  pub path : List ℕ
  pub header : Option (List ℕ)

-- The middleware answers by itself, with a status and an error code, or hands the request to the
-- route with `request.state.auth` and the context variable of the tenant.
pub data Outcome : Type 0 where
  answered : ℕ → String → Outcome
  forwarded : Option AuthContext → CurrentTenant → Outcome

seated : Option String → CurrentTenant → CurrentTenant
unfolding set_current_tenant
seated none current = current
seated (some tenant) current = set_current_tenant (some tenant) current

-- From the scope check on.
pub check_scope : Request → Option AuthContext → CurrentTenant → Outcome
unfolding seated
check_scope r none current = answered 401 "unauthenticated"
check_scope r (some ctx) current =
    if has_scope ctx (required_scope r.method r.path)
    then forwarded (some ctx) (seated ctx.tenant_id current)
    else answered 403 "forbidden"

module _ (bcrypt : Bcrypt) where
  pub check_key : Request → Option (List ℕ) → Env → KeyStore → CurrentTenant → Outcome × KeyStore
  unfolding check_scope
  check_key r none env s current = (answered 401 "unauthenticated", s)
  check_key r (some []) env s current = (answered 401 "unauthenticated", s)
  check_key r (some (c ∷ text)) env s current =
      let (ctx, s') = lookup bcrypt (c ∷ text) env s in (check_scope r ctx current, s')

  unfoldable pub dispatch : Settings → Request → Env → KeyStore → CurrentTenant → Outcome × KeyStore
  unfolding check_key set_current_tenant all_scopes
  dispatch settings r env s current =
      if settings.auth_disabled
      then (
        forwarded (some (all_scopes settings.default_tenant_id))
            (set_current_tenant (some settings.default_tenant_id) current),
        s,
      )
      else if is_public r.path
      then (forwarded none current, s)
      else check_key r r.header env s current

  -- Why a request was let through to its route.
  pub record Admitted (r : Request) (s : KeyStore) (current after : CurrentTenant)
      (ctx : AuthContext) (key : ApiKey) (text : List ℕ) : Type 0 where
    pub shown : r.header ≡ some text
    pub vouched : Vouches bcrypt s text ctx key
    pub scoped : has_scope ctx (described_scope (upper r.method) r.path) ≡ true
    pub seats : (own : String) → ctx.tenant_id ≡ some own → after ≡ some own

  check_scope-forwarded :
      (r : Request) (found : Option AuthContext) (current after : CurrentTenant)
      (auth : Option AuthContext)
      → check_scope r found current ≡ forwarded auth after
      → (ctx : AuthContext) × (found ≡ some ctx)
        × (auth ≡ some ctx)
        × (has_scope ctx (required_scope r.method r.path) ≡ true)
        × ((own : String) → ctx.tenant_id ≡ some own → after ≡ some own)
  unfolding check_scope
  check_scope-forwarded r none current after auth h = ground arith
  check_scope-forwarded r (some ctx) current after auth h =
      (ctx, refl, ground arith, ground arith, λ own e. ground arith)

  check_key-forwarded :
      (r : Request) (header : Option (List ℕ)) (env : Env) (s : KeyStore)
      (current after : CurrentTenant) (auth : Option AuthContext)
      → r.header ≡ header
      → (check_key r header env s current).0 ≡ forwarded auth after
      → (ctx : AuthContext) × (key : ApiKey) × (text : List ℕ) × (auth ≡ some ctx)
        × Admitted r s current after ctx key text
  unfolding check_key
  check_key-forwarded r none env s current after auth e h = ground arith
  check_key-forwarded r (some []) env s current after auth e h = ground arith
  check_key-forwarded r (some (c ∷ text)) env s current after auth e h =
      let (ctx, found, same, scope, seats) =
        check_scope-forwarded r (lookup bcrypt (c ∷ text) env s).0 current after auth h in
      let (key, v) = lookup_sound bcrypt (c ∷ text) env s ctx found in
      (
        ctx,
        key,
        c ∷ text,
        same,
        record {
          shown = e;
          vouched = v;
          scoped = rw required_scope-described at scope;
          seats = seats;
        },
      )

  -- With auth switched on, a request for a path under /v1/ reaches its route only with a key that is
  -- stored, not revoked and fits by its hash, whose scopes hold the one that the table describes for
  -- the method and path; and if the key is bound to a tenant, that tenant is the current one.
  pub dispatch_guards :
      (settings : Settings) (r : Request) (env : Env) (s : KeyStore) (current after : CurrentTenant)
      (auth : Option AuthContext)
      → settings.auth_disabled ≡ false
      → starts_with (codes "/v1/") r.path ≡ true
      → (dispatch settings r env s current).0 ≡ forwarded auth after
      → (ctx : AuthContext) × (key : ApiKey) × (text : List ℕ) × (auth ≡ some ctx)
        × Admitted r s current after ctx key text
  unfolding dispatch
  dispatch_guards settings r env s current after auth on v1 h =
      elim (Bool-cases (is_public r.path)) [
        | inl e ↦ cc (is_public-not_v1 r.path e)
        | inr e ↦ check_key-forwarded r r.header env s current after auth refl (rw (on, e) at h)
      ]
