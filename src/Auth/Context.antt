-- ===== src/Auth/Context.antt =====
-- mypalace/auth/context.py: the identity of a request and the tenant that it works for. The context
-- variable of mypalace/tenancy.py is the `Option String` that is handed through.
use my_palace.Common.{
  ◌≡◌, ◌≢◌, refl, ◌⊎◌, inl, inr, Bool, String, Option, none, some, List, [], ◌∷◌, arith, Bool-cases,
  str_eq, str_eq_iff, elem, or_default, Result, ok, err, if◌then◌else◌,
}

pub record AuthContext : Type 0 where
  pub key_id : String
  pub label : String
  pub scopes : List String
  pub tenant_id : Option String

abbrev pub valid_scopes : List String
valid_scopes = "read" ∷ "write" ∷ "admin" ∷ "unlimited" ∷ []

unfoldable pub has_scope : AuthContext → String → Bool
has_scope auth scope = elem scope auth.scopes

-- A request that a dependency refuses, by its status.
pub data HttpError : Type 0 where
  unauthenticated : HttpError  -- 401
  forbidden : HttpError  -- 403

pub require : AuthContext → String → Result HttpError (Unit {0})
require auth scope = if elem scope auth.scopes then ok tt else err forbidden

-- The context variable of the running request.
abbrev pub CurrentTenant : Type 0
CurrentTenant = Option String

unfoldable pub set_current_tenant : Option String → CurrentTenant → CurrentTenant
set_current_tenant tenant current = tenant

-- A key that is bound to a tenant.
pub resolve_bound : String → Option String → Result HttpError String
resolve_bound own none = ok own
resolve_bound own (some wanted) = if str_eq wanted own then ok own else err forbidden

pub resolve_as : Option String → Option String → String → Result HttpError String
unfolding resolve_bound
resolve_as (some own) request default = resolve_bound own request
resolve_as none request default = ok (or_default request default)

-- The variable is set when a tenant is found, and left alone when the request is refused.
pub seat : Result HttpError String → CurrentTenant → Result HttpError String × CurrentTenant
unfolding set_current_tenant
seat (ok tenant) current = (ok tenant, set_current_tenant (some tenant) current)
seat (err e) current = (err e, current)

pub resolve_tenant :
    AuthContext → Option String → String → CurrentTenant → Result HttpError String × CurrentTenant
unfolding resolve_as seat
resolve_tenant auth request default current =
    seat (resolve_as auth.tenant_id request default) current

unfoldable pub all_scopes : String → AuthContext
all_scopes default = record {
  key_id = "disabled";
  label = "auth-disabled";
  scopes = valid_scopes;
  tenant_id = some default;
}

pub get_auth_context : Option AuthContext → Result HttpError AuthContext
get_auth_context none = err unauthenticated
get_auth_context (some auth) = ok auth

-- A key bound to a tenant works for that tenant alone: a request that names another is refused and
-- the context variable keeps its value, and any other request runs with the key's tenant in it.
resolve_tenant-bound :
    (auth : AuthContext) (own default : String) (request : Option String) (current : CurrentTenant)
    → auth.tenant_id ≡ some own
    → ((wanted : String) × (request ≡ some wanted)
        × (wanted ≢ own)
        × (resolve_tenant auth request default current ≡ (err forbidden, current)))
      ⊎ (resolve_tenant auth request default current ≡ (ok own, some own))
unfolding resolve_tenant
resolve_tenant-bound auth own default none current h = inr (rw (h, resolve_as))
resolve_tenant-bound auth own default (some wanted) current h =
    elim (Bool-cases (str_eq wanted own)) [
      | inl e ↦ inr (rw (h, resolve_as) (rw e))
      | inr e ↦ inl (wanted, refl, ground (arith, str_eq_iff wanted own), rw (h, resolve_as) (rw e))
    ]

-- A key with no tenant takes the tenant that the request names, or the default.
pub resolve_tenant-unbound :
    (auth : AuthContext) (default : String) (request : Option String) (current : CurrentTenant)
    → auth.tenant_id ≡ none
    → resolve_tenant auth request default current
      ≡ (ok (or_default request default), some (or_default request default))
unfolding resolve_tenant
resolve_tenant-unbound auth default request current h = rw (h, resolve_as)
