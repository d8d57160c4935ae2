-- ===== src/Auth/Scopes.antt =====
-- mypalace/auth/scopes.py: public paths, and the scope that a method and a path require.
-- Paths and methods are lists of code points. `fnmatch.fnmatchcase` of the standard library is
-- modelled for the patterns of the table, which hold no `?` and no `[`.
pub mod Globs
pub mod Table
use my_palace.Common.{
  ℕ, ◌-◌, String, Bool, true, false, ◌&&◌, ◌||◌, List, [], ◌∷◌, map, ◌==◌, leb, if◌then◌else◌, any,
  codes, starts_with, text_eq,
}

is_empty : List ℕ → Bool
is_empty [] = true
is_empty (c ∷ s) = false

some_suffix : (List ℕ → Bool) → List ℕ → Bool
some_suffix f [] = f []
some_suffix f (c ∷ s) = f (c ∷ s) || some_suffix f s

literal : ℕ → (List ℕ → Bool) → List ℕ → Bool
literal c f [] = false
literal c f (d ∷ s) = (c == d) && f s

-- `fnmatch.fnmatchcase(path, pattern)`, the pattern first: `*` stands for any text, slashes too.
unfoldable pub fnmatchcase : List ℕ → List ℕ → Bool
unfolding is_empty some_suffix literal
fnmatchcase [] s = is_empty s
fnmatchcase (c ∷ p) s =
    if c == b'*' then some_suffix (fnmatchcase p) s else literal c (fnmatchcase p) s

pub record ScopeRule : Type 0 where
  pub method : List ℕ
  pub path : List ℕ
  pub scope : String

abbrev rule : String → String → String → ScopeRule
rule m p s = record { method = codes m; path = codes p; scope = s }

unfoldable pub scope_rules : List ScopeRule
scope_rules =
    rule "*" "/v1/admin/*" "admin"
    ∷ rule "*" "/v1/admin" "admin"
    ∷ rule "*" "/v1/maintenance/*" "admin"
    ∷ rule "*" "/v1/maintenance" "admin"
    ∷ rule "POST" "/v1/memories/search" "read"
    ∷ rule "POST" "/v1/memories/list" "read"
    ∷ rule "POST" "/v1/episodes/search" "read"
    ∷ rule "POST" "/v1/intentions/check" "read"
    ∷ rule "POST" "/v1/intentions/format" "read"
    ∷ rule "POST" "/v1/context" "read"
    ∷ rule "POST" "/v1/context/*" "read"
    ∷ rule "GET" "/v1/*" "read"
    ∷ rule "GET" "/v1/*/*" "read"
    ∷ rule "GET" "/v1/*/*/*" "read"
    ∷ rule "*" "/v1/*" "write"
    ∷ rule "*" "/v1/*/*" "write"
    ∷ rule "*" "/v1/*/*/*" "write"
    ∷ []

pub public_paths : List (List ℕ)
public_paths =
    codes "/health"
    ∷ codes "/health/deep"
    ∷ codes "/live"
    ∷ codes "/ready"
    ∷ codes "/metrics"
    ∷ codes "/docs"
    ∷ codes "/redoc"
    ∷ codes "/openapi.json"
    ∷ codes "/docs/oauth2-redirect"
    ∷ []

unfoldable pub is_public : List ℕ → Bool
unfolding public_paths
is_public path =
    if any (text_eq path) public_paths
    then true
    else if starts_with (codes "/docs/") path || starts_with (codes "/redoc/") path
    then true
    else text_eq path (codes "/admin") || starts_with (codes "/admin/") path

-- `str.upper` on an HTTP method, which is ASCII.
unfoldable pub upper : List ℕ → List ℕ
upper = map λ c. if leb b'a' c && leb c b'z' then c - 32 else c

-- A rule applies to the method that it names, or to any.
pub method_fits : List ℕ → List ℕ → Bool
method_fits wanted method = text_eq wanted (codes "*") || text_eq wanted method

unfoldable pub first_match : List ScopeRule → List ℕ → List ℕ → String
unfolding method_fits
first_match [] method path = "write"
first_match (r ∷ rules) method path =
    let rest = first_match rules method path in
    if method_fits r.method method && fnmatchcase r.path path then r.scope else rest

unfoldable pub required_scope : List ℕ → List ℕ → String
required_scope method path = first_match scope_rules (upper method) path
