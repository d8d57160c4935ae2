-- ===== src/Entities.antt =====
-- mypalace/entity_service.py: names for identifiers, a table with a cache for each tenant.
mod Prefixes
pub mod Table
pub mod Cache
pub mod Tests
unfoldable pub use Prefixes.{strip_platform_prefix}
use my_palace.Common.{
  ℕ, Bool, true, false, ◌&&◌, String, Option, none, some, List, [], ◌∷◌, ◌++◌, map, filter, any,
  str_eq, leb, find?, ◌==◌, codes, lower, text_eq, sort_by, is_some, Codes, if◌then◌else◌,
}
use my_palace.Common.Dict
use my_palace.Common.Dict.{Dict}

pub record EntityAlias : Type 0 where
  pub id : String
  pub tenant_id : String
  pub identifier : String
  pub canonical_name : String
  pub source : String
  pub created_at : ℕ
  pub updated_at : ℕ

-- The table, which all processes share, and the cache of this one.
pub record EntityService : Type 0 where
  pub rows : List EntityAlias
  pub cache : Dict (Dict String)

-- `{row[0]: row[1] for row in …}`, on top of a mapping
unfoldable pub mapping_onto : String → List EntityAlias → Dict String → Dict String
mapping_onto tenant_id [] m = m
mapping_onto tenant_id (r ∷ rows) m =
    mapping_onto tenant_id rows
      (if str_eq r.tenant_id tenant_id then Dict.put r.identifier r.canonical_name m else m)

-- _load_tenant
unfoldable pub load_tenant : String → EntityService → Dict String × EntityService
load_tenant tenant_id s =
    let m = mapping_onto tenant_id s.rows [] in
    (m, record s { cache = Dict.put tenant_id m s.cache })

ensured : Option (Dict String) → String → EntityService → Dict String × EntityService
unfolding load_tenant
ensured (some cached) tenant_id s = (cached, s)
ensured none tenant_id s = load_tenant tenant_id s

-- _ensure_loaded
unfoldable pub ensure_loaded : String → EntityService → Dict String × EntityService
unfolding ensured
ensure_loaded tenant_id s = ensured (Dict.get tenant_id s.cache) tenant_id s

-- The name that is found first: for the identifier, for its bare form, or itself.
pub or_bare : Option String → String → Option String → Dict String → String
or_bare (some name) identifier bare m = name
or_bare none identifier none m = identifier
or_bare none identifier (some bare) m = elim (Dict.get bare m) [
  | some name ↦ name
  | none ↦ identifier
]

pub resolved : String → Dict String → String
unfolding or_bare
resolved identifier m =
    or_bare (Dict.get identifier m) identifier (strip_platform_prefix identifier) m

unfoldable pub resolve : String → String → EntityService → String × EntityService
unfolding resolved
resolve identifier tenant_id s =
    let (m, s') = ensure_loaded tenant_id s in (resolved identifier m, s')

-- What a registration draws from its surroundings.
pub record Env : Type 0 where
  pub now : ℕ
  pub fresh_id : String

abbrev pub names_alias : String → String → EntityAlias → Bool
names_alias tenant_id identifier r = str_eq r.tenant_id tenant_id && str_eq r.identifier identifier

-- `INSERT … ON CONFLICT (tenant_id, identifier) DO UPDATE`
unfoldable pub upsert :
    Env → String → String → String → String → List EntityAlias → List EntityAlias
upsert env identifier canonical_name tenant_id source rows =
    if any (names_alias tenant_id identifier) rows
    then map
        (λ r.
          if names_alias tenant_id identifier r
          then record r { canonical_name = canonical_name; source = source; updated_at = env.now }
          else r)
        rows
    else rows
      ++ (record {
        id = env.fresh_id;
        tenant_id = tenant_id;
        identifier = identifier;
        canonical_name = canonical_name;
        source = source;
        created_at = env.now;
        updated_at = env.now;
      })
        ∷ []

-- `cache.setdefault(tenant_id, {})`
unfoldable pub slot : String → Dict (Dict String) → Dict String
slot tenant_id cache = elim (Dict.get tenant_id cache) [ some m ↦ m | none ↦ [] ]

-- The table and the cache after a registration.
unfoldable pub registered : Env → String → String → String → String → EntityService → EntityService
unfolding upsert slot
registered env identifier canonical_name tenant_id source s = record {
  rows = upsert env identifier canonical_name tenant_id source s.rows;
  cache = Dict.put tenant_id (Dict.put identifier canonical_name (slot tenant_id s.cache)) s.cache;
}

-- The row that the statement returns is the one of that identifier.
unfoldable pub register :
    Env → String → String → String → String → EntityService → Option EntityAlias × EntityService
unfolding registered
register env identifier canonical_name tenant_id source s =
    let s' = registered env identifier canonical_name tenant_id source s in
    (find? (names_alias tenant_id identifier) s'.rows, s')

-- The order of texts, by their code points.
text_le : Codes → Codes → Bool
text_le [] t = true
text_le (c ∷ s) [] = false
text_le (c ∷ s) (d ∷ t) = let rest = text_le s t in if c == d then rest else leb c d

-- `[ident for ident, name in mapping.items() if name.lower() == target]`
named : Codes → Dict String → List String
named target [] = []
named target ((ident, name) ∷ m) =
    let rest = named target m in if text_eq (lower (codes name)) target then ident ∷ rest else rest

unfoldable pub list_for_canonical : String → String → EntityService → List String × EntityService
unfolding named text_le
list_for_canonical canonical_name tenant_id s =
    let (m, s') = ensure_loaded tenant_id s in
    (sort_by (λ a b. text_le (codes a) (codes b)) (named (lower (codes canonical_name)) m), s')

-- `d.pop(k, None)`
pub without : String → Dict (Dict String) → Dict (Dict String)
without k = filter λ e. if str_eq e.0 k then false else true

unfoldable pub invalidate_cache : Option String → EntityService → EntityService
unfolding without
invalidate_cache none s = record s { cache = [] }
invalidate_cache (some tenant_id) s = record s { cache = without tenant_id s.cache }
