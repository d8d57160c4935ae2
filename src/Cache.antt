-- ===== src/Cache.antt =====
-- mypalace/cache/client.py: values under keys in Redis, as JSON. Redis and json are parameters; where
-- one of their calls gives `none`, it raises, and the cache counts that as a miss.
pub mod Entries
pub mod Calls
pub mod Tests
use Prim.Native.String.{◌++◌}
use my_palace.Common.Dict
use my_palace.Common.Dict.{Dict}
use my_palace.Common.{
  ℕ, ◌+◌, ◌≡◌, Bool, true, false, String, Option, none, some, List, [], ◌∷◌, str_eq, if◌then◌else◌,
  ◌⊎◌,
}

-- `parts.get("tenant_id", "default")`, of parameters with their values as texts
unfoldable pub tenant_of : Dict String → String
tenant_of parts = elim (Dict.get "tenant_id" parts) [ some tenant ↦ tenant | none ↦ "default" ]

-- derive_key, with the digest of the JSON of the parameters
pub derive_key : (Dict String → String) → String → Dict String → String
unfolding tenant_of
derive_key digest namespace parts =
    "palace:cache:" ++ tenant_of parts ++ ":" ++ namespace ++ ":" ++ digest parts

pub record Backend : Type 1 where
  pub Store : Type 0
  pub Value : Type 0
  pub get : String → Store → Option (Option String)
  -- `SET key value EX ttl`
  pub set : String → String → ℕ → Store → Option Store
  pub scan : String → Store → Option (List String)
  pub delete : String → Store → Option Store
  -- `json.dumps(value, default=str)` and `json.loads`
  pub dumps : Value → Option String
  pub loads : String → Option Value
  -- `value is None`, and the list and the dict of some values
  pub is_none : Value → Bool
  pub list_of : List Value → Value
  pub dict_of : List (String × Value) → Value

-- What is relied on: a text that is found after a SET is the one that was set there, or was found
-- before; and a DELETE finds nothing new.
pub record Laws (b : Backend) : Type 0 where
  pub get-set :
      (k j raw text : String) (ttl : ℕ) (s s' : b.Store)
      → b.set k text ttl s ≡ some s'
      → b.get j s' ≡ some (some raw)
      → ((k ≡ j) × (raw ≡ text)) ⊎ (b.get j s ≡ some (some raw))
  pub get-delete :
      (k j raw : String) (s s' : b.Store)
      → b.delete k s ≡ some s'
      → b.get j s' ≡ some (some raw)
      → b.get j s ≡ some (some raw)

module _ (b : Backend) where
  pub record Cache : Type 0 where
    pub enabled : Bool
    pub store : b.Store
    pub hits : ℕ
    pub misses : ℕ

  pub missed : Cache → Option b.Value × Cache
  missed c = (none, record c { misses = c.misses + 1 })

  -- A text that was found counts as a hit, also when it is no JSON.
  pub decoded : Option b.Value → Cache → Option b.Value × Cache
  unfolding missed
  decoded (some v) c = (some v, record c { hits = c.hits + 1 })
  decoded none c = missed (record c { hits = c.hits + 1 })

  pub found : Option (Option String) → Cache → Option b.Value × Cache
  unfolding missed decoded
  found none c = missed c
  found (some none) c = missed c
  found (some (some raw)) c = decoded (b.loads raw) c

  unfoldable pub get : String → Cache → Option b.Value × Cache
  unfolding found
  get key c = if c.enabled then found (b.get key c.store) c else (none, c)

  -- A write that fails leaves what was there.
  pub stored : Option b.Store → Cache → Cache
  stored none c = c
  stored (some s) c = record c { store = s }

  pub encoded : Option String → String → ℕ → Cache → Cache
  unfolding stored
  encoded none key ttl c = c
  encoded (some text) key ttl c = stored (b.set key text ttl c.store) c

  unfoldable pub set : String → b.Value → ℕ → Cache → Cache
  unfolding encoded
  set key v ttl c = if c.enabled then encoded (b.dumps v) key ttl c else c

  -- The loop over the keys that match, and the number of those that it has deleted; a failure ends
  -- it with the answer 0.
  pub delete_keys : List String → ℕ → Cache → ℕ × Cache
  delete_keys [] count c = (count, c)
  delete_keys (k ∷ ks) count c = elim (b.delete k c.store) [
    | none ↦ (0, c)
    | some s ↦ delete_keys ks (count + 1) (record c { store = s })
  ]

  pub scanned : Option (List String) → Cache → ℕ × Cache
  unfolding delete_keys
  scanned none c = (0, c)
  scanned (some ks) c = delete_keys ks 0 c

  unfoldable pub invalidate_pattern : String → Cache → ℕ × Cache
  unfolding scanned
  invalidate_pattern pattern c = if c.enabled then scanned (b.scan pattern c.store) c else (0, c)

  unfoldable pub invalidate_tenant_namespace : String → String → Cache → ℕ × Cache
  invalidate_tenant_namespace tenant_id namespace c =
      invalidate_pattern ("palace:cache:" ++ tenant_id ++ ":" ++ namespace ++ ":*") c
