-- ===== src/Memory.antt =====
-- mypalace/memory_service.py: the rows, what a call reads and writes besides them, and the actions
-- that its methods are built from. A table is the list of its rows. The embedder and Qdrant are a
-- parameter. Times are seconds; a float that is only stored is a number.
pub mod Write
pub mod Sweep
pub mod Read
pub mod Reembed
pub mod Tests
use my_palace.Common.{
  ℕ, suc, ◌+◌, ◌≡◌, Bool, true, false, ◌&&◌, ◌||◌, String, Option, none, some, List, [], ◌∷◌, ◌++◌,
  map, max, ltb, leb, filter, any, length, str_eq, elem, Result, ok, err, if◌then◌else◌, ◌≤◌, refl,
  arith,
}
use my_palace.Common.Dict.{Dict}

-- A JSON object with its values as texts.
abbrev pub Metadata : Type 0
Metadata = Dict String

pub record Memory : Type 0 where
  pub id : String
  pub tenant_id : String
  pub user_id : String
  pub agent_id : Option String
  pub content : String
  pub memory_type : String
  pub source : Option String
  pub importance : ℕ
  pub metadata_json : Option Metadata
  pub access_count : ℕ
  pub created_at : ℕ
  pub updated_at : ℕ
  pub accessed_at : Option ℕ
  pub expires_at : Option ℕ

pub record MemoryVersion : Type 0 where
  pub memory_id : String
  pub tenant_id : String
  pub user_id : String
  pub version_number : ℕ
  pub content : String
  pub metadata_json : Option Metadata
  pub change_kind : String

-- The payload of a vector, with the tenant that `upsert` adds.
pub record Payload : Type 0 where
  pub user_id : String
  pub agent_id : Option String
  pub memory_type : String
  pub tenant_id : String

-- The arguments of a vector search.
pub record Query : Type 0 where
  pub limit : ℕ
  pub user_id : Option String
  pub agent_id : Option String
  pub memory_type : Option String
  pub min_score : ℕ
  pub tenant_id : String

-- The embedder and Qdrant: `none` is a call that raises. `has t id` says that the collection of the
-- tenant `t` holds a point `id`.
pub record Vectors : Type 1 where
  pub Store : Type 0
  pub Vector : Type 0
  pub embed : String → Option Vector
  pub upsert : String → Vector → Payload → Store → Option Store
  pub delete : List String → String → Store → Option Store
  pub search : Vector → Query → Store → List (String × ℕ)
  pub has : String → String → Store → Bool
  pub has-upsert :
      (id : String) (v : Vector) (p : Payload) (s s' : Store) (t j : String)
      → upsert id v p s ≡ some s'
      → has t j s' ≡ (if str_eq p.tenant_id t && str_eq id j then true else has t j s)
  pub has-delete :
      (ids : List String) (tenant : String) (s s' : Store) (t j : String)
      → delete ids tenant s ≡ some s'
      → has t j s' ≡ (if str_eq tenant t && elem j ids then false else has t j s)
  pub length-search : (v : Vector) (q : Query) (s : Store) → length (search v q s) ≤ q.limit

-- What a call leaves behind outside the tables, in order.
pub data Effect : Type 0 where
  graph_node : String → String → Effect  -- memory, tenant
  busted : String → String → Effect  -- tenant, namespace
  published : String → String → String → Effect  -- event type, tenant, memory

pub data Raised : Type 0 where
  embedding_failed vector_store_failed : Raised

-- A method: it may raise, and what it has written before stays.
abbrev pub Action {ℓ κ} : Type κ → Type ℓ → Type (ℓ ⊔ κ)
Action S A = S → Result Raised A × S

module _ {ℓ κ} {S : Type κ} {A : Type ℓ} where
  abbrev pub pure : A → Action S A
  pure a s = (ok a, s)

module _ {ℓ ℓ' κ} {S : Type κ} {A : Type ℓ} {B : Type ℓ'} where
  abbrev pub continue : Result Raised A → (A → Action S B) → Action S B
  continue (ok a) f s = f a s
  continue (err e) f s = (err e, s)

  infixl 10 ◌>>=◌ ◌>>◌
  abbrev pub ◌>>=◌ : Action S A → (A → Action S B) → Action S B
  ◌>>=◌ m f s = let (r, s') = m s in continue r f s'

  abbrev pub ◌>>◌ : Action S A → Action S B → Action S B
  m >> n = m >>= λ _. n

-- A step that went through, taken apart.
module _ {ℓ ℓ' κ} {S : Type κ} {A : Type ℓ} {B : Type ℓ'} where
  continue-ok :
      (r : Result Raised A) (f : A → Action S B) (s s' : S) (b : B)
      → continue r f s ≡ (ok b, s')
      → (a : A) × (r ≡ ok a) × (f a s ≡ (ok b, s'))
  continue-ok (ok a) f s s' b h = (a, refl, h)
  continue-ok (err e) f s s' b h = ground arith

  pub >>=-ok :
      (m : Action S A) (f : A → Action S B) (s s' : S) (b : B)
      → (m >>= f) s ≡ (ok b, s')
      → (a : A) × ((m s).0 ≡ ok a) × (f a (m s).1 ≡ (ok b, s'))
  >>=-ok m f s s' b h = continue-ok (m s).0 f (m s).1 s' b h

-- What the environment gives to a call. The version table may fail, and then the call goes on.
pub record Env : Type 0 where
  pub utcnow : ℕ
  pub fresh_id : String
  pub cache_enabled : Bool
  pub versions_readable : Bool
  pub versions_writable : Bool

-- `expires_at IS NULL OR expires_at > now`
pub not_expired : ℕ → Memory → Bool
not_expired now m = elim m.expires_at [ none ↦ true | some t ↦ ltb now t ]

-- `id = :id AND tenant_id = :tenant`
abbrev pub names : String → String → Memory → Bool
names memory_id tenant_id m = str_eq m.id memory_id && str_eq m.tenant_id tenant_id

module _ (vectors : Vectors) where
  open vectors use {Store, Vector}

  pub record Palace : Type 0 where
    pub rows : List Memory
    pub store : Store
    pub versions : List MemoryVersion
    pub effects : List Effect

  abbrev pub Method {ℓ} : Type ℓ → Type ℓ
  Method A = Action Palace A

  unfoldable pub gets : {A : Type 0} → (Palace → A) → Method A
  gets f s = (ok (f s), s)

  unfoldable pub set_rows : List Memory → Method (Unit {0})
  set_rows rows s = (ok tt, record s { rows = rows })

  unfoldable pub emit : Effect → Method (Unit {0})
  emit e s = (ok tt, record s { effects = s.effects ++ e ∷ [] })

  unfoldable pub embed_text : String → Method Vector
  embed_text text s = elim (vectors.embed text) [
    | none ↦ (err embedding_failed, s)
    | some v ↦ (ok v, s)
  ]

  pub write_store : Option Store → Method (Unit {0})
  write_store none s = (err vector_store_failed, s)
  write_store (some store) s = (ok tt, record s { store = store })

  unfoldable pub upsert_vector : String → Vector → Payload → Method (Unit {0})
  unfolding write_store
  upsert_vector id v payload s = write_store (vectors.upsert id v payload s.store) s

  unfoldable pub delete_vectors : List String → String → Method (Unit {0})
  unfolding write_store
  delete_vectors ids tenant s = write_store (vectors.delete ids tenant s.store) s

  -- _bust_cache
  unfoldable pub bust_cache : Env → String → Method (Unit {0})
  unfolding emit
  bust_cache env tenant =
      if env.cache_enabled
      then (do emit (busted tenant "memories_search"); emit (busted tenant "context_layered"))
      else pure tt

  -- _publish_event
  unfoldable pub publish_event : String → String → String → Method (Unit {0})
  unfolding emit
  publish_event event_type tenant memory_id = emit (published event_type tenant memory_id)

  -- _record_version: a failure is logged and swallowed.
  unfoldable pub record_version : Env → MemoryVersion → Method (Unit {0})
  record_version env row s =
      if env.versions_writable
      then (ok tt, record s { versions = s.versions ++ row ∷ [] })
      else (ok tt, s)

  pub last_version : String → List MemoryVersion → ℕ
  last_version memory_id [] = 0
  last_version memory_id (v ∷ versions) =
      let rest = last_version memory_id versions in
      if str_eq v.memory_id memory_id then max v.version_number rest else rest

  -- _next_version_number
  unfoldable pub next_version_number : Env → String → Method ℕ
  unfolding last_version
  next_version_number env memory_id s =
      (ok (if env.versions_readable then last_version memory_id s.versions + 1 else 1), s)
