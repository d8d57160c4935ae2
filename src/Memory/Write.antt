-- ===== src/Memory/Write.antt =====
-- MemoryService.create, update and delete.
pub mod Success
pub mod Isolation
use my_palace.Common.{
  ℕ, ◌+◌, ◌≡◌, Bool, true, false, not, String, Option, none, some, List, [], ◌∷◌, ◌++◌, map, filter,
  find?, Result, ok, err, if◌then◌else◌,
}
use my_palace.Memory.{
  Memory, MemoryVersion, Metadata, Payload, Vectors, Effect, graph_node, Env, names, Palace, Method,
  pure, ◌>>=◌, ◌>>◌, gets, set_rows, emit, embed_text, upsert_vector, delete_vectors, bust_cache,
  publish_event, record_version, next_version_number,
}

-- The arguments of `create`.
pub record Draft : Type 0 where
  pub user_id : String
  pub content : String
  pub memory_type : String
  pub agent_id : Option String
  pub source : Option String
  pub importance : ℕ
  pub metadata : Option Metadata
  pub tenant_id : String
  pub ttl_seconds : Option ℕ

expiry : ℕ → Option ℕ → Option ℕ
expiry now none = none
expiry now (some ttl) = some (now + ttl)

unfoldable pub new_memory : Env → Draft → Memory
unfolding expiry
new_memory env d = record {
  id = env.fresh_id;
  tenant_id = d.tenant_id;
  user_id = d.user_id;
  agent_id = d.agent_id;
  content = d.content;
  memory_type = d.memory_type;
  source = d.source;
  importance = d.importance;
  metadata_json = d.metadata;
  access_count = 0;
  created_at = env.utcnow;
  updated_at = env.utcnow;
  accessed_at = none;
  expires_at = expiry env.utcnow d.ttl_seconds;
}

pub payload_of : Memory → String → Payload
payload_of m tenant = record {
  user_id = m.user_id;
  agent_id = m.agent_id;
  memory_type = m.memory_type;
  tenant_id = tenant;
}

pub version_of : Memory → String → ℕ → String → MemoryVersion
version_of m tenant n kind = record {
  memory_id = m.id;
  tenant_id = tenant;
  user_id = m.user_id;
  version_number = n;
  content = m.content;
  metadata_json = m.metadata_json;
  change_kind = kind;
}

-- The arguments of `update`; what is none stays as it is.
pub record Patch : Type 0 where
  pub content : Option String
  pub memory_type : Option String
  pub importance : Option ℕ
  pub metadata : Option Metadata

abbrev given {ℓ} : {A : Type ℓ} → Option A → A → A
given none a = a
given (some b) a = b

pub patched : ℕ → Patch → Memory → Memory
patched now p m = record m {
  content = given p.content m.content;
  memory_type = given p.memory_type m.memory_type;
  importance = given p.importance m.importance;
  metadata_json = elim p.metadata [ none ↦ m.metadata_json | some d ↦ some d ];
  updated_at = now;
}

module _ (vectors : Vectors) where
  unfoldable pub create : Env → Draft → Method vectors Memory
  unfolding new_memory payload_of version_of
  create env d = do
    let memory = new_memory env d
    rows ← gets vectors (λ s. s.rows)
    set_rows vectors (rows ++ memory ∷ [])
    vector ← embed_text vectors d.content
    upsert_vector vectors memory.id vector (payload_of memory d.tenant_id)
    emit vectors (graph_node memory.id d.tenant_id)
    bust_cache vectors env d.tenant_id
    record_version vectors env (version_of memory d.tenant_id 1 "created")
    publish_event vectors "memory.created" d.tenant_id memory.id
    pure memory

  -- The vector is written anew, with the payload as it was, when the content changes.
  pub reembed : Option String → Memory → String → Method vectors (Unit {0})
  unfolding payload_of
  reembed none m tenant = pure tt
  reembed (some content) m tenant = do
    vector ← embed_text vectors content
    upsert_vector vectors m.id vector (payload_of m tenant)

  pub update_found : Env → Option Memory → String → Patch → String → Method vectors (Option Memory)
  unfolding reembed patched version_of
  update_found env none memory_id p tenant = pure none
  update_found env (some m) memory_id p tenant = do
    reembed p.content m tenant
    let memory = patched env.utcnow p m
    rows ← gets vectors (λ s. s.rows)
    set_rows vectors (map (λ r. if names memory_id tenant r then memory else r) rows)
    bust_cache vectors env tenant
    n ← next_version_number vectors env memory_id
    record_version vectors env (version_of memory tenant n "updated")
    publish_event vectors "memory.updated" tenant memory_id
    pure (some memory)

  pub update : Env → String → Patch → String → Method vectors (Option Memory)
  unfolding update_found
  update env memory_id p tenant s =
      update_found env (find? (names memory_id tenant) s.rows) memory_id p tenant s

  pub delete_found : Env → Option Memory → String → String → Method vectors Bool
  delete_found env none memory_id tenant = pure false
  delete_found env (some m) memory_id tenant = do
    rows ← gets vectors (λ s. s.rows)
    set_rows vectors (filter (λ r. not (names memory_id tenant r)) rows)
    delete_vectors vectors (memory_id ∷ []) tenant
    bust_cache vectors env tenant
    publish_event vectors "memory.deleted" tenant memory_id
    pure true

  unfoldable pub delete : Env → String → String → Method vectors Bool
  unfolding delete_found
  delete env memory_id tenant s =
      delete_found env (find? (names memory_id tenant) s.rows) memory_id tenant s
