-- ===== src/Memory/Reembed.antt =====
-- _reembed_handler of mypalace/workers/handlers.py: every memory of a tenant under a new model, in
-- pages of `batch_size` rows in the order of their ids.
pub mod Counted
use my_palace.Common.{
  ℕ, zero, suc, ◌+◌, Bool, String, Option, none, some, List, [], ◌∷◌, map, filter, take, drop,
  length, str_eq, sort_by, is_nil, if◌then◌else◌,
}
use my_palace.Memory.{Memory, Vectors, Payload}

module _ (vectors : Vectors) where
  -- The new model's embedder and the order of the ids; `none` is a call that raises.
  pub record Job : Type 0 where
    pub tenant_id : String
    pub batch_size : ℕ
    pub embed : List String → Option (List vectors.Vector)
    pub before : String → String → Bool

  pub record Progress : Type 0 where
    pub total : ℕ
    pub failures : ℕ
    pub store : vectors.Store

  pub payload_of : String → Memory → Payload
  payload_of tenant_id m = record {
    user_id = m.user_id;
    agent_id = m.agent_id;
    memory_type = m.memory_type;
    tenant_id = tenant_id;
  }

  pub upserted : Option vectors.Store → Progress → Progress
  upserted none p = record p { failures = p.failures + 1 }
  upserted (some store) p = record p { total = p.total + 1; store = store }

  -- The loop over the rows of a page and their vectors, up to the shorter of the two.
  pub upsert_batch : String → List Memory → List vectors.Vector → Progress → Progress
  unfolding upserted payload_of
  upsert_batch tenant_id [] vs p = p
  upsert_batch tenant_id (m ∷ ms) [] p = p
  upsert_batch tenant_id (m ∷ ms) (v ∷ vs) p =
      upsert_batch tenant_id ms vs
        (upserted (vectors.upsert m.id v (payload_of tenant_id m) p.store) p)

  pub batch_done : String → List Memory → Option (List vectors.Vector) → Progress → Progress
  unfolding upsert_batch
  batch_done tenant_id batch none p = record p { failures = p.failures + length batch }
  batch_done tenant_id batch (some vs) p = upsert_batch tenant_id batch vs p

  abbrev pub contents : List Memory → List String
  contents = map λ m. m.content

  -- `while True`, on fuel; `none` is a loop that has not ended.
  pub pages : ℕ → Job → List Memory → ℕ → Progress → Option Progress
  unfolding batch_done
  pages zero job rows offset p = none
  pages (suc fuel) job rows offset p =
      let batch = take job.batch_size (drop offset rows) in
      let rest =
        pages fuel job rows (offset + job.batch_size)
          (batch_done job.tenant_id batch (job.embed (contents batch)) p) in
      if is_nil batch then some p else rest

  -- The rows that the query gives, page by page.
  pub selection : Job → List Memory → List Memory
  selection job rows =
      sort_by (λ m k. job.before m.id k.id) (filter (λ m. str_eq m.tenant_id job.tenant_id) rows)

  -- Each page but the last takes a row, so that one round more than there are rows is enough.
  pub reembed : Job → List Memory → vectors.Store → Option Progress
  unfolding selection pages
  reembed job rows store =
      let selected = selection job rows in
      pages (suc (length selected)) job selected 0
        (record { total = 0; failures = 0; store = store })
