-- ===== src/Memory/Read.antt =====
-- MemoryService.get, search, list_for_user and list_filtered.
pub mod Scope
use my_palace.Common.{
  ℕ, suc, ◌+◌, ◌≡◌, Bool, true, false, not, ◌&&◌, ◌||◌, String, Option, none, some, List, [], ◌∷◌,
  ◌++◌, map, filter, find?, take, drop, length, leb, str_eq, elem, Result, ok, err, if◌then◌else◌,
  all,
}
use my_palace.Common.Dict
use my_palace.Common.Dict.{Dict}
use my_palace.Memory.{
  Memory, Metadata, Vectors, Query, Env, Palace, Method, pure, ◌>>=◌, ◌>>◌, gets, set_rows,
  embed_text, not_expired, names,
}
use my_palace.Memory.Sweep.{option_is}

-- `access_count += 1; accessed_at = now`
unfoldable pub touched : ℕ → Memory → Memory
touched now m = record m { access_count = m.access_count + 1; accessed_at = some now }

-- `{r[0]: r[1] for r in results}`: the last score of an id counts.
pub add_scores : Dict ℕ → List (String × ℕ) → Dict ℕ
add_scores d [] = d
add_scores d ((id, score) ∷ results) = add_scores (Dict.put id score d) results

abbrev pub hit_ids : List (String × ℕ) → List String
hit_ids = map λ r. r.0

-- The rows that a search may return.
pub searchable : String → ℕ → List String → Memory → Bool
searchable tenant now ids m = elem m.id ids && str_eq m.tenant_id tenant && not_expired now m

pub paired : List Memory → Dict ℕ → String → List (Memory × ℕ) → List (Memory × ℕ)
paired found scores id rest = elim (find? (λ m. str_eq m.id id) found) [
  | none ↦ rest
  | some m ↦ elim (Dict.get id scores) [ none ↦ rest | some score ↦ (m, score) ∷ rest ]
]

-- `[(memory_map[mid], scores[mid]) for mid in memory_ids if mid in memory_map]`
pub in_order : List Memory → Dict ℕ → List String → List (Memory × ℕ)
unfolding paired
in_order found scores [] = []
in_order found scores (id ∷ ids) = paired found scores id (in_order found scores ids)

insert_recent : Memory → List Memory → List Memory
insert_recent m [] = m ∷ []
insert_recent m (k ∷ ms) =
    let rest = insert_recent m ms in if leb k.created_at m.created_at then m ∷ k ∷ ms else k ∷ rest

-- `ORDER BY created_at DESC`
pub by_recency : List Memory → List Memory
unfolding insert_recent
by_recency [] = []
by_recency (m ∷ ms) = insert_recent m (by_recency ms)

-- The filters of `list_filtered`; none puts no clause.
pub record Filters : Type 0 where
  pub user_id : Option String
  pub agent_id : Option String
  pub run_id : Option String
  pub memory_type : Option String
  pub metadata : Metadata

pub clause : Option String → Option String → Bool
unfolding option_is
clause none value = true
clause (some x) value = option_is value x

-- `metadata_json @> wanted`, each wanted entry whole
pub contains : Metadata → Option Metadata → Bool
unfolding option_is
contains [] value = true
contains ((k, x) ∷ wanted) none = false
contains ((k, x) ∷ wanted) (some d) = all (λ w. option_is (Dict.get w.0 d) w.1) ((k, x) ∷ wanted)

run_entry : Option String → Metadata
run_entry none = []
run_entry (some r) = ("run_id", r) ∷ []

pub selected : String → ℕ → Filters → Memory → Bool
unfolding clause contains run_entry
selected tenant now f m =
    str_eq m.tenant_id tenant
    && not_expired now m
    && clause f.user_id (some m.user_id)
    && clause f.agent_id m.agent_id
    && clause f.memory_type (some m.memory_type)
    && contains (run_entry f.run_id) m.metadata_json
    && contains f.metadata m.metadata_json

module _ (vectors : Vectors) where
  open vectors use {Vector}

  unfoldable pub get : Env → String → String → Method vectors (Option Memory)
  unfolding touched
  get env memory_id tenant = do
    rows ← gets vectors (λ s. s.rows)
    set_rows vectors (map (λ m. if names memory_id tenant m then touched env.utcnow m else m) rows)
    pure (
        find? (names memory_id tenant)
          (map (λ m. if names memory_id tenant m then touched env.utcnow m else m) rows))

  pub fetch : Env → String → List (String × ℕ) → Method vectors (List (Memory × ℕ))
  unfolding touched add_scores searchable in_order
  fetch env tenant [] = pure []
  fetch env tenant (r ∷ results) = do
    rows ← gets vectors (λ s. s.rows)
    let ids = hit_ids (r ∷ results)
    let rows' =
        map (λ m. if searchable tenant env.utcnow ids m then touched env.utcnow m else m) rows
    set_rows vectors rows'
    pure (
        in_order (filter (searchable tenant env.utcnow ids) rows') (add_scores [] (r ∷ results))
          ids)

  unfoldable pub search : Env → String → Query → Method vectors (List (Memory × ℕ))
  unfolding fetch
  search env text query = do
    vector ← embed_text vectors text
    results ← gets vectors (λ s. vectors.search vector query s.store)
    fetch env query.tenant_id results

  pub list_for_user : Env → String → ℕ → String → Method vectors (List Memory)
  unfolding by_recency
  list_for_user env user limit tenant = gets vectors λ s. take limit (
      by_recency (
        filter (λ m. str_eq m.user_id user && str_eq m.tenant_id tenant && not_expired env.utcnow m)
          s.rows))

  pub list_filtered : Env → Filters → ℕ → ℕ → String → Method vectors (List Memory)
  unfolding by_recency selected
  list_filtered env f limit offset tenant =
      gets vectors
        λ s. take limit (drop offset (by_recency (filter (selected tenant env.utcnow f) s.rows)))
