-- ===== src/Retrieval/Graph.antt =====
-- _fetch_graph_context of mypalace/retrieval/layered.py: the neighbors of the memories of a layer.
pub mod Bounded
use my_palace.Common.{
  ℕ, ◌+◌, Bool, true, false, not, ◌&&◌, ◌||◌, String, Option, none, some, List, [], ◌∷◌, ◌++◌, map,
  any, length, leb, str_eq, elem, is_nil, if◌then◌else◌,
}

-- A node with no id has the empty one.
pub record Node : Type 0 where
  pub id : String
  pub labels : List String

pub record Edge : Type 0 where
  pub source : String
  pub target : String
  pub kind : String

pub record Neighborhood : Type 0 where
  pub nodes : List Node
  pub edges : List Edge

-- graph_service, for the depth and the tenant of a call; `none` is a call that raises.
pub record Graph : Type 0 where
  pub enabled : Bool
  pub neighbors : String → Option Neighborhood

pub record GraphContext : Type 0 where
  pub related_memories : List Node
  pub edges : List Edge

abbrev pub ids : List Node → List String
ids = map λ n. n.id

-- `nid and nid not in seen_nodes and nid not in memory_ids`
pub is_new : List String → List Node → Node → Bool
is_new memory_ids seen n =
    not (str_eq n.id "") && not (elem n.id (ids seen)) && not (elem n.id memory_ids)

-- The loop over the nodes of a neighborhood.
pub add_nodes : ℕ → List String → List Node → List Node → List Node
unfolding is_new
add_nodes max_neighbors memory_ids [] seen = seen
add_nodes max_neighbors memory_ids (n ∷ ns) seen =
    let added = seen ++ n ∷ [] in
    let more = add_nodes max_neighbors memory_ids ns added in
    let skipped = add_nodes max_neighbors memory_ids ns seen in
    if is_new memory_ids seen n
    then (if leb max_neighbors (length added) then added else more)
    else skipped

pub joined : ℕ → List String → Option Neighborhood → GraphContext → GraphContext
unfolding add_nodes
joined max_neighbors memory_ids none c = c
joined max_neighbors memory_ids (some h) c = record {
  related_memories = add_nodes max_neighbors memory_ids h.nodes c.related_memories;
  edges = c.edges ++ h.edges;
}

-- The loop over the memories.
pub walk : Graph → ℕ → List String → List String → GraphContext → GraphContext
unfolding joined
walk graph max_neighbors memory_ids [] c = c
walk graph max_neighbors memory_ids (mid ∷ mids) c =
    let rest =
      walk graph max_neighbors memory_ids mids
        (joined max_neighbors memory_ids (graph.neighbors mid) c) in
    if leb max_neighbors (length c.related_memories) then c else rest

unfoldable pub fetch_graph_context : Graph → ℕ → List String → Option GraphContext
unfolding walk
fetch_graph_context graph max_neighbors memory_ids =
    if not graph.enabled || is_nil memory_ids
    then none
    else some (
        walk graph max_neighbors memory_ids memory_ids
          (record { related_memories = []; edges = [] }))
