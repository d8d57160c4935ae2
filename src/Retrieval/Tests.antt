-- ===== src/Retrieval/Tests.antt =====
-- Items on which the character budget is tried.
use my_palace.Common.{
  ◌≢◌, length, ◌≤◌, ◌≡◌, ◌⊎◌, String, List, [], ◌∷◌, ℕ, true, false, some, none, ◌<◌, refl,
}
use my_palace.Retrieval.{Item, enforce_char_budget}
use my_palace.Retrieval.Graph.{Node, Graph, GraphContext, fetch_graph_context}
use my_palace.Retrieval.Graph.Bounded.{Bounded, Complete, fetch_graph_context-Bounded}
use my_palace.Sessions.{Message, conversation}
use my_palace.Sessions.Tests.{session, store}
use my_palace.Retrieval.Recent.{session_context}
use my_palace.Retrieval.Recent.Last.{Last, session_context-Last}
use my_palace.Retrieval.Budget.{Kept, enforce_char_budget-Kept}

abbrev item : String → Item
item text = ("content", text) ∷ []

abbrev layer : List Item
layer = item "four" ∷ item "cat" ∷ item "elephant" ∷ item "a" ∷ []

enforce_char_budget-Kept_example :
    let (kept, total) = enforce_char_budget layer 10 "content" in
    Kept 10 "content" 0 layer kept total × ((total ≤ 10) ⊎ ((i : Item) × (kept ≡ i ∷ [])))
enforce_char_budget-Kept_example = enforce_char_budget-Kept layer 10 "content"

abbrev node : String → Node
node id = record { id = id; labels = "Memory" ∷ [] }

abbrev graph : Graph
graph = record {
  enabled = true;
  neighbors = λ mid. some (record {
    nodes = node "m1" ∷ node "n1" ∷ node "n2" ∷ node "n1" ∷ node "n3" ∷ [];
    edges = record { source = mid; target = "n1"; kind = "RELATES" } ∷ [];
  });
}

abbrev layer_ids : List String
layer_ids = "m1" ∷ "m2" ∷ []

fetch_graph_context-Bounded_example :
    ((fetch_graph_context graph 2 layer_ids ≡ none) × ((true ≡ false) ⊎ (layer_ids ≡ [])))
    ⊎ ((true ≡ true)
        × (layer_ids ≢ [])
        × ((c : GraphContext) × (fetch_graph_context graph 2 layer_ids ≡ some c)
            × Bounded graph 2 layer_ids c.related_memories
            × (length c.related_memories < 2 → Complete graph 2 layer_ids c.related_memories)))
fetch_graph_context-Bounded_example = fetch_graph_context-Bounded graph 2 layer_ids

abbrev limit : ℕ
limit = 0

session_context-Last_example :
    (kept : List Message) × (session_context limit "s1" "acme" store ≡ (some kept, none))
    × (0 < limit → Last limit (conversation "s1" "acme" store) kept)
    × (limit ≡ 0 → kept ≡ conversation "s1" "acme" store)
session_context-Last_example = session_context-Last limit "s1" "acme" store session refl refl
