-- ===== src/Runtime/Reach.antt =====
-- `_reachable_node_keys_v3`: what lies downstream of a set of nodes.
pub mod Correct
use filum_reforge.Base.{ℕ, ◌+◌, String, Option, List, [], ◌∷◌, ◌++◌, length, minus, keys}
use filum_reforge.Text.{sorted}
use filum_reforge.Search.{search}
use filum_reforge.Topology.Edges.{successors, connect}
use filum_reforge.Topology.Reachability.{out_degrees}
use filum_reforge.Runtime.Defs.{RuntimeEdge}

-- The first loop. The last edge of the list is the first that is added.
unfoldable pub adjacency : List RuntimeEdge → List (String × List String)
unfolding connect
adjacency [] = []
adjacency (edge ∷ edges) = connect edge.from_node_key edge.to_node_key (adjacency edges)

-- `queue.extend(sorted(adjacency.get(current, set()) - visited))`
unfoldable pub enqueue :
    List (String × List String) → List String → String → List String → List String
unfolding successors minus sorted
enqueue adj visited current queue = queue ++ sorted (minus (successors adj current) visited)

unfoldable pub reachable_node_keys : List String → List RuntimeEdge → Option (List String)
reachable_node_keys starts edges =
    let adj = adjacency edges in
    search (enqueue adj) (out_degrees adj (keys adj) + length starts) [] starts
