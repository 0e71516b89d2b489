-- ===== src/Topology/Reachability.antt =====
-- `_validate_reachability` of workflow_graph_template_topology.py.
pub mod Correct
use filum_reforge.Base.{
  ℕ, suc, ◌+◌, String, Option, none, some, List, [], ◌∷◌, ◌++◌, length, minus, keys, keys,
}
use filum_reforge.Text.{sorted}
use filum_reforge.Search.{search}
use filum_reforge.Topology.Defs.{TopologyError, unreachable}
use filum_reforge.Topology.Edges.{successors}

-- `stack.extend(forward_adj.get(current, ()))` puts the successors on top, the head of the list.
-- They come out of a set in no order that is promised.
unfoldable pub push_successors :
    List (String × List String) → List String → String → List String → List String
unfolding successors
push_successors forward_adj visited current stack = successors forward_adj current ++ stack

-- The rounds that the loop can take: a push for each entry and for each edge.
unfoldable pub out_degrees : List (String × List String) → List String → ℕ
unfolding successors
out_degrees adj [] = 0
out_degrees adj (k ∷ ks) = length (successors adj k) + out_degrees adj ks

unfoldable pub reachable_keys : List String → List (String × List String) → Option (List String)
unfolding search push_successors out_degrees keys
reachable_keys entries forward_adj =
    search (push_successors forward_adj)
      (out_degrees forward_adj (keys forward_adj) + length entries) [] entries

unfoldable pub report_orphans : List String → List TopologyError
report_orphans [] = []
report_orphans (k ∷ ks) = unreachable (k ∷ ks) ∷ []

-- `none` is fuel that ran out.
unfoldable pub validate_reachability :
    List String → List String → List (String × List String) → Option (List TopologyError)
unfolding reachable_keys report_orphans minus sorted
validate_reachability node_keys [] forward_adj = some []
validate_reachability node_keys (entry ∷ entries) forward_adj =
    elim (reachable_keys (entry ∷ entries) forward_adj) [
      | some reachable ↦ some (report_orphans (sorted (minus node_keys reachable)))
      | none ↦ none
    ]
