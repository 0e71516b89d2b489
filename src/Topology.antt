-- ===== src/Topology.antt =====
-- The check of a workflow template's graph
-- (backend/app/services/workflow_graph_template_topology.py): single nodes in `Nodes`, the pass over
-- the edges in `Edges`, reachability and cycles in `Reachability` and `Acyclic`. Sets are lists, and
-- the order in which Python walks a set is the list's: the theorems hold for every order.
pub mod Defs
pub mod Nodes
pub mod Edges
pub mod Reachability
pub mod Acyclic
pub mod Sound
mod Tests
use filum_reforge.Base.{String, Option, none, some, List, [], ◌∷◌, ◌++◌, add}
use filum_reforge.Topology.Defs.{
  GraphTemplateNodeSpec, GraphTemplateEdgeSpec, TopologyError, no_nodes, no_entry,
}
use filum_reforge.Topology.Nodes.{
  validate_node_modes, validate_routing_rules, validate_reject_targets,
}
use filum_reforge.Topology.Edges.{validate_edges}
use filum_reforge.Topology.Reachability.{validate_reachability}
use filum_reforge.Topology.Acyclic.{validate_forward_acyclic}

-- `{node.node_key for node in nodes}`
unfoldable pub keys_of : List GraphTemplateNodeSpec → List String
keys_of [] = []
keys_of (node ∷ nodes) = add node.node_key (keys_of nodes)

-- The loop over the nodes.
unfoldable pub validate_nodes : List GraphTemplateNodeSpec → List String → List TopologyError
validate_nodes [] node_keys = []
validate_nodes (node ∷ nodes) node_keys =
    (validate_node_modes node ++ validate_routing_rules node node_keys)
    ++ validate_nodes nodes node_keys

unfoldable pub report_no_entry : List String → List TopologyError
report_no_entry [] = no_entry ∷ []
report_no_entry (k ∷ ks) = []

-- The two checks with a loop return `none` if their fuel runs out.
unfoldable pub join_reports :
    List TopologyError
    → Option (List TopologyError)
    → Option (List TopologyError)
    → List TopologyError
    → Option (List TopologyError)
join_reports before (some orphans) (some cycles) after =
    some (before ++ (orphans ++ (cycles ++ after)))
join_reports before _ _ after = none

unfoldable pub validate_graph_template_topology :
    List GraphTemplateNodeSpec → List GraphTemplateEdgeSpec → Option (List TopologyError)
unfolding keys_of validate_nodes report_no_entry join_reports
validate_graph_template_topology [] edges = some (no_nodes ∷ [])
validate_graph_template_topology (node ∷ nodes) edges =
    let all_nodes = node ∷ nodes in
    let node_keys = keys_of all_nodes in
    let scanned = validate_edges all_nodes edges node_keys in
    join_reports
      (validate_nodes all_nodes node_keys ++ (scanned.errors ++ report_no_entry scanned.entries))
      (validate_reachability node_keys scanned.entries scanned.forward_adj)
      (validate_forward_acyclic scanned.forward_adj)
      (validate_reject_targets all_nodes edges node_keys)
