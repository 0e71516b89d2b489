-- ===== src/Topology/Tests.antt =====
-- Runs of the template check, and its theorems at concrete templates.
use mathlib.Core.WellFounded.{Acc}
use filum_reforge.Base.{String, ◌≡◌, ◌↔◌, ◌⊎◌, refl, true, false, some, List, [], ◌∷◌, elem}
use filum_reforge.Value.{Fields, end, field, str, obj}
use filum_reforge.Search.{Reached}
use filum_reforge.Topology.Defs.{
  GraphTemplateNodeSpec, GraphTemplateEdgeSpec, TopologyError, no_entry, cycle, edge_to_missing,
}
use filum_reforge.Topology.Nodes.{
  validate_node_modes, validate_routing_rules, validate_reject_targets,
}
use filum_reforge.Topology.Edges.{validate_edges, successors}
use filum_reforge.Topology.Reachability.{validate_reachability}
use filum_reforge.Topology.Reachability.Correct.{validate_reachability_correct}
use filum_reforge.Topology.Acyclic.{validate_forward_acyclic}
use filum_reforge.Topology.Acyclic.Sound.{Below}
use filum_reforge.Topology.Acyclic.Cycles.{Cycle}
use filum_reforge.Topology.Acyclic.Correct.{validate_forward_acyclic_correct}
use filum_reforge.Topology.Sound.{
  IsRunnable, validate_graph_template_topology-IsRunnable, validate_graph_template_topology_ends,
}
use filum_reforge.Topology.{validate_graph_template_topology}

abbrev node : String → Fields → GraphTemplateNodeSpec
node key config = record {
  node_key = key;
  assignment_mode = "single";
  join_mode = " ALL ";
  config = config;
}

abbrev edge : String → String → GraphTemplateEdgeSpec
edge u v = record {
  from_node_key = u;
  to_node_key = v;
  is_reject_path = false;
  condition = end;
  priority = 0;
}

abbrev reject : String → String → GraphTemplateEdgeSpec
reject u v = record (edge u v) { is_reject_path = true }

-- The review at `c` may send the work back to `a`.
abbrev sends_back : Fields
sends_back =
    field "acceptance_spec" (obj (field "reject_to" (obj (field "node_key" (str "a") end)) end)) end

abbrev review_nodes : List GraphTemplateNodeSpec
review_nodes = node "a" end ∷ node "b" end ∷ node "c" sends_back ∷ []

abbrev review_edges : List GraphTemplateEdgeSpec
review_edges = edge "a" "b" ∷ edge "a" "c" ∷ edge "b" "c" ∷ reject "c" "a" ∷ []

review_passes : validate_graph_template_topology review_nodes review_edges ≡ some []
unfolding validate_graph_template_topology validate_node_modes validate_routing_rules validate_edges
    validate_reachability validate_forward_acyclic validate_reject_targets
review_passes = refl

loop_fails :
    validate_graph_template_topology
      (node "a" end ∷ node "b" end ∷ node "c" end ∷ [])
      (edge "a" "b" ∷ edge "b" "c" ∷ edge "c" "b" ∷ edge "c" "d" ∷ [])
    ≡ some (edge_to_missing "d" ∷ cycle ∷ [])
unfolding validate_graph_template_topology validate_node_modes validate_routing_rules validate_edges
    validate_reachability validate_forward_acyclic validate_reject_targets
loop_fails = refl

ring_fails :
    validate_graph_template_topology
      (node "a" end ∷ node "b" end ∷ [])
      (edge "a" "b" ∷ edge "b" "a" ∷ [])
    ≡ some (no_entry ∷ cycle ∷ [])
unfolding validate_graph_template_topology validate_node_modes validate_routing_rules validate_edges
    validate_reachability validate_forward_acyclic validate_reject_targets
ring_fails = refl

IsRunnable_example : IsRunnable review_nodes review_edges
IsRunnable_example =
    validate_graph_template_topology-IsRunnable review_nodes review_edges review_passes

validate_ends_example :
    (errors : List TopologyError) × (validate_graph_template_topology review_nodes review_edges
      ≡ some errors)
validate_ends_example = validate_graph_template_topology_ends review_nodes review_edges

abbrev ring : List (String × List String)
ring = ("a", "b" ∷ []) ∷ ("b", "a" ∷ []) ∷ []

acyclic_example :
    (errors : List TopologyError) × (validate_forward_acyclic ring ≡ some errors)
    × ((errors ≡ []) ↔ (¬ Cycle ring))
    × ((errors ≡ []) → (v : String) → Acc (Below (successors ring)) v)
acyclic_example = validate_forward_acyclic_correct ring

reachability_example :
    (errors : List TopologyError) × (validate_reachability ("a" ∷ "b" ∷ "c" ∷ []) ("a" ∷ []) ring
      ≡ some errors)
    × ((errors ≡ []) ↔ (
        ◌≡◌ {A = List String} ("a" ∷ []) []
        ⊎ ((v : String)
            → elem v ("a" ∷ "b" ∷ "c" ∷ []) ≡ true
            → Reached (successors ring) ("a" ∷ []) v)))
reachability_example = validate_reachability_correct ("a" ∷ "b" ∷ "c" ∷ []) ("a" ∷ []) ring
