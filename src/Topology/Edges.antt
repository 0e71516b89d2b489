-- ===== src/Topology/Edges.antt =====
-- `_validate_edges` of workflow_graph_template_topology.py: one pass over the edges that fills the
-- adjacency and the counters, then a pass over the nodes with conditional edges.
pub mod Adjacency
use filum_reforge.Base.{
  ℕ, zero, suc, ◌+◌, String, Bool, true, false, not, ◌&&◌, ◌||◌, Option, none, some, List, [], ◌∷◌,
  ◌++◌, if◌then◌else◌, ◌==◌, elem, add, lookup, insert, any, nat_eq, ltb,
}
use filum_reforge.Value.{Fields, end, field, truthy, obj}
use filum_reforge.Condition.{is_else_condition}
use filum_reforge.Topology.Defs.{
  GraphTemplateNodeSpec, GraphTemplateEdgeSpec, TopologyError, edge_from_missing, edge_to_missing,
  branch_needs_default, self_edge, duplicate_edge,
}

-- `defaultdict(set)`, `defaultdict(int)` and `defaultdict(list)`.
unfoldable pub successors : List (String × List String) → String → List String
unfolding lookup
successors adj k = elim (lookup k adj) [ some ks ↦ ks | none ↦ [] ]

unfoldable pub count_of : List (String × ℕ) → String → ℕ
unfolding lookup
count_of counts k = elim (lookup k counts) [ some n ↦ n | none ↦ 0 ]

unfoldable pub edges_of :
    List (String × List GraphTemplateEdgeSpec) → String → List GraphTemplateEdgeSpec
unfolding lookup
edges_of groups k = elim (lookup k groups) [ some es ↦ es | none ↦ [] ]

-- `adj[u].add(v)`
unfoldable pub connect : String → String → List (String × List String) → List (String × List String)
connect u v adj = insert u (add v (successors adj u)) adj

-- The local variables of the loop.
pub record EdgeScan : Type 0 where
  pub errors : List TopologyError
  pub forward_adj : List (String × List String)
  pub reverse_adj : List (String × List String)
  pub seen_paths : List (String × String × Bool)
  pub incoming_forward : List (String × ℕ)
  pub outgoing_conditions : List (String × List GraphTemplateEdgeSpec)
  pub outgoing_else : List (String × ℕ)

abbrev pub empty_scan : EdgeScan
empty_scan = record {
  errors = [];
  forward_adj = [];
  reverse_adj = [];
  seen_paths = [];
  incoming_forward = [];
  outgoing_conditions = [];
  outgoing_else = [];
}

unfoldable pub bool_eq : Bool → Bool → Bool
bool_eq true b = b
bool_eq false b = not b

-- `path_key in seen_paths`
unfoldable pub path_seen : GraphTemplateEdgeSpec → List (String × String × Bool) → Bool
unfolding bool_eq
path_seen edge = any (λ path.
    path.0 == edge.from_node_key
    && path.1 == edge.to_node_key
    && bool_eq path.2 edge.is_reject_path)

unfoldable pub report : TopologyError → EdgeScan → EdgeScan
report e scan = record scan { errors = scan.errors ++ e ∷ [] }

-- The checks that do not end the round: an edge to itself, and an edge seen before.
unfoldable pub note_path : GraphTemplateEdgeSpec → EdgeScan → EdgeScan
note_path edge scan =
    let checked =
      if edge.from_node_key == edge.to_node_key
      then report (self_edge edge.from_node_key edge.to_node_key) scan
      else scan in
    let noted =
      if path_seen edge checked.seen_paths
      then report (duplicate_edge edge.from_node_key edge.to_node_key edge.is_reject_path) checked
      else checked in
    record noted {
      seen_paths =
          if path_seen edge noted.seen_paths
          then noted.seen_paths
          else (edge.from_node_key, edge.to_node_key, edge.is_reject_path) ∷ noted.seen_paths;
    }

-- A forward edge enters the adjacency and the counters. A condition that is no ELSE is grouped
-- under its source, whether it is empty or not.
unfoldable pub note_forward : GraphTemplateEdgeSpec → EdgeScan → EdgeScan
note_forward edge scan =
    let u = edge.from_node_key in
    let v = edge.to_node_key in
    let is_else = is_else_condition edge.condition in
    record scan {
      forward_adj = connect u v scan.forward_adj;
      reverse_adj = connect v u scan.reverse_adj;
      incoming_forward = insert v (suc (count_of scan.incoming_forward v)) scan.incoming_forward;
      outgoing_conditions =
          if is_else
          then scan.outgoing_conditions
          else insert u (edges_of scan.outgoing_conditions u ++ edge ∷ []) scan.outgoing_conditions;
      outgoing_else =
          if is_else
          then insert u (suc (count_of scan.outgoing_else u)) scan.outgoing_else
          else scan.outgoing_else;
    }

-- The body of the loop.
unfoldable pub scan_edge : List String → EdgeScan → GraphTemplateEdgeSpec → EdgeScan
scan_edge node_keys scan edge =
    if not (elem edge.from_node_key node_keys)
    then report (edge_from_missing edge.from_node_key) scan
    else if not (elem edge.to_node_key node_keys)
    then report (edge_to_missing edge.to_node_key) scan
    else (let noted = note_path edge scan in
        if edge.is_reject_path then noted else note_forward edge noted)

unfoldable pub scan_edges : List String → EdgeScan → List GraphTemplateEdgeSpec → EdgeScan
scan_edges node_keys scan [] = scan
scan_edges node_keys scan (edge ∷ edges) =
    scan_edges node_keys (scan_edge node_keys scan edge) edges

unfoldable pub is_filled : Fields → Bool
is_filled end = false
is_filled (field k v fs) = true

-- A node with a real condition on an edge needs an ELSE edge or an edge with none.
unfoldable pub needs_default : List (String × ℕ) → String → List GraphTemplateEdgeSpec → Bool
unfolding count_of is_filled is_else_condition
needs_default outgoing_else from_key conditional_edges =
    any (λ edge. is_filled edge.condition && not (is_else_condition edge.condition))
      conditional_edges
    && not (ltb 0 (count_of outgoing_else from_key))
    && not (any (λ edge. not (is_filled edge.condition)) conditional_edges)

unfoldable pub validate_defaults :
    List (String × ℕ) → List (String × List GraphTemplateEdgeSpec) → List TopologyError
unfolding needs_default
validate_defaults outgoing_else [] = []
validate_defaults outgoing_else ((from_key, conditional_edges) ∷ groups) =
    let rest = validate_defaults outgoing_else groups in
    if needs_default outgoing_else from_key conditional_edges
    then branch_needs_default from_key ∷ rest
    else rest

-- `{node.node_key for node in nodes if incoming_forward[node.node_key] == 0}`
unfoldable pub entry_keys : List (String × ℕ) → List GraphTemplateNodeSpec → List String
entry_keys incoming_forward [] = []
entry_keys incoming_forward (node ∷ nodes) =
    let rest = entry_keys incoming_forward nodes in
    if nat_eq (count_of incoming_forward node.node_key) 0 then add node.node_key rest else rest

pub record EdgeReport : Type 0 where
  pub errors : List TopologyError
  pub forward_adj : List (String × List String)
  pub reverse_adj : List (String × List String)
  pub entries : List String

unfoldable pub validate_edges :
    List GraphTemplateNodeSpec → List GraphTemplateEdgeSpec → List String → EdgeReport
unfolding scan_edges scan_edge note_path note_forward report path_seen connect count_of edges_of
    successors validate_defaults entry_keys insert add elem is_else_condition
validate_edges nodes edges node_keys =
    let scan = scan_edges node_keys empty_scan edges in
    record {
      errors = scan.errors ++ validate_defaults scan.outgoing_else scan.outgoing_conditions;
      forward_adj = scan.forward_adj;
      reverse_adj = scan.reverse_adj;
      entries = entry_keys scan.incoming_forward nodes;
    }
