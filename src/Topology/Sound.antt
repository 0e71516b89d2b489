-- ===== src/Topology/Sound.antt =====
-- What a template that passes the check is (backend/app/services/workflow_graph_template_topology.py).
use mathlib.Core.WellFounded.{Acc}
use filum_reforge.Base.{
  ℕ, String, subst, ◌≡◌, refl, ◌↔◌, ◌⊎◌, inl, inr, true, false, some, List, [], ◌∷◌, ◌++◌, arith,
  elem, elem-add, ◌==◌, eq_iff, Any, All, Bool-cases,
}
use filum_reforge.Search.{Walk, here, step, Reached}
use filum_reforge.Topology.Defs.{
  GraphTemplateNodeSpec, GraphTemplateEdgeSpec, TopologyError, no_nodes,
}
use filum_reforge.Topology.Nodes.{validate_reject_targets}
use filum_reforge.Topology.Edges.{
  successors, count_of, entry_keys, validate_edges, scan_edges, empty_scan, EdgeReport,
  validate_defaults,
}
use filum_reforge.Topology.Edges.Adjacency.{
  IsForward, IsJoined, scan_edges-errors, scan_edges-IsForward, scan_edges-incoming,
}
use filum_reforge.Topology.Reachability.Correct.{validate_reachability_correct}
use filum_reforge.Topology.Acyclic.Sound.{Below}
use filum_reforge.Topology.Acyclic.Correct.{validate_forward_acyclic_correct}
use filum_reforge.Topology.{
  keys_of, validate_nodes, report_no_entry, join_reports, validate_graph_template_topology,
}

-- A path along forward edges, of any length.
pub data ForwardPath (edges : List GraphTemplateEdgeSpec) (u : String) : String → Type 0 where
  start : ForwardPath edges u u
  follow :
      {v w : String} → ForwardPath edges u v → Any (IsForward v w) edges → ForwardPath edges u w

-- No forward edge leads to the key.
abbrev pub IsEntry : List GraphTemplateEdgeSpec → String → Type 0
IsEntry edges v = ¬ Any (λ e. (e.is_reject_path ≡ false) × (e.to_node_key ≡ v)) edges

-- From a key one forward edge on: every chain of such steps ends.
abbrev pub Before : List GraphTemplateEdgeSpec → String → String → Type 0
Before edges v u = Any (IsForward u v) edges

pub record IsRunnable (nodes : List GraphTemplateNodeSpec) (edges : List GraphTemplateEdgeSpec)
    : Type 0 where
  pub joined : All (IsJoined (keys_of nodes)) edges
  pub reachable :
      (v : String)
      → elem v (keys_of nodes) ≡ true
      → (s : String) × (elem s (keys_of nodes) ≡ true) × IsEntry edges s × ForwardPath edges s v
  pub ends : (v : String) → Acc (Before edges) v
  pub has_entry : (s : String) × (elem s (keys_of nodes) ≡ true) × IsEntry edges s

entry_keys-elem :
    (counts : List (String × ℕ)) (nodes : List GraphTemplateNodeSpec) (v : String)
    → elem v (entry_keys counts nodes) ≡ true
    → (elem v (keys_of nodes) ≡ true) × (count_of counts v ≡ 0)
unfolding entry_keys keys_of elem
entry_keys-elem counts [] v h = cc
entry_keys-elem counts (node ∷ nodes) v h = elim (Bool-cases (node.node_key == v)) [
  | inl same ↦ ground (
    arith,
    entry_keys-elem counts nodes v,
    elem-add node.node_key v (entry_keys counts nodes),
    elem-add node.node_key v (keys_of nodes),
    eq_iff node.node_key v,
  )
  | inr other ↦ ground (
    arith,
    entry_keys-elem counts nodes v,
    elem-add node.node_key v (entry_keys counts nodes),
    elem-add node.node_key v (keys_of nodes),
    eq_iff node.node_key v,
  )
]

-- A report that is empty is empty in every part.
append-nil_left : (xs ys : List TopologyError) → xs ++ ys ≡ [] → xs ≡ []
append-nil_left [] ys h = refl
append-nil_left (x ∷ xs) ys h = cc

append-nil_right : (xs ys : List TopologyError) → xs ++ ys ≡ [] → ys ≡ []
append-nil_right [] ys h = h
append-nil_right (x ∷ xs) ys h = cc

join_reports-nil :
    (before orphans cycles after : List TopologyError)
    → join_reports before (some orphans) (some cycles) after ≡ some []
    → (before ≡ []) × (orphans ≡ []) × (cycles ≡ []) × (after ≡ [])
unfolding join_reports
join_reports-nil before orphans cycles after h =
    let e : before ++ (orphans ++ (cycles ++ after)) ≡ [] = cc in
    let rest = append-nil_right before (orphans ++ (cycles ++ after)) e in
    let rest' = append-nil_right orphans (cycles ++ after) rest in
    (
      append-nil_left before (orphans ++ (cycles ++ after)) e,
      append-nil_left orphans (cycles ++ after) rest,
      append-nil_left cycles after rest',
      append-nil_right cycles after rest',
    )

module _ (edges : List GraphTemplateEdgeSpec) (next : String → List String)
    (agrees : (u v : String) → (elem v (next u) ≡ true) ↔ Any (IsForward u v) edges) where
  path_of_Walk : {u v : String} → Walk next u v → ForwardPath edges u v
  path_of_Walk here = start
  path_of_Walk (step {v} {w} p e) = follow (path_of_Walk p) ((agrees v w).0 e)

  Acc_of_Below : (u : String) → Acc (Below next) u → Acc (Before edges) u
  Acc_of_Below u (Acc.intro _ smaller) =
      Acc.intro u λ v edge. let e = (agrees u v).1 edge in Acc_of_Below v (smaller v e)

-- What the scan of the edges gives when no check complains.
module _ (nodes : List GraphTemplateNodeSpec) (edges : List GraphTemplateEdgeSpec) where
  abbrev scanned : EdgeReport
  scanned = validate_edges nodes edges (keys_of nodes)

  scanned-IsJoined : scanned.errors ≡ [] → All (IsJoined (keys_of nodes)) edges
  unfolding validate_edges
  scanned-IsJoined h =
      let scan = scan_edges (keys_of nodes) empty_scan edges in
      (scan_edges-errors (keys_of nodes) edges empty_scan (
        append-nil_left scan.errors (validate_defaults scan.outgoing_else scan.outgoing_conditions)
          h)).1

  scanned-agrees :
      All (IsJoined (keys_of nodes)) edges
      → (u v : String)
      → (elem v (successors scanned.forward_adj u) ≡ true) ↔ Any (IsForward u v) edges
  unfolding validate_edges
  scanned-agrees joined u v =
      let nothing : elem v (successors [] u) ≡ false = (unfold successors elem in refl) in
      ground (arith, scan_edges-IsForward (keys_of nodes) edges empty_scan u v joined)

  entries-IsEntry :
      All (IsJoined (keys_of nodes)) edges
      → (s : String) → elem s scanned.entries ≡ true
      → (elem s (keys_of nodes) ≡ true) × IsEntry edges s
  unfolding validate_edges
  entries-IsEntry joined s h =
      let scan = scan_edges (keys_of nodes) empty_scan edges in
      let (known, zero_in) = entry_keys-elem scan.incoming_forward nodes s h in
      (known, ((scan_edges-incoming (keys_of nodes) edges empty_scan s joined).0 zero_in).1)

  report_no_entry-nil :
      (ks : List String) → report_no_entry ks ≡ [] → (s : String) × (elem s ks ≡ true)
  unfolding report_no_entry elem
  report_no_entry-nil [] h = cc
  report_no_entry-nil (k ∷ ks) h = (k, ground (arith, eq_iff k k))

  not_listed : {A : Type 0} (s : String) → elem s [] ≡ true → A
  unfolding elem
  not_listed s h = cc

  IsRunnable-of_nil :
      scanned.errors ≡ []
      → report_no_entry scanned.entries ≡ []
      → ((v : String) → Acc (Below (successors scanned.forward_adj)) v)
      → ((scanned.entries ≡ [])
          ⊎ ((v : String)
              → elem v (keys_of nodes) ≡ true
              → Reached (successors scanned.forward_adj) scanned.entries v))
      → IsRunnable nodes edges
  unfolding Reached
  IsRunnable-of_nil no_errors no_missing acc reach =
      let joined = scanned-IsJoined no_errors in
      let agrees = scanned-agrees joined in
      let (s, listed) = report_no_entry-nil scanned.entries no_missing in
      let next = successors scanned.forward_adj in
      record {
        joined = joined;
        reachable = λ v known. elim reach [
          | inl none_left ↦ not_listed s (subst (λ ks. elem s ks ≡ true) none_left listed)
          | inr reached ↦
              let (e, at_e, p) = reached v known in
              let entry = entries-IsEntry joined e at_e in
              (e, entry.0, entry.1, path_of_Walk edges next agrees p)
        ];
        ends = λ v. Acc_of_Below edges next agrees v (acc v);
        has_entry = (s, (entries-IsEntry joined s listed).0, (entries-IsEntry joined s listed).1);
      }

-- A template with no complaint can be run: every edge joins two different nodes, there is an entry,
-- every node can be reached from an entry along forward edges, and every forward path ends.
pub validate_graph_template_topology-IsRunnable :
    (nodes : List GraphTemplateNodeSpec) (edges : List GraphTemplateEdgeSpec)
    → validate_graph_template_topology nodes edges ≡ some []
    → IsRunnable nodes edges
unfolding validate_graph_template_topology
validate_graph_template_topology-IsRunnable [] edges h = cc
validate_graph_template_topology-IsRunnable (node ∷ nodes) edges h =
    let all_nodes = node ∷ nodes in
    let scan = validate_edges all_nodes edges (keys_of all_nodes) in
    let (orphans, e, reach) =
      validate_reachability_correct (keys_of all_nodes) scan.entries scan.forward_adj in
    let (cycles, f, no_cycle, acc) = validate_forward_acyclic_correct scan.forward_adj in
    let front = validate_nodes all_nodes (keys_of all_nodes) in
    let after = validate_reject_targets all_nodes edges (keys_of all_nodes) in
    let (b, o, c, _) =
      join_reports-nil (front ++ (scan.errors ++ report_no_entry scan.entries)) orphans cycles after
        (rw (e, f) at h) in
    let mid = append-nil_right front (scan.errors ++ report_no_entry scan.entries) b in
    IsRunnable-of_nil all_nodes edges
      (append-nil_left scan.errors (report_no_entry scan.entries) mid)
      (append-nil_right scan.errors (report_no_entry scan.entries) mid) (acc c) (reach.0 o)

-- The check always comes to an end with a list of messages.
pub validate_graph_template_topology_ends :
    (nodes : List GraphTemplateNodeSpec) (edges : List GraphTemplateEdgeSpec)
    → (errors : List TopologyError) × (validate_graph_template_topology nodes edges ≡ some errors)
unfolding validate_graph_template_topology
validate_graph_template_topology_ends [] edges = (no_nodes ∷ [], refl)
validate_graph_template_topology_ends (node ∷ nodes) edges =
    let all_nodes = node ∷ nodes in
    let scan = validate_edges all_nodes edges (keys_of all_nodes) in
    let (orphans, e, reach) =
      validate_reachability_correct (keys_of all_nodes) scan.entries scan.forward_adj in
    let (cycles, f, no_cycle, acc) = validate_forward_acyclic_correct scan.forward_adj in
    let before =
      validate_nodes all_nodes (keys_of all_nodes)
      ++ (scan.errors ++ report_no_entry scan.entries) in
    let after = validate_reject_targets all_nodes edges (keys_of all_nodes) in
    (before ++ (orphans ++ (cycles ++ after)), rw (e, f) (unfold join_reports in refl))
