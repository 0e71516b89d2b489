-- ===== src/Topology/Edges/Adjacency.antt =====
-- What the pass over the edges leaves behind: the adjacency and the counters hold the forward edges
-- between known nodes, and the errors speak of the rest.
use filum_reforge.Base.{
  ℕ, suc, String, ◌≡◌, ◌↔◌, ◌⊎◌, ◌≢◌, true, false, List, [], ◌∷◌, ◌++◌, arith, if◌then◌else◌, elem,
  elem-add, add, insert, lookup-insert, ◌==◌, eq_iff, Any, All,
}
use filum_reforge.Topology.Defs.{
  GraphTemplateEdgeSpec, TopologyError, edge_from_missing, edge_to_missing, self_edge,
  duplicate_edge,
}
use filum_reforge.Topology.Edges.{
  EdgeScan, successors, count_of, connect, report, note_path, note_forward, scan_edge, scan_edges,
}

-- A forward edge from `u` to `v`.
abbrev pub IsForward : String → String → GraphTemplateEdgeSpec → Type 0
IsForward u v edge =
    (edge.is_reject_path ≡ false) × (edge.from_node_key ≡ u) × (edge.to_node_key ≡ v)

-- Both ends are nodes, and they differ.
abbrev pub IsJoined : List String → GraphTemplateEdgeSpec → Type 0
IsJoined node_keys edge =
    (elem edge.from_node_key node_keys ≡ true)
    × (elem edge.to_node_key node_keys ≡ true)
    × (edge.from_node_key ≢ edge.to_node_key)

successors-insert :
    (u : String) (ks : List String) (adj : List (String × List String)) (x : String)
    → successors (insert u ks adj) x ≡ (if u == x then ks else successors adj x)
unfolding successors
successors-insert u ks adj x = ground (arith, lookup-insert u ks x adj)

pub successors-connect :
    (u v : String) (adj : List (String × List String)) (x y : String)
    → (elem y (successors (connect u v adj) x) ≡ true)
      ↔ ((elem y (successors adj x) ≡ true) ⊎ ((u ≡ x) × (v ≡ y)))
unfolding connect
successors-connect u v adj x y = ground (
  arith,
  successors-insert u (add v (successors adj u)) adj x,
  elem-add v y (successors adj u),
  eq_iff u x,
  eq_iff v y,
)

count_of-insert :
    (u : String) (n : ℕ) (counts : List (String × ℕ)) (x : String)
    → count_of (insert u n counts) x ≡ (if u == x then n else count_of counts x)
unfolding count_of
count_of-insert u n counts x = ground (arith, lookup-insert u n x counts)

module _ (node_keys : List String) where
  -- What one round adds to the adjacency.
  scan_edge-IsForward :
      (scan : EdgeScan) (edge : GraphTemplateEdgeSpec) (u v : String)
      → (elem v (successors (scan_edge node_keys scan edge).forward_adj u) ≡ true) ↔ (
          (elem v (successors scan.forward_adj u) ≡ true)
          ⊎ (IsForward u v edge
              × (elem edge.from_node_key node_keys ≡ true)
              × (elem edge.to_node_key node_keys ≡ true)))
  unfolding scan_edge report note_path note_forward
  scan_edge-IsForward scan edge u v =
      ground (arith, successors-connect edge.from_node_key edge.to_node_key scan.forward_adj u v)

  scan_edge-incoming :
      (scan : EdgeScan) (edge : GraphTemplateEdgeSpec) (v : String)
      → (count_of (scan_edge node_keys scan edge).incoming_forward v ≡ 0) ↔ (
          (count_of scan.incoming_forward v ≡ 0)
          × ¬ (
              (edge.is_reject_path ≡ false)
              × (edge.to_node_key ≡ v)
              × (elem edge.from_node_key node_keys ≡ true)
              × (elem edge.to_node_key node_keys ≡ true)))
  unfolding scan_edge report note_path note_forward
  scan_edge-incoming scan edge v = ground (
    arith,
    count_of-insert edge.to_node_key (suc (count_of scan.incoming_forward edge.to_node_key))
        scan.incoming_forward v,
    eq_iff edge.to_node_key v,
  )

  report-errors : (e : TopologyError) (scan : EdgeScan) → (report e scan).errors ≢ []
  unfolding report
  report-errors e scan h = append_ne_nil scan.errors e h
    where
      append_ne_nil : (xs : List TopologyError) (x : TopologyError) → (xs ++ x ∷ []) ≢ []
      append_ne_nil [] x q = cc
      append_ne_nil (y ∷ ys) x q = cc

  note_path-errors :
      (edge : GraphTemplateEdgeSpec) (scan : EdgeScan)
      → (note_path edge scan).errors ≡ []
      → (scan.errors ≡ []) × (edge.from_node_key ≢ edge.to_node_key)
  unfolding note_path
  note_path-errors edge scan h =
      let self = self_edge edge.from_node_key edge.to_node_key in
      let dup = duplicate_edge edge.from_node_key edge.to_node_key edge.is_reject_path in
      ground (
        arith,
        report-errors self scan,
        report-errors dup scan,
        report-errors dup (report self scan),
        eq_iff edge.from_node_key edge.to_node_key,
      )

  scan_edge-errors :
      (scan : EdgeScan) (edge : GraphTemplateEdgeSpec)
      → (scan_edge node_keys scan edge).errors ≡ []
      → (scan.errors ≡ []) × IsJoined node_keys edge
  unfolding scan_edge note_forward
  scan_edge-errors scan edge h = ground (
    arith,
    report-errors (edge_from_missing edge.from_node_key) scan,
    report-errors (edge_to_missing edge.to_node_key) scan,
    note_path-errors edge scan,
  )

  pub scan_edges-errors :
      (edges : List GraphTemplateEdgeSpec) (scan : EdgeScan)
      → (scan_edges node_keys scan edges).errors ≡ []
      → (scan.errors ≡ []) × All (IsJoined node_keys) edges
  unfolding scan_edges
  scan_edges-errors [] scan h = (h, tt)
  scan_edges-errors (edge ∷ edges) scan h =
      let (rest, joined) = scan_edges-errors edges (scan_edge node_keys scan edge) h in
      let (first, here) = scan_edge-errors scan edge rest in (first, (here, joined))

  -- With all edges joined, the adjacency holds exactly the forward edges.
  pub scan_edges-IsForward :
      (edges : List GraphTemplateEdgeSpec) (scan : EdgeScan) (u v : String)
      → All (IsJoined node_keys) edges
      → (elem v (successors (scan_edges node_keys scan edges).forward_adj u) ≡ true)
        ↔ ((elem v (successors scan.forward_adj u) ≡ true) ⊎ Any (IsForward u v) edges)
  unfolding scan_edges
  scan_edges-IsForward [] scan u v joined = ground arith
  scan_edges-IsForward (edge ∷ edges) scan u v joined = ground (
    arith,
    scan_edge-IsForward scan edge u v,
    scan_edges-IsForward edges (scan_edge node_keys scan edge) u v joined.1,
  )

  pub scan_edges-incoming :
      (edges : List GraphTemplateEdgeSpec) (scan : EdgeScan) (v : String)
      → All (IsJoined node_keys) edges
      → (count_of (scan_edges node_keys scan edges).incoming_forward v ≡ 0) ↔ (
          (count_of scan.incoming_forward v ≡ 0)
          × ¬ Any (λ e. (e.is_reject_path ≡ false) × (e.to_node_key ≡ v)) edges)
  unfolding scan_edges
  scan_edges-incoming [] scan v joined = ground arith
  scan_edges-incoming (edge ∷ edges) scan v joined = ground (
    arith,
    scan_edge-incoming scan edge v,
    scan_edges-incoming edges (scan_edge node_keys scan edge) v joined.1,
  )
