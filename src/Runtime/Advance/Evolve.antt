-- ===== src/Runtime/Advance/Evolve.antt =====
-- The step that follows a completed node changes open nodes only.
use filum_reforge.Base.{
  ℕ, String, sym, subst, inl, inr, Bool, true, false, List, Option-cases, Dict,
}
use filum_reforge.Errors.{ok, Yields, Yields-bind, Yields-if, Yields-next}
use filum_reforge.Runtime.Defs.{
  NodeInstance, Database, RuntimeNode, RuntimeEdge, Definition, Outside, append_event,
}
use filum_reforge.Runtime.Routes.{outgoing, targets, evaluate_routes, persist_traversals}
use filum_reforge.Runtime.Nodes.Evolve.{
  EvolveAll, EvolveAll-refl, EvolveAll-trans, skip_pending_nodes-EvolveAll,
}
use filum_reforge.Runtime.Complete.{fail_graph, maybe_complete_instance, node_named}
use filum_reforge.Runtime.Complete.Correct.{maybe_complete_instance_correct}
use filum_reforge.Runtime.Join.{scan_ready_nodes, has_some}
use filum_reforge.Runtime.Join.Evolve.{Onward, scan_ready_nodes-Yields}
use filum_reforge.Runtime.Advance.{
  forward_edges, abandoned_keys, produce_activations, fail_without_node, skip_nodes,
  fail_without_route, take_routes, follow_routes, leave_node, advance,
}

module _ (outside : Outside) (now : ℕ) (definition : Definition) where
  pub maybe_complete_instance-EvolveAll :
      (db : Database) → EvolveAll db.nodes (maybe_complete_instance outside now definition db).nodes
  maybe_complete_instance-EvolveAll db =
      let same = (maybe_complete_instance_correct outside now definition db).2 in
      subst (EvolveAll db.nodes) (sym same) (EvolveAll-refl db.nodes)

  skip_nodes-EvolveAll :
      (node_keys : List String) (iteration : ℕ) (reason : String) (db : Database)
      → EvolveAll db.nodes (skip_nodes outside now definition node_keys iteration reason db).nodes
  unfolding skip_nodes
  skip_nodes-EvolveAll node_keys iteration reason db =
      skip_pending_nodes-EvolveAll outside now node_keys iteration reason db.nodes

  fail_without_route-EvolveAll :
      (source : NodeInstance) (node : RuntimeNode) (db : Database)
      → EvolveAll db.nodes (fail_without_route outside now definition source node db).nodes
  unfolding fail_without_route fail_graph append_event
  fail_without_route-EvolveAll source node db =
      skip_nodes-EvolveAll _ source.iteration "no_route" db

  take_routes-Yields :
      (source : NodeInstance) (leaving selected : List RuntimeEdge) (db : Database)
      → Yields
          (λ after. EvolveAll db.nodes after.nodes)
          (take_routes outside now definition source leaving selected db)
  unfolding take_routes Yields
  take_routes-Yields source leaving selected db =
      let edges = forward_edges definition in
      let skipped =
        skip_nodes outside now definition (abandoned_keys edges leaving selected) source.iteration
          "route_not_selected" db in
      let produced = record skipped {
        dependencies = produce_activations source selected skipped.nodes skipped.dependencies;
      } in
      Yields-bind (λ after. EvolveAll produced.nodes after.nodes)
        (λ after. EvolveAll db.nodes after.nodes)
        (scan_ready_nodes outside now source.iteration definition.nodes edges produced) _
        (scan_ready_nodes-Yields outside now source.iteration definition.nodes edges produced)
        (λ after all.
          EvolveAll-trans db.nodes skipped.nodes after.nodes
            (skip_nodes-EvolveAll (abandoned_keys edges leaving selected) source.iteration
              "route_not_selected" db)
            all)

  follow_routes-Yields :
      (source : NodeInstance) (node : RuntimeNode) (leaving selected : List RuntimeEdge)
      (evaluations : Dict (Bool × String)) (db : Database)
      → Yields
          (Onward db)
          (follow_routes outside now definition source node leaving selected evaluations db)
  unfolding follow_routes Onward
  follow_routes-Yields source node leaving selected evaluations db =
      let recorded = record db {
        traversals =
            persist_traversals outside now db.run source (targets selected) evaluations leaving
              db.traversals;
      } in
      Yields-if (Onward db) (has_some selected) _
        (ok (false, fail_without_route outside now definition source node recorded))
        (Yields-bind (λ after. EvolveAll db.nodes after.nodes) (Onward db)
          (take_routes outside now definition source leaving selected recorded)
          (λ after. ok (true, after)) (take_routes-Yields source leaving selected recorded)
          (λ after all. unfold Yields in all))
        (unfold Yields in fail_without_route-EvolveAll source node recorded)

  leave_node-Yields :
      (source : NodeInstance) (node : RuntimeNode) (db : Database)
      → Yields (Onward db) (leave_node outside now definition source node db)
  unfolding leave_node Onward
  leave_node-Yields source node db =
      let leaving = outgoing node.node_key (forward_edges definition) in
      Yields-if (Onward db) (has_some leaving) _
        (ok (false, maybe_complete_instance outside now definition db))
        (Yields-next (Onward db) (evaluate_routes node.routing_mode leaving db.run.context)
          (λ (selected, evaluations).
            follow_routes outside now definition source node leaving selected evaluations db)
          (λ (selected, evaluations).
            follow_routes-Yields source node leaving selected evaluations db))
        (unfold Yields in maybe_complete_instance-EvolveAll db)

  -- Whatever a completed node leads to, each node instance is as before or was open, and then it is
  -- still the same node with a higher version.
  pub advance-Yields :
      (source : NodeInstance) (db : Database)
      → Yields (Onward db) (advance outside now definition source db)
  unfolding advance Onward
  advance-Yields source db = elim (Option-cases (node_named source.node_key definition.nodes)) [
    | inl missing ↦
        rw (missing, advance)
          (unfold Yields fail_without_node fail_graph append_event in EvolveAll-refl db.nodes)
    | inr (node, found) ↦ rw (found, advance) (leave_node-Yields source node db)
  ]
