-- ===== src/Runtime/Join/Evolve.antt =====
-- Looking for nodes that are ready changes open nodes only.
use filum_reforge.Base.{
  ℕ, zero, suc, max, String, ◌≡◌, refl, inl, inr, Bool, true, false, ◌||◌, Option, none, some, List,
  [], ◌∷◌, ◌++◌, arith, if◌then◌else◌, Bool-cases, Option-cases, ◌==◌, map, select_if, any, length,
}
use filum_reforge.Value.{Fields}
use filum_reforge.Text.{strip, lower, or_text}
use filum_reforge.Errors.{
  Result, ok, ◌>>=◌, Yields, Yields-bind, Yields-if, Yields-next, weaken_result,
}
use filum_reforge.Handler.Registry.{activation_result}
use filum_reforge.Runtime.Defs.{
  NodeInstance, Database, RuntimeNode, RuntimeEdge, Outside, is_pending, append_event,
}
use filum_reforge.Runtime.Nodes.{apply_capability_result}
use filum_reforge.Runtime.Nodes.Evolve.{
  Changes, Evolves, EvolveAll, EvolveAll-refl, EvolveAll-trans, apply_capability_result-Changes,
  skip_pending_nodes-EvolveAll, terminate_wait_any_peer_nodes-Yields, is_open-is_pending,
}
use filum_reforge.Runtime.Complete.{fail_graph, node_named}
use filum_reforge.Runtime.Join.{
  handlers, assign_node, approval_events, activate_node, activate_nodes, is_target, is_satisfied,
  effective_groups, join_ready, incoming_keys, instances_of, finish_join, activate_targets,
  skip_unproduced, act_on_join, join_targets, resolve_join_outcome, scan_keys, scan_rounds,
  scan_ready_nodes, pending_keys,
}

module _ (outside : Outside) (now : ℕ) where
  assign_node-Yields :
      (context : Fields) (before node : NodeInstance)
      → Changes before node
      → Yields (Changes before) (assign_node outside context node)
  unfolding assign_node Changes Yields
  assign_node-Yields context before node h = elim (Option-cases node.assignee_user_id) [
    | inl unassigned ↦
        rw (unassigned, assign_node)
          (Yields-next (Changes before) (outside.assign node context)
            (λ who. ok (record node { assignee_user_id = who })) (λ who. h))
    | inr (user, assigned) ↦ rw (assigned, assign_node) h
  ]

  activate_node-Yields :
      (context : Fields) (node : NodeInstance)
      → is_pending node.engine_state ≡ true
      → Yields (λ (after, events). Changes node after) (activate_node outside now context node)
  unfolding activate_node Yields
  activate_node-Yields context node pending =
      let result =
        activation_result outside.show (handlers outside.show) node.node_type node.node_key
          node.config in
      let applied = apply_capability_result result now node in
      Yields-bind (Changes node) (λ (after, events). Changes node after)
        (assign_node outside context applied)
        (λ assigned. ok (assigned, approval_events outside result applied))
        (assign_node-Yields context node applied (
          apply_capability_result-Changes result now node
            (is_open-is_pending node.engine_state pending)))
        (λ after h. h)

  activate_nodes-Yields :
      (context : Fields) (test : NodeInstance → Bool) (nodes : List NodeInstance)
      → ((node : NodeInstance) → test node ≡ true → is_pending node.engine_state ≡ true)
      → Yields
          (λ (after, events). EvolveAll nodes after)
          (activate_nodes outside now context test nodes)
  unfolding activate_nodes Yields EvolveAll Evolves
  activate_nodes-Yields context test [] h = tt
  activate_nodes-Yields context test (node ∷ nodes) h =
      let rest = activate_nodes outside now context test nodes in
      let rest_evolves = activate_nodes-Yields context test nodes h in
      elim (Bool-cases (test node)) [
        | inl e ↦
            rw (e, activate_nodes)
              (Yields-bind (λ (after, events). Changes node after)
                (λ (after, events). EvolveAll (node ∷ nodes) after)
                (activate_node outside now context node)
                (λ (activated, events).
                  rest >>= λ (others, more). ok (activated ∷ others, events ++ more))
                (activate_node-Yields context node (h node e))
                (λ (activated, events) changes.
                  Yields-bind (λ (after, events). EvolveAll nodes after)
                    (λ (after, events). EvolveAll (node ∷ nodes) after) rest
                    (λ (others, more). ok (activated ∷ others, events ++ more)) rest_evolves
                    (λ (others, more) all. (inr changes, all))))
        | inr e ↦
            rw (e, activate_nodes)
              (Yields-bind (λ (after, events). EvolveAll nodes after)
                (λ (after, events). EvolveAll (node ∷ nodes) after) rest
                (λ (others, more). ok (node ∷ others, more)) rest_evolves
                (λ (others, more) all. (inl refl, all)))
      ]

-- The node instances after are those before, changed where they are open.
unfoldable pub Onward : {C : Type 0} → Database → C × Database → Type 0
Onward db (c, after) = EvolveAll db.nodes after.nodes

is_target-is_pending :
    (key : String) (iteration : ℕ) (node : NodeInstance)
    → is_target key iteration node ≡ true
    → is_pending node.engine_state ≡ true
unfolding is_target
is_target-is_pending key iteration node e = ground arith

-- A step that goes on from where another has come to.
after_Onward :
    (db after : Database) (m : Result (Bool × Database))
    → EvolveAll db.nodes after.nodes
    → Yields (Onward after) m
    → Yields (Onward db) m
unfolding Onward
after_Onward db after m h =
    weaken_result (Onward after) (Onward db) m
      (λ (c, last) k. EvolveAll-trans db.nodes after.nodes last.nodes h k)

module _ (outside : Outside) (now : ℕ) (iteration : ℕ) (target : RuntimeNode) where
  finish_join-Yields :
      (mode : String) (incoming ids : List String) (db : Database)
      → Yields (Onward db) (finish_join outside now iteration target mode incoming ids db)
  unfolding finish_join Onward Yields
  finish_join-Yields mode incoming ids db =
      Yields-if (Onward db) (mode == "any") _ (ok (true, db))
        (Yields-bind (EvolveAll db.nodes) (Onward db) _
          (λ nodes. ok (true, record db { nodes = nodes }))
          (terminate_wait_any_peer_nodes-Yields outside now incoming _ _ iteration db.nodes)
          (λ nodes all. all))
        (EvolveAll-refl db.nodes)

  activate_targets-Yields :
      (mode : String) (incoming ids : List String) (db : Database)
      → Yields (Onward db) (activate_targets outside now iteration target mode incoming ids db)
  unfolding activate_targets
  activate_targets-Yields mode incoming ids db =
      Yields-bind (λ (nodes, events). EvolveAll db.nodes nodes) (Onward db)
        (activate_nodes outside now db.run.context (is_target target.node_key iteration) db.nodes)
        (λ (nodes, events).
          finish_join outside now iteration target mode incoming ids
            (record db { nodes = nodes; events = db.events ++ events }))
        (activate_nodes-Yields outside now db.run.context (is_target target.node_key iteration)
          db.nodes (is_target-is_pending target.node_key iteration))
        (λ (nodes, events) all.
          let after = record db { nodes = nodes; events = db.events ++ events } in
          after_Onward db after _ all (finish_join-Yields mode incoming ids after))

  skip_unproduced-Yields :
      (sources : List NodeInstance) (db : Database)
      → Yields (Onward db) (skip_unproduced outside now iteration target sources db)
  unfolding skip_unproduced Onward Yields
  skip_unproduced-Yields sources db = ground (
    arith,
    skip_pending_nodes-EvolveAll outside now (target.node_key ∷ []) iteration
        "activation_not_produced" db.nodes,
    EvolveAll-refl db.nodes,
  )

  act_on_join-Yields :
      (ready : Option Bool) (mode : String) (incoming ids : List String) (db : Database)
      → Yields (Onward db) (act_on_join outside now iteration target ready mode incoming ids db)
  unfolding act_on_join Onward Yields fail_graph append_event
  act_on_join-Yields none mode incoming ids db = EvolveAll-refl db.nodes
  act_on_join-Yields (some true) mode incoming ids db = activate_targets-Yields mode incoming ids db
  act_on_join-Yields (some false) mode incoming ids db = EvolveAll-refl db.nodes

  join_targets-Yields :
      (incoming : List String) (sources : List NodeInstance) (ids : List String) (db : Database)
      → Yields (Onward db) (join_targets outside now iteration target incoming sources ids db)
  unfolding join_targets
  join_targets-Yields incoming sources ids db =
      let mode = lower (strip (or_text target.join_mode "all")) in
      let ready = join_ready mode (effective_groups incoming sources) in
      Yields-if (Onward db) (any (is_satisfied ids) db.dependencies)
        (act_on_join outside now iteration target ready mode incoming ids db)
        (skip_unproduced outside now iteration target sources db)
        (act_on_join-Yields ready mode incoming ids db) (skip_unproduced-Yields sources db)

  resolve_join_outcome-Yields :
      (edges : List RuntimeEdge) (db : Database)
      → Yields (Onward db) (resolve_join_outcome outside now iteration target edges db)
  unfolding resolve_join_outcome Onward Yields fail_graph append_event
  resolve_join_outcome-Yields edges db =
      let incoming = incoming_keys target.node_key edges in
      let sources = instances_of incoming iteration db.nodes in
      let ids = map (λ node. node.id) (select_if (is_target target.node_key iteration) db.nodes) in
      ground (arith, EvolveAll-refl db.nodes, join_targets-Yields incoming sources ids db)

module _ (outside : Outside) (now : ℕ) (iteration : ℕ) (nodes : List RuntimeNode)
    (edges : List RuntimeEdge) where
  scan_keys-Yields :
      (node_keys : List String) (changed : Bool) (db : Database)
      → Yields (Onward db) (scan_keys outside now iteration nodes edges node_keys changed db)
  unfolding scan_keys
  scan_keys-Yields [] changed db = unfold Yields Onward in EvolveAll-refl db.nodes
  scan_keys-Yields (key ∷ node_keys) changed db = elim (Option-cases (node_named key nodes)) [
    | inl unknown ↦ rw (unknown, scan_keys) (scan_keys-Yields node_keys changed db)
    | inr (target, known) ↦
        rw (known, scan_keys)
          (Yields-bind (Onward db) (Onward db)
            (resolve_join_outcome outside now iteration target edges db)
            (λ (outcome, after).
              scan_keys outside now iteration nodes edges node_keys (changed || outcome) after)
            (resolve_join_outcome-Yields outside now iteration target edges db)
            (λ (outcome, after) all.
              after_Onward db after _ (unfold Onward in all)
                (scan_keys-Yields node_keys (changed || outcome) after)))
  ]

  scan_rounds-Yields :
      (rounds : ℕ) (db : Database)
      → Yields
          (λ after. EvolveAll db.nodes after.nodes)
          (scan_rounds outside now iteration nodes edges rounds db)
  unfolding scan_rounds
  scan_rounds-Yields zero db = unfold Yields in EvolveAll-refl db.nodes
  scan_rounds-Yields (suc rounds) db =
      let next : Database → Result Database =
        scan_rounds outside now iteration nodes edges rounds in
      Yields-bind (Onward db) (λ after. EvolveAll db.nodes after.nodes) _
        (λ (changed, after). if changed then next after else ok after)
        (scan_keys-Yields (pending_keys outside now iteration nodes edges db) false db)
        (λ (changed, after) all.
          let came : EvolveAll db.nodes after.nodes = unfold Onward in all in
          Yields-if (λ last. EvolveAll db.nodes last.nodes) changed (next after) (ok after)
            (weaken_result (λ last. EvolveAll after.nodes last.nodes)
              (λ last. EvolveAll db.nodes last.nodes) (next after)
              (λ last k. EvolveAll-trans db.nodes after.nodes last.nodes came k)
              (scan_rounds-Yields rounds after))
            (unfold Yields in came))

  pub scan_ready_nodes-Yields :
      (db : Database)
      → Yields
          (λ after. EvolveAll db.nodes after.nodes)
          (scan_ready_nodes outside now iteration nodes edges db)
  unfolding scan_ready_nodes
  scan_ready_nodes-Yields db = scan_rounds-Yields (max 1 (length nodes)) db
