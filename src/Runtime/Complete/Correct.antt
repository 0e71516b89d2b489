-- ===== src/Runtime/Complete/Correct.antt =====
-- When a run ends, and with which result.
use filum_reforge.Base.{
  ℕ, String, ◌≡◌, ◌↔◌, ◌⊎◌, true, false, List, [], ◌∷◌, arith, ◌==◌, any, elem, All, Any,
}
use filum_reforge.Handler.Defs.{
  EngineState, pending, activated, acknowledged, completed, terminated, skipped, failed, suspended,
}
use filum_reforge.Runtime.Defs.{
  run_active, run_completed, NodeInstance, Dependency, Database, Definition, Outside, is_pending,
  is_active, is_stuck, is_completed, append_event,
}
use filum_reforge.Runtime.Complete.{
  fail_graph, end_reached, end_keys_of, settle_run, succeed, complete_run, maybe_complete_instance,
}

-- Nothing is left to do, nothing went wrong, and a completed node is an end of the graph.
pub record IsFinished (definition : Definition) (db : Database) : Type 0 where
  pub settled :
      All
        (λ node.
          (node.engine_state ≡ completed)
          ⊎ (node.engine_state ≡ skipped)
          ⊎ (node.engine_state ≡ terminated))
        db.nodes
  pub nothing_waits : All (λ dependency. (dependency.status == "waiting") ≡ false) db.dependencies
  pub at_end :
      Any
        (λ node.
          (node.engine_state ≡ completed) × (elem node.node_key (end_keys_of definition) ≡ true))
        db.nodes

state_settled :
    (state : EngineState)
    → ((state ≡ completed) ⊎ (state ≡ skipped) ⊎ (state ≡ terminated))
      ↔ ((is_active state ≡ false) × (is_stuck state ≡ false) × (is_pending state ≡ false))
unfolding is_active is_stuck is_pending
state_settled pending = ground arith
state_settled activated = ground arith
state_settled acknowledged = ground arith
state_settled completed = ground arith
state_settled terminated = ground arith
state_settled skipped = ground arith
state_settled failed = ground arith
state_settled suspended = ground arith

nodes_settled :
    (nodes : List NodeInstance)
    → All
        (λ node.
          (node.engine_state ≡ completed)
          ⊎ (node.engine_state ≡ skipped)
          ⊎ (node.engine_state ≡ terminated))
        nodes
      ↔ ((any (λ node. is_active node.engine_state) nodes ≡ false)
          × (any (λ node. is_stuck node.engine_state) nodes ≡ false)
          × (any (λ node. is_pending node.engine_state) nodes ≡ false))
nodes_settled [] = ground arith
nodes_settled (node ∷ nodes) = ground (arith, state_settled node.engine_state, nodes_settled nodes)

nothing_waiting :
    (dependencies : List Dependency)
    → All (λ dependency. (dependency.status == "waiting") ≡ false) dependencies
      ↔ (any (λ dependency. dependency.status == "waiting") dependencies ≡ false)
nothing_waiting [] = ground arith
nothing_waiting (dependency ∷ dependencies) = ground (arith, nothing_waiting dependencies)

completed_state : (state : EngineState) → (is_completed state ≡ true) ↔ (state ≡ completed)
unfolding is_completed
completed_state completed = ground arith
completed_state state = ground arith

end_reached_iff :
    (end_keys : List String) (nodes : List NodeInstance)
    → (end_reached end_keys nodes ≡ true)
      ↔ Any (λ node. (node.engine_state ≡ completed) × (elem node.node_key end_keys ≡ true)) nodes
unfolding end_reached
end_reached_iff end_keys [] = ground arith
end_reached_iff end_keys (node ∷ nodes) =
    ground (arith, completed_state node.engine_state, end_reached_iff end_keys nodes)

end_tests :
    (definition : Definition) (db : Database)
    → IsFinished definition db ↔ (
        (any (λ node. is_active node.engine_state) db.nodes ≡ false)
        × (any (λ node. is_stuck node.engine_state) db.nodes ≡ false)
        × (any (λ node. is_pending node.engine_state) db.nodes ≡ false)
        × (any (λ dependency. dependency.status == "waiting") db.dependencies ≡ false)
        × (end_reached (end_keys_of definition) db.nodes ≡ true))
end_tests definition db = (
  λ h.
      let (a, b, c) = (nodes_settled db.nodes).0 h.settled in
      (
        a,
        b,
        c,
        (nothing_waiting db.dependencies).0 h.nothing_waits,
        (end_reached_iff (end_keys_of definition) db.nodes).1 h.at_end,
      ),
  λ (a, b, c, d, e). record {
    settled = (nodes_settled db.nodes).1 (a, b, c);
    nothing_waits = (nothing_waiting db.dependencies).1 d;
    at_end = (end_reached_iff (end_keys_of definition) db.nodes).0 e;
  },
)

-- An active run succeeds exactly when it is finished, and stays active exactly while a node is
-- active. No other run is ever completed or activated, and no node is changed.
pub maybe_complete_instance_correct :
    (outside : Outside) (now : ℕ) (definition : Definition) (db : Database)
    → (((maybe_complete_instance outside now definition db).run.status ≡ run_completed) ↔ (
        (db.run.status ≡ run_completed)
        ⊎ ((db.run.status ≡ run_active) × IsFinished definition db)))
      × (((maybe_complete_instance outside now definition db).run.status ≡ run_active) ↔ (
          (db.run.status ≡ run_active)
          × (any (λ node. is_active node.engine_state) db.nodes ≡ true)))
      × ((maybe_complete_instance outside now definition db).nodes ≡ db.nodes)
unfolding maybe_complete_instance settle_run fail_graph succeed complete_run append_event
maybe_complete_instance_correct outside now definition db = ground (arith, end_tests definition db)
