-- ===== src/Runtime/Advance/Skips.antt =====
-- Which nodes are skipped when routes are taken.
use filum_reforge.Base.{ℕ, String, ◌≡◌, ◌↔◌, true, List, arith, elem, minus, elem-minus, nat_eq_iff}
use filum_reforge.Handler.Defs.{EngineState, pending}
use filum_reforge.Runtime.Defs.{NodeInstance, RuntimeEdge, is_pending}
use filum_reforge.Runtime.Routes.{targets}
use filum_reforge.Runtime.Reach.Correct.{Downstream, reachable_node_keys_correct}
use filum_reforge.Runtime.Nodes.{is_skippable}
use filum_reforge.Runtime.Advance.{downstream_keys, abandoned_keys}

elem-downstream_keys :
    (starts : List String) (edges : List RuntimeEdge) (key : String)
    → (elem key (downstream_keys starts edges) ≡ true) ↔ Downstream starts edges key
unfolding downstream_keys
elem-downstream_keys starts edges key =
    let (found, e, rule) = reachable_node_keys_correct starts edges in
    rw (e, downstream_keys) (rule key)

is_pending_iff : (state : EngineState) → (is_pending state ≡ true) ↔ (state ≡ pending)
unfolding is_pending
is_pending_iff pending = ground arith
is_pending_iff state = ground arith

-- A node instance is skipped for a route that was not taken exactly when it belongs to this
-- iteration, is pending, lies downstream of such a route, and lies downstream of no route taken.
pub is_skippable-abandoned_keys :
    (edges leaving selected : List RuntimeEdge) (iteration : ℕ) (node : NodeInstance)
    → (is_skippable (abandoned_keys edges leaving selected) iteration node ≡ true) ↔ (
        (node.iteration ≡ iteration)
        × (node.engine_state ≡ pending)
        × Downstream (minus (targets leaving) (targets selected)) edges node.node_key
        × ¬ Downstream (targets selected) edges node.node_key)
unfolding is_skippable abandoned_keys
is_skippable-abandoned_keys edges leaving selected iteration node =
    let untaken = minus (targets leaving) (targets selected) in
    let behind = elem-downstream_keys untaken edges node.node_key in
    let ahead = elem-downstream_keys (targets selected) edges node.node_key in
    ground (
      arith,
      nat_eq_iff node.iteration iteration,
      is_pending_iff node.engine_state,
      elem-minus node.node_key (downstream_keys untaken edges)
          (downstream_keys (targets selected) edges),
      behind,
      ahead,
    )
