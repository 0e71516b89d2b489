-- ===== src/Runtime/Join.antt =====
-- `_resolve_join_outcome_v3` and `_scan_ready_nodes_v3`: when a pending node is activated, skipped, or
-- fails the run.
pub mod Evolve
use Prim.Native.String.{◌++◌ as text_append}
use filum_reforge.Base.{
  ℕ, zero, suc, max, String, Bool, true, false, not, ◌&&◌, ◌||◌, Option, none, some, List, [], ◌∷◌,
  ◌++◌, ◌==◌, if◌then◌else◌, any, all, elem, select_if, map, nat_eq, length,
}
use filum_reforge.Value.{Value, Fields, end, get, str, or_value, text_of}
use filum_reforge.Text.{strip, lower, or_text, sorted}
use filum_reforge.Errors.{Result, ok, raise, ◌>>=◌}
use filum_reforge.Handler.Defs.{Handler, CapabilityResult}
use filum_reforge.Handler.Policy.{from_keys}
use filum_reforge.Handler.HumanTask.{human_task_handler}
use filum_reforge.Handler.Approval.{approval_handler}
use filum_reforge.Handler.Notice.{notice_handler}
use filum_reforge.Handler.Registry.{activation_result}
use filum_reforge.Runtime.Defs.{
  Run, NodeInstance, Dependency, Event, Database, RuntimeNode, RuntimeEdge, Outside, is_pending,
  is_stuck, is_dropped, is_completed,
}
use filum_reforge.Runtime.Nodes.{
  skip_pending_nodes, terminate_wait_any_peer_nodes, apply_capability_result,
}
use filum_reforge.Runtime.Complete.{fail_graph, node_named}

-- The handlers of the default registry.
unfoldable pub handlers : (Value → String) → List Handler
handlers show = notice_handler ∷ approval_handler show ∷ human_task_handler show ∷ []

-- The rows of this iteration whose node is one of the keys.
unfoldable pub instances_of : List String → ℕ → List NodeInstance → List NodeInstance
instances_of node_keys iteration nodes =
    select_if (λ node. nat_eq node.iteration iteration && elem node.node_key node_keys) nodes

unfoldable pub incoming_keys : String → List RuntimeEdge → List String
incoming_keys key edges =
    from_keys []
      (map (λ edge. edge.from_node_key) (select_if (λ edge. edge.to_node_key == key) edges))

-- `effective_groups`: the sources of each key that still count, without the empty groups.
unfoldable pub effective_groups : List String → List NodeInstance → List (List NodeInstance)
effective_groups [] sources = []
effective_groups (key ∷ node_keys) sources =
    let groups = effective_groups node_keys sources in
    elim (select_if (λ node. node.node_key == key && not (is_dropped node.engine_state)) sources) [
      | [] ↦ groups
      | node ∷ more ↦ (node ∷ more) ∷ groups
    ]

unfoldable pub has_some {ℓ} : {A : Type ℓ} → List A → Bool
has_some [] = false
has_some (x ∷ xs) = true

-- `ready`; `none` is a join mode that is not known.
unfoldable pub join_ready : String → List (List NodeInstance) → Option Bool
join_ready mode groups =
    if mode == "any"
    then some true
    else if mode == "all"
    then some (
        has_some groups && all (λ group. all (λ node. is_completed node.engine_state) group) groups)
    else none

unfoldable pub is_satisfied : List String → Dependency → Bool
is_satisfied ids dependency =
    elem dependency.node_instance_id ids && dependency.status == "satisfied"

unfoldable pub approval_events : Outside → CapabilityResult → NodeInstance → List Event
approval_events outside result node =
    elim (if elem "ensure_approval_instance" result.side_effects
      then outside.create_approval node
      else none) [
        | some payload ↦ record { event_type = "approval_instance_linked"; payload = payload } ∷ []
        | none ↦ []
      ]

unfoldable pub assign_node : Outside → Fields → NodeInstance → Result NodeInstance
assign_node outside context node = elim node.assignee_user_id [
  | some user ↦ ok node
  | none ↦ do who ← outside.assign node context; ok (record node { assignee_user_id = who })
]

-- What is done to a node that becomes ready, and what is logged.
unfoldable pub activate_node :
    Outside → ℕ → Fields → NodeInstance → Result (NodeInstance × List Event)
activate_node outside now context node = do
  let result =
      activation_result outside.show (handlers outside.show) node.node_type node.node_key
        node.config
  let applied = apply_capability_result result now node
  assigned ← assign_node outside context applied
  ok (assigned, approval_events outside result applied)

unfoldable pub activate_nodes :
    Outside
    → ℕ
    → Fields
    → (NodeInstance → Bool)
    → List NodeInstance
    → Result (List NodeInstance × List Event)
activate_nodes outside now context test [] = ok ([], [])
activate_nodes outside now context test (node ∷ nodes) =
    let rest = activate_nodes outside now context test nodes in
    if test node
    then (do
      (activated, events) ← activate_node outside now context node
      (others, more) ← rest
      ok (activated ∷ others, events ++ more))
    else (do (others, more) ← rest; ok (node ∷ others, more))

unfoldable pub is_target : String → ℕ → NodeInstance → Bool
is_target key iteration node =
    nat_eq node.iteration iteration && node.node_key == key && is_pending node.engine_state

module _ (outside : Outside) (now : ℕ) (iteration : ℕ) (target : RuntimeNode) where
  -- The peers that have not won are terminated if one branch is enough.
  unfoldable pub finish_join :
      String → List String → List String → Database → Result (Bool × Database)
  finish_join mode incoming ids db =
      let policy =
        text_of outside.show
          (or_value (get target.config "wait_any_cancel_policy") (str "revoke")) in
      let winners =
        map (λ dependency. dependency.source_node_instance_id)
          (select_if (is_satisfied ids) db.dependencies) in
      if mode == "any"
      then (do
        nodes ← terminate_wait_any_peer_nodes outside now incoming winners policy iteration db.nodes
        ok (true, record db { nodes = nodes }))
      else ok (true, db)

  unfoldable pub activate_targets :
      String → List String → List String → Database → Result (Bool × Database)
  activate_targets mode incoming ids db = do
    (nodes, events) ←
        activate_nodes outside now db.run.context (is_target target.node_key iteration) db.nodes
    finish_join mode incoming ids (record db { nodes = nodes; events = db.events ++ events })

  -- No branch has produced an activation: the node is skipped once none can.
  unfoldable pub skip_unproduced : List NodeInstance → Database → Result (Bool × Database)
  skip_unproduced sources db =
      let (count, nodes) =
        skip_pending_nodes outside now (target.node_key ∷ []) iteration "activation_not_produced"
          db.nodes in
      if has_some sources
        && all (λ node. is_completed node.engine_state || is_dropped node.engine_state) sources
      then ok (not (nat_eq count 0), record db { nodes = nodes })
      else ok (false, db)

  -- What follows from `ready`; `none` is a join mode that is not known.
  unfoldable pub act_on_join :
      Option Bool → String → List String → List String → Database → Result (Bool × Database)
  act_on_join none mode incoming ids db = ok (
    true,
    fail_graph now "invalid_join_mode"
        (text_append "节点 " (
          text_append target.node_key
            (text_append " 使用了无效 join_mode=" (text_append target.join_mode "。"))))
        end db,
  )
  act_on_join (some true) mode incoming ids db = activate_targets mode incoming ids db
  act_on_join (some false) mode incoming ids db = ok (false, db)

  unfoldable pub join_targets :
      List String → List NodeInstance → List String → Database → Result (Bool × Database)
  join_targets incoming sources ids db =
      let mode = lower (strip (or_text target.join_mode "all")) in
      if any (is_satisfied ids) db.dependencies
      then act_on_join (join_ready mode (effective_groups incoming sources)) mode incoming ids db
      else skip_unproduced sources db

  unfoldable pub resolve_join_outcome : List RuntimeEdge → Database → Result (Bool × Database)
  resolve_join_outcome edges db =
      let incoming = incoming_keys target.node_key edges in
      let sources = instances_of incoming iteration db.nodes in
      let ids = map (λ node. node.id) (select_if (is_target target.node_key iteration) db.nodes) in
      let failure =
        fail_graph now "upstream_failed"
          (text_append "节点 " (text_append target.node_key " 的上游失败或挂起。")) end db in
      if not (has_some incoming)
      then ok (false, db)
      else if any (λ node. is_stuck node.engine_state) sources
      then ok (true, failure)
      else if not (has_some ids)
      then ok (false, db)
      else join_targets incoming sources ids db

module _ (outside : Outside) (now : ℕ) (iteration : ℕ) (nodes : List RuntimeNode)
    (edges : List RuntimeEdge) where
  -- One round over the keys that are pending, which says whether anything has changed.
  unfoldable pub scan_keys : List String → Bool → Database → Result (Bool × Database)
  scan_keys [] changed db = ok (changed, db)
  scan_keys (key ∷ node_keys) changed db = elim (node_named key nodes) [
    | none ↦ scan_keys node_keys changed db
    | some target ↦ do
      (outcome, after) ← resolve_join_outcome outside now iteration target edges db
      scan_keys node_keys (changed || outcome) after
  ]

  unfoldable pub pending_keys : Database → List String
  pending_keys db = sorted (
      from_keys [] (
        map (λ node. node.node_key)
          (select_if (λ node. nat_eq node.iteration iteration && is_pending node.engine_state)
            db.nodes)))

  unfoldable pub scan_rounds : ℕ → Database → Result Database
  scan_rounds zero db = ok db
  scan_rounds (suc rounds) db = do
    (changed, after) ← scan_keys (pending_keys db) false db
    let next = scan_rounds rounds after
    if changed then next else ok after

  unfoldable pub scan_ready_nodes : Database → Result Database
  scan_ready_nodes db = scan_rounds (max 1 (length nodes)) db
