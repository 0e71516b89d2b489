-- ===== src/Runtime/Nodes.antt =====
-- The changes that the engine makes to node instances: `_skip_pending_nodes_v3`,
-- `_terminate_wait_any_peer_nodes_v3`, and `_apply_capability_result` with
-- `HumanTaskCoordinator.apply_capability_result` (backend/app/services/human_task_coordinator.py).
pub mod Evolve
use Prim.Native.String.{◌++◌ as text_append}
use filum_reforge.Base.{
  ℕ, suc, String, Bool, true, false, not, ◌&&◌, ◌||◌, Option, none, some, List, [], ◌∷◌, ◌==◌, elem,
  nat_eq, if◌then◌else◌, length, select_if, map,
}
use filum_reforge.Value.{Fields, end, field, str, obj, set_field}
use filum_reforge.Errors.{Result, ok, raise, conflict}
use filum_reforge.Handler.Defs.{
  NodeType, task, EngineState, activated, acknowledged, completed, terminated, skipped, cancelled,
  CapabilityResult,
}
use filum_reforge.Runtime.Defs.{NodeInstance, Database, Outside, is_pending, is_active}

-- `{**config, "system_resolution": {...}}`
unfoldable pub resolve_config : Fields → Fields → Fields
resolve_config config resolution = set_field "system_resolution" (obj resolution) config

-- An UPDATE of the rows that the test selects.
unfoldable pub update_if :
    (NodeInstance → Bool) → (NodeInstance → NodeInstance) → List NodeInstance → List NodeInstance
update_if test change [] = []
update_if test change (node ∷ nodes) =
    (if test node then change node else node) ∷ update_if test change nodes

-- The rows that `_skip_pending_nodes_v3` selects.
unfoldable pub is_skippable : List String → ℕ → NodeInstance → Bool
is_skippable node_keys iteration node =
    nat_eq node.iteration iteration && elem node.node_key node_keys && is_pending node.engine_state

unfoldable pub skip_node : Outside → ℕ → String → NodeInstance → NodeInstance
skip_node outside now reason node = record node {
  engine_state = skipped;
  business_state = cancelled;
  terminated_at = some now;
  node_instance_version = suc node.node_instance_version;
  config =
      resolve_config node.config
        (field "reason" (str reason) (field "resolved_at" (str (outside.isoformat now)) end));
}

-- The number of nodes that were skipped comes with the rows.
unfoldable pub skip_pending_nodes :
    Outside → ℕ → List String → ℕ → String → List NodeInstance → ℕ × List NodeInstance
skip_pending_nodes outside now node_keys iteration reason nodes =
    let test : NodeInstance → Bool = is_skippable node_keys iteration in
    (length (select_if test nodes), update_if test (skip_node outside now reason) nodes)

unfoldable pub is_cancel_policy : String → Bool
is_cancel_policy policy =
    policy == "revoke" || policy == "business_cancel" || policy == "compensate"

-- The rows that `_terminate_wait_any_peer_nodes_v3` selects.
unfoldable pub is_peer : List String → List String → ℕ → NodeInstance → Bool
is_peer upstream_keys winner_ids iteration node =
    nat_eq node.iteration iteration
    && elem node.node_key upstream_keys
    && not (elem node.id winner_ids)
    && is_active node.engine_state

unfoldable pub terminate_node : Outside → ℕ → String → NodeInstance → NodeInstance
terminate_node outside now cancel_policy node = record node {
  engine_state = terminated;
  business_state = cancelled;
  terminated_at = some now;
  node_instance_version = suc node.node_instance_version;
  config = resolve_config node.config (
      field "reason" (str "wait_any_resolved") (
        field "cancel_policy" (str cancel_policy)
          (field "resolved_at" (str (outside.isoformat now)) end)));
}

unfoldable pub terminate_wait_any_peer_nodes :
    Outside
    → ℕ
    → List String
    → List String
    → String
    → ℕ
    → List NodeInstance
    → Result (List NodeInstance)
terminate_wait_any_peer_nodes outside now upstream_keys winner_ids cancel_policy iteration nodes =
    if is_cancel_policy cancel_policy
    then ok (
        update_if (is_peer upstream_keys winner_ids iteration)
          (terminate_node outside now cancel_policy) nodes)
    else raise
        (conflict (text_append "不支持的 Wait-Any cancel policy：" (text_append cancel_policy "。")))

-- `a or now`
unfoldable pub or_now : Option ℕ → ℕ → Option ℕ
or_now (some t) now = some t
or_now none now = some now

-- The time stamps of a human task's node.
unfoldable pub stamp_task : EngineState → ℕ → NodeInstance → NodeInstance
stamp_task activated now node = record node {
  activated_at = some now;
  completed_at = none;
  terminated_at = none;
}
stamp_task completed now node = record node { completed_at = some now; terminated_at = none }
stamp_task terminated now node = record node {
  terminated_at = some now;
  completed_at = or_now node.completed_at now;
}
stamp_task _ now node = node

-- Those of any other node.
unfoldable pub stamp : EngineState → ℕ → NodeInstance → NodeInstance
stamp activated now node = record node { activated_at = some now }
stamp acknowledged now node = record node { acknowledged_at = or_now node.acknowledged_at now }
stamp completed now node = record node { completed_at = some now }
stamp terminated now node = record node { terminated_at = some now }
stamp _ now node = node

unfoldable pub stamp_for : NodeType → EngineState → ℕ → NodeInstance → NodeInstance
stamp_for task = stamp_task
stamp_for _ = stamp

unfoldable pub apply_capability_result : CapabilityResult → ℕ → NodeInstance → NodeInstance
apply_capability_result result now node =
    stamp_for node.node_type result.engine_state now (record node {
      engine_state = result.engine_state;
      business_state = result.business_state;
      node_instance_version = suc node.node_instance_version;
    })
