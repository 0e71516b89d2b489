-- ===== src/Handler/Registry.antt =====
-- `WorkflowNodeHandlerRegistry`, the default registry, and how `WorkflowGraphService`
-- (backend/app/services/workflow_graph_service.py) asks it to activate and to complete a node.
pub mod Laws
use Prim.Native.String.{◌++◌ as text_append}
use filum_reforge.Base.{
  String, Bool, true, false, ◌&&◌, Option, none, some, List, [], ◌∷◌, ◌==◌, if◌then◌else◌,
}
use filum_reforge.Value.{Value, Fields, end, get, str, text_of, or_value}
use filum_reforge.Text.{strip}
use filum_reforge.Errors.{Failure, Result, ok, raise, ◌>>=◌}
use filum_reforge.Handler.Defs.{
  NodeType, approval, same_type, node_type_value, pending, activated, completed, draft, assigned,
  done, waiting, succeeded, EngineState, BusinessState, do_complete, finalize_collection,
  CapabilityContext, CapabilityResult, Handler, Action,
}
use filum_reforge.Handler.HumanTask.{human_task_handler}
use filum_reforge.Handler.Approval.{approval_handler}
use filum_reforge.Handler.Notice.{notice_handler}

-- `resolve`
unfoldable pub resolve : NodeType → List Handler → Option Handler
resolve node_type [] = none
resolve node_type (h ∷ hs) =
    if same_type h.node_type node_type then some h else resolve node_type hs

abbrev pub already_registered : NodeType → Failure
already_registered node_type = record {
  type_name = "WorkflowNodeHandlerRegistrationError";
  message = text_append "节点类型 " (text_append (node_type_value node_type) " 已注册 Handler。");
}

-- `register`
unfoldable pub register : Handler → List Handler → Result (List Handler)
register handler registry = elim (resolve handler.node_type registry) [
  | some known ↦ raise (already_registered handler.node_type)
  | none ↦ ok (handler ∷ registry)
]

-- `require`
unfoldable pub require : NodeType → List Handler → Result Handler
require node_type registry = elim (resolve node_type registry) [
  | some handler ↦ ok handler
  | none ↦ raise (record {
    type_name = "WorkflowNodeHandlerNotFoundError";
    message = text_append "节点类型 " (text_append (node_type_value node_type) " 尚未注册 Handler。");
  })
]

-- `build_default_workflow_node_handler_registry`
unfoldable pub default_registry : (Value → String) → Result (List Handler)
default_registry show = do
  tasks ← register (human_task_handler show) []
  approvals ← register (approval_handler show) tasks
  register notice_handler approvals

-- An approval node without a `decision_semantic` is of the old kind, which has no handler.
unfoldable pub is_legacy : (Value → String) → NodeType → Fields → Bool
is_legacy show node_type config =
    same_type node_type approval
    && strip (text_of show (or_value (get config "decision_semantic") (str ""))) == ""

unfoldable pub handler_for : (Value → String) → List Handler → NodeType → Fields → Option Handler
handler_for show registry node_type config =
    if is_legacy show node_type config then none else resolve node_type registry

-- `_activation_result`
unfoldable pub activation_result :
    (Value → String) → List Handler → NodeType → String → Fields → CapabilityResult
activation_result show registry node_type node_key config =
    elim (handler_for show registry node_type config) [
      | none ↦ record {
        capability_key = text_append "legacy_" (node_type_value node_type);
        outcome = waiting;
        engine_state = activated;
        business_state = assigned;
        result = end;
        diagnostics = end;
        side_effects = [];
      }
      | some handler ↦ handler.activate (record {
        node_type = node_type;
        node_key = node_key;
        engine_state = pending;
        business_state = draft;
        config = config;
      })
    ]

unfoldable pub completion_action : (Value → String) → Fields → Action
completion_action show config =
    if text_of show (or_value (get config "decision_semantic") (str "work_item_complete"))
      == "collection_finalize"
    then finalize_collection
    else do_complete

-- `_completion_result`
unfoldable pub completion_result :
    (Value → String) → List Handler → CapabilityContext → Fields → Result CapabilityResult
completion_result show registry context payload =
    elim (handler_for show registry context.node_type context.config) [
      | none ↦ ok (record {
        capability_key = text_append "legacy_" (node_type_value context.node_type);
        outcome = succeeded;
        engine_state = completed;
        business_state = done;
        result = payload;
        diagnostics = end;
        side_effects = [];
      })
      | some handler ↦ handler.command context (completion_action show context.config) payload
    ]
