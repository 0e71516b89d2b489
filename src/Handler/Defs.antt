-- ===== src/Handler/Defs.antt =====
-- The data of backend/app/services/workflow_node_handlers.py, and the enums that it takes from
-- backend/app/core/enums.py.
use filum_reforge.Base.{String, Bool, true, false, Option, none, some, List, ◌==◌, if◌then◌else◌}
use filum_reforge.Value.{end, texts, arr, obj, str, field, Fields}
use filum_reforge.Errors.{Failure, Result}

pub data NodeType : Type 0 where
  task approval notice : NodeType

pub data EngineState : Type 0 where
  pending activated acknowledged completed terminated skipped failed suspended : EngineState

pub data BusinessState : Type 0 where
  draft assigned accepted rejected delegated doing pending_review done returned_for_rework
        cancelled :
      BusinessState

-- `WorkflowCapabilityOutcome`
pub data Outcome : Type 0 where
  waiting succeeded gone_wrong called_off blocked : Outcome

-- `WorkflowCapabilityCommand`
pub data Action : Type 0 where
  do_complete finalize_collection do_approve do_reject do_return : Action

-- `WorkflowDecisionSemantic`
pub data Semantic : Type 0 where
  work_item_complete collection_finalize deliverable_acceptance business_approval cosign : Semantic

-- `semantic.value`
unfoldable pub semantic_value : Semantic → String
semantic_value work_item_complete = "work_item_complete"
semantic_value collection_finalize = "collection_finalize"
semantic_value deliverable_acceptance = "deliverable_acceptance"
semantic_value business_approval = "business_approval"
semantic_value cosign = "cosign"

-- `WorkflowDecisionSemantic(s)`; `none` is `ValueError`.
unfoldable pub semantic_named : String → Option Semantic
semantic_named s =
    if s == "work_item_complete"
    then some work_item_complete
    else if s == "collection_finalize"
    then some collection_finalize
    else if s == "deliverable_acceptance"
    then some deliverable_acceptance
    else if s == "business_approval"
    then some business_approval
    else if s == "cosign"
    then some cosign
    else none

-- `command.value`
unfoldable pub action_value : Action → String
action_value do_complete = "complete"
action_value finalize_collection = "finalize_collection"
action_value do_approve = "approve"
action_value do_reject = "reject"
action_value do_return = "return"

-- `node_type.value`
unfoldable pub node_type_value : NodeType → String
node_type_value task = "task"
node_type_value approval = "approval"
node_type_value notice = "notice"

unfoldable pub same_type : NodeType → NodeType → Bool
same_type task task = true
same_type approval approval = true
same_type notice notice = true
same_type _ _ = false

pub record CapabilityContext : Type 0 where
  pub node_type : NodeType
  pub node_key : String
  pub engine_state : EngineState
  pub business_state : BusinessState
  pub config : Fields

pub record CapabilityResult : Type 0 where
  pub capability_key : String
  pub outcome : Outcome
  pub engine_state : EngineState
  pub business_state : BusinessState
  pub result : Fields
  pub diagnostics : Fields
  pub side_effects : List String

-- `WorkflowNodeHandler`, the methods that a node type brings.
pub record Handler : Type 0 where
  pub capability_key : String
  pub node_type : NodeType
  pub interruptible : Bool
  pub compensation : String
  pub declared_side_effects : List String
  pub validate_definition : Fields → List String
  pub activate : CapabilityContext → CapabilityResult
  pub command : CapabilityContext → Action → Fields → Result CapabilityResult
  pub cancel : CapabilityContext → Result CapabilityResult
  pub retry : CapabilityContext → Result CapabilityResult

abbrev pub operation_error : String → Failure
operation_error message = record {
  type_name = "WorkflowCapabilityOperationError";
  message = message;
}

-- `engine_state in {FAILED, SUSPENDED}`
unfoldable pub can_retry : EngineState → Bool
can_retry failed = true
can_retry suspended = true
can_retry _ = false

-- `outcome.value`
unfoldable pub outcome_value : Outcome → String
outcome_value waiting = "waiting"
outcome_value succeeded = "succeeded"
outcome_value gone_wrong = "failed"
outcome_value called_off = "cancelled"
outcome_value blocked = "blocked"

-- `map_result`, which all handlers share.
unfoldable pub map_result : CapabilityResult → Fields
map_result r = field "capability_key" (str r.capability_key) (
    field "outcome" (str (outcome_value r.outcome)) (
      field "result" (obj r.result) (
        field "diagnostics" (obj r.diagnostics)
          (field "side_effects" (arr (texts r.side_effects)) end))))
