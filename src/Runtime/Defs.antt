-- ===== src/Runtime/Defs.antt =====
-- The state of one run: the rows of backend/app/models/workflow_graph.py that belong to it, and its
-- definition as backend/app/services/workflow_definition_snapshot.py reads it.
use filum_reforge.Base.{ℕ, String, Bool, true, false, Option, List, [], ◌∷◌, ◌++◌}
use filum_reforge.Value.{Value, Fields}
use filum_reforge.Errors.{Result}
use filum_reforge.Handler.Defs.{
  NodeType, EngineState, BusinessState, pending, activated, acknowledged, completed, terminated,
  skipped, failed, suspended,
}

pub data RunStatus : Type 0 where
  run_pending run_active run_completed run_cancelled run_terminated run_failed : RunStatus

-- `WorkflowGraphInstance`
pub record Run : Type 0 where
  pub status : RunStatus
  pub result : Option String
  pub diagnostics : Fields
  pub current_node_key : Option String
  pub completed_at : Option ℕ
  pub context : Fields
  pub context_version : ℕ

-- `WorkflowNodeInstance`
pub record NodeInstance : Type 0 where
  pub id : String
  pub node_key : String
  pub instance_key : String
  pub node_type : NodeType
  pub iteration : ℕ
  pub engine_state : EngineState
  pub business_state : BusinessState
  pub assignee_user_id : Option String
  pub node_instance_version : ℕ
  pub config : Fields
  pub created_at : ℕ
  pub activated_at : Option ℕ
  pub acknowledged_at : Option ℕ
  pub completed_at : Option ℕ
  pub terminated_at : Option ℕ

-- `WorkflowEdgeTraversal`
pub record Traversal : Type 0 where
  pub source_node_instance_id : String
  pub iteration : ℕ
  pub from_node_key : String
  pub to_node_key : String
  pub status : String
  pub condition : Fields
  pub evidence : Fields
  pub context_version : ℕ

-- `WorkflowNodeActivationDependency`
pub record Dependency : Type 0 where
  pub node_instance_id : String
  pub source_node_instance_id : String
  pub iteration : ℕ
  pub target_node_key : String
  pub status : String

-- `WorkflowRunEvent`
pub record Event : Type 0 where
  pub event_type : String
  pub payload : Fields

pub record Database : Type 0 where
  pub run : Run
  pub nodes : List NodeInstance
  pub traversals : List Traversal
  pub dependencies : List Dependency
  pub events : List Event

-- `RuntimeDefinitionNode`
pub record RuntimeNode : Type 0 where
  pub node_key : String
  pub routing_mode : String
  pub join_mode : String
  pub config : Fields
  pub sort_order : ℕ

-- `RuntimeDefinitionEdge`
pub record RuntimeEdge : Type 0 where
  pub from_node_key : String
  pub to_node_key : String
  pub is_reject_path : Bool
  pub condition : Fields
  pub priority : ℕ

-- What the definition snapshot holds.
pub record Definition : Type 0 where
  pub nodes : List RuntimeNode
  pub edges : List RuntimeEdge
  pub end_node_keys : List String

-- What the engine asks of others: the texts that Python prints, the digest of a context, who a node
-- is assigned to, the payload that is logged if an approval was created for a node, whether the
-- run's capability snapshot asks for an archive, and the context that remains once a following
-- template was started.
pub record Outside : Type 0 where
  pub show : Value → String
  pub isoformat : ℕ → String
  pub digest : Fields → String
  pub assign : NodeInstance → Fields → Result (Option String)
  pub create_approval : NodeInstance → Option Fields
  pub archives : Fields → Bool
  pub start_next_template : Run → Fields

-- PENDING, ACTIVATED and ACKNOWLEDGED: the states that the engine still moves.
unfoldable pub is_open : EngineState → Bool
is_open pending = true
is_open activated = true
is_open acknowledged = true
is_open _ = false

unfoldable pub is_pending : EngineState → Bool
is_pending pending = true
is_pending _ = false

unfoldable pub is_active : EngineState → Bool
is_active activated = true
is_active acknowledged = true
is_active _ = false

unfoldable pub is_activated : EngineState → Bool
is_activated activated = true
is_activated _ = false

unfoldable pub is_completed : EngineState → Bool
is_completed completed = true
is_completed _ = false

-- FAILED or SUSPENDED.
unfoldable pub is_stuck : EngineState → Bool
is_stuck failed = true
is_stuck suspended = true
is_stuck _ = false

-- SKIPPED or TERMINATED, states of a branch that no longer counts.
unfoldable pub is_dropped : EngineState → Bool
is_dropped skipped = true
is_dropped terminated = true
is_dropped _ = false

unfoldable pub append_event : String → Fields → Database → Database
append_event event_type payload db = record db {
  events = db.events ++ (record { event_type = event_type; payload = payload } ∷ []);
}
