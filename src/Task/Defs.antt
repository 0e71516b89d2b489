-- ===== src/Task/Defs.antt =====
-- The columns of `Task` and `User` that backend/app/services/task_service.py uses, with the enums of
-- backend/app/core/enums.py and the readers of a task's metadata.
use filum_reforge.Base.{
  ℕ, String, Bool, true, false, not, ◌&&◌, ◌||◌, Option, none, some, ◌==◌, if◌then◌else◌,
}
use filum_reforge.Value.{is_true, str, Fields, get, truthy}
use filum_reforge.Text.{strip}

pub data TaskStatus : Type 0 where
  todo doing review blocked done : TaskStatus

pub data TaskSourceType : Type 0 where
  manual template event ai : TaskSourceType

pub data UserRole : Type 0 where
  admin hr employee : UserRole

pub data UserStatus : Type 0 where
  active inactive suspended offboarded : UserStatus

pub record User : Type 0 where
  pub id : String
  pub email : String
  pub role : UserRole
  pub status : UserStatus

-- Times count from some fixed point.
pub record Task : Type 0 where
  pub id : String
  pub status : TaskStatus
  pub source_type : TaskSourceType
  pub creator_id : String
  pub assignee_id : String
  pub department_id : Option String
  pub assignment_mode : String
  pub extra_metadata : Fields
  pub blocked_reason : Option String
  pub started_at : Option ℕ
  pub completed_at : Option ℕ
  pub updated_at : ℕ

unfoldable pub same_status : TaskStatus → TaskStatus → Bool
same_status todo todo = true
same_status doing doing = true
same_status review review = true
same_status blocked blocked = true
same_status done done = true
same_status _ _ = false

-- `status.value`
unfoldable pub status_value : TaskStatus → String
status_value todo = "todo"
status_value doing = "doing"
status_value review = "review"
status_value blocked = "blocked"
status_value done = "done"

-- `target in ALLOWED_TASK_STATUS_TRANSITIONS[status]`
unfoldable pub is_allowed_transition : TaskStatus → TaskStatus → Bool
is_allowed_transition todo doing = true
is_allowed_transition doing review = true
is_allowed_transition review done = true
is_allowed_transition _ _ = false

unfoldable pub is_template : TaskSourceType → Bool
is_template template = true
is_template _ = false

unfoldable pub is_manual : TaskSourceType → Bool
is_manual manual = true
is_manual _ = false

unfoldable pub is_admin : User → Bool
is_admin actor = elim actor.role [ admin ↦ true | hr ↦ false | employee ↦ false ]

-- `actor.role in MANAGEMENT_ROLES`
unfoldable pub is_management : User → Bool
is_management actor = elim actor.role [ admin ↦ true | hr ↦ true | employee ↦ false ]

unfoldable pub is_active_account : User → Bool
is_active_account actor = elim actor.status [
  | active ↦ true
  | inactive ↦ false
  | suspended ↦ false
  | offboarded ↦ false
]

-- `uses_graph_projection` of task_action_policy.py
unfoldable pub uses_graph_projection : Task → Bool
unfolding truthy get
uses_graph_projection task =
    truthy (get task.extra_metadata "workflow_graph_instance_id")
    && truthy (get task.extra_metadata "workflow_node_instance_id")

unfoldable pub is_standalone : Task → Bool
unfolding is_template uses_graph_projection
is_standalone task = not (is_template task.source_type) && not (uses_graph_projection task)

-- `_is_template_graph_task`, and `is_template_graph_projection` of workflow_orchestration_service.py
unfoldable pub is_template_graph_task : Task → Bool
unfolding is_template uses_graph_projection
is_template_graph_task task = is_template task.source_type && uses_graph_projection task

-- `_read_uuid_metadata`. How `UUID` reads a text is an argument; `none` is `ValueError`.
unfoldable pub read_uuid : (String → Option String) → Fields → String → Option String
unfolding get
read_uuid parse metadata key = elim (get metadata key) [
  | str s ↦ if s == "" then none else parse s
  | _ ↦ none
]

unfoldable pub read_str : Fields → String → Option String
unfolding get strip
read_str metadata key = elim (get metadata key) [
  | str s ↦ if strip s == "" then none else some (strip s)
  | _ ↦ none
]

unfoldable pub is_present {ℓ} : {A : Type ℓ} → Option A → Bool
is_present none = false
is_present (some x) = true

-- `_uses_graph_handshake_cycle`
unfoldable pub uses_graph_handshake_cycle : (String → Option String) → Task → Bool
unfolding is_manual read_uuid is_present
uses_graph_handshake_cycle parse task =
    is_manual task.source_type
    && is_present (read_uuid parse task.extra_metadata "workflow_graph_instance_id")
    && is_present (read_uuid parse task.extra_metadata "workflow_node_instance_id")

unfoldable pub is_handshake_state : String → Bool
is_handshake_state s = s == "assigned" || s == "accepted" || s == "rejected"

-- `_handshake_state_for_task`
unfoldable pub handshake_state : (String → Option String) → Task → Option String
unfolding uses_graph_handshake_cycle read_str is_handshake_state same_status
handshake_state parse task =
    let state = read_str task.extra_metadata "workflow_handshake_state" in
    let fallback = if same_status task.status todo then some "accepted" else none in
    if uses_graph_handshake_cycle parse task
    then elim state [ some s ↦ if is_handshake_state s then some s else fallback | none ↦ fallback ]
    else none

-- `_is_graph_run_root_shell_task`
unfoldable pub is_root_shell : Task → Bool
unfolding is_true get
is_root_shell task = is_true (get task.extra_metadata "workflow_graph_root_task")

-- `_is_admin_archived_task`
unfoldable pub is_admin_archived : Task → Bool
unfolding is_true get
is_admin_archived task = is_true (get task.extra_metadata "admin_archived")
