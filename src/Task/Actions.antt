-- ===== src/Task/Actions.antt =====
-- backend/app/services/task_action_policy.py: who must act next on a standalone task, and what the
-- client offers to an actor.
use filum_reforge.Base.{
  String, Bool, true, false, ◌&&◌, ◌||◌, Option, none, some, List, [], ◌∷◌, map, ◌==◌,
  if◌then◌else◌,
}
use filum_reforge.Task.Defs.{todo, doing, review, blocked, done, Task, User}

pub data TaskAction : Type 0 where
  start_work submit_deliverable delegate_assignment approve_deliverable return_for_rework
        accept_assignment reject_assignment :
      TaskAction

pub record ActionOption : Type 0 where
  pub action : TaskAction
  pub label : String
  pub button_type : String

pub record WorkItemActionContext : Type 0 where
  pub execution_mode : String
  pub assignment_mode : String
  pub current_action_owner_id : Option String
  pub requires_action : Bool
  pub action_type : Option String
  pub available_actions : List ActionOption

unfoldable pub action_option : TaskAction → ActionOption
action_option start_work = record { action = start_work; label = "开始处理"; button_type = "primary" }
action_option submit_deliverable = record {
  action = submit_deliverable;
  label = "提交交付";
  button_type = "warning";
}
action_option delegate_assignment = record {
  action = delegate_assignment;
  label = "转办";
  button_type = "warning";
}
action_option approve_deliverable = record {
  action = approve_deliverable;
  label = "通过验收";
  button_type = "success";
}
action_option return_for_rework = record {
  action = return_for_rework;
  label = "打回返工";
  button_type = "danger";
}
action_option accept_assignment = record {
  action = accept_assignment;
  label = "接受任务";
  button_type = "primary";
}
action_option reject_assignment = record {
  action = reject_assignment;
  label = "退回协商";
  button_type = "danger";
}

unfoldable pub same_action : TaskAction → TaskAction → Bool
same_action start_work start_work = true
same_action submit_deliverable submit_deliverable = true
same_action delegate_assignment delegate_assignment = true
same_action approve_deliverable approve_deliverable = true
same_action return_for_rework return_for_rework = true
same_action accept_assignment accept_assignment = true
same_action reject_assignment reject_assignment = true
same_action _ _ = false

unfoldable pub standalone_action_owner_id : Task → Option String
standalone_action_owner_id task = elim task.status [
  | todo ↦ some task.assignee_id
  | doing ↦ some task.assignee_id
  | review ↦ some task.creator_id
  | blocked ↦ some task.assignee_id
  | done ↦ none
]

-- The actions, before each is given its label.
unfoldable pub standalone_actions : Task → User → Bool → List TaskAction
standalone_actions task actor is_management =
    let can_handle_execution = actor.id == task.assignee_id || is_management in
    let can_review = actor.id == task.creator_id || is_management in
    elim task.status [
      | todo ↦ if can_handle_execution then start_work ∷ delegate_assignment ∷ [] else []
      | doing ↦ if can_handle_execution then submit_deliverable ∷ delegate_assignment ∷ [] else []
      | review ↦ if can_review then approve_deliverable ∷ return_for_rework ∷ [] else []
      | blocked ↦ []
      | done ↦ []
    ]

unfoldable pub standalone_available_actions : Task → User → Bool → List ActionOption
unfolding standalone_actions action_option
standalone_available_actions task actor is_management =
    map action_option (standalone_actions task actor is_management)

unfoldable pub standalone_action_type : Task → Option String
standalone_action_type task = elim task.status [
  | todo ↦ some "start_work"
  | doing ↦ some "submit_deliverable"
  | review ↦ some "review_deliverable"
  | blocked ↦ none
  | done ↦ none
]

unfoldable pub is_owner : Option String → User → Bool
is_owner none actor = false
is_owner (some owner) actor = owner == actor.id

unfoldable pub build_standalone_action_context : Task → User → Bool → WorkItemActionContext
unfolding standalone_action_owner_id is_owner standalone_action_type standalone_available_actions
build_standalone_action_context task actor is_management =
    let owner_id = standalone_action_owner_id task in
    let actor_is_owner = is_owner owner_id actor in
    let action_type =
      if actor_is_owner || is_management then standalone_action_type task else none in
    record {
      execution_mode = "standalone";
      assignment_mode = if task.assignment_mode == "" then "direct" else task.assignment_mode;
      current_action_owner_id = owner_id;
      requires_action = actor_is_owner && elim action_type [ none ↦ false | some t ↦ true ];
      action_type = action_type;
      available_actions = standalone_available_actions task actor is_management;
    }

-- `action in {option.action for option in options}`
unfoldable pub offers : TaskAction → List ActionOption → Bool
unfolding same_action
offers action [] = false
offers action (option ∷ options) = same_action option.action action || offers action options
