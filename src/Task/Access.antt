-- ===== src/Task/Access.antt =====
-- The guards of backend/app/services/task_service.py: who may see, work on, review and delegate a task.
use filum_reforge.Base.{
  String, Bool, false, not, ◌&&◌, ◌||◌, Option, none, some, List, ◌==◌, elem, if◌then◌else◌,
}
use filum_reforge.Value.{Value, obj, str, get}
use filum_reforge.Errors.{Failure, Result, ok, raise, conflict, not_found, forbidden}
use filum_reforge.Task.Defs.{
  Task, User, is_admin, is_management, is_active_account, is_template_graph_task, read_uuid,
}
use filum_reforge.Task.Services.{TaskServices}

abbrev pub inactive_account : Failure
inactive_account = record { type_name = "AuthenticationError"; message = "当前账号不可用。" }

-- `Task.extra_metadata["reviewer_id"].as_string() == str(actor.id)`
unfoldable pub names_reviewer : Task → User → Bool
unfolding get
names_reviewer task actor = elim (get task.extra_metadata "reviewer_id") [
  | str s ↦ s == actor.id
  | _ ↦ false
]

unfoldable pub in_departments : Option String → List String → Bool
in_departments none ids = false
in_departments (some id) ids = elem id ids

-- The capability has the surface or the mode of a review node.
unfoldable pub is_review_capability : Value → Bool
unfolding get
is_review_capability (obj capability) =
    elim (get capability "surface") [ str s ↦ s == "review" | _ ↦ false ]
    || elim (get capability "submit_mode") [ str s ↦ s == "review" | _ ↦ false ]
is_review_capability _ = false

-- `_template_review_executor_id`
unfoldable pub template_review_executor_id : Task → String
unfolding is_review_capability get
template_review_executor_id task =
    if is_review_capability (get task.extra_metadata "task_capability")
    then task.creator_id
    else task.assignee_id

-- `_ensure_task_assignee_or_manager`
unfoldable pub ensure_task_assignee_or_manager : User → Task → Result (Unit {0})
unfolding is_management
ensure_task_assignee_or_manager actor task =
    if is_management actor || actor.id == task.assignee_id
    then ok tt
    else raise (forbidden "当前账号不能提交该任务交付物。")

-- `_ensure_task_handshake_actor`
unfoldable pub ensure_task_handshake_actor : User → Task → Result (Unit {0})
unfolding is_management
ensure_task_handshake_actor actor task =
    if is_management actor || actor.id == task.assignee_id
    then ok tt
    else raise (forbidden "当前账号不能处理该任务的握手动作。")

-- `_ensure_standalone_delegate_authority`
unfoldable pub ensure_standalone_delegate_authority : User → Task → Result (Unit {0})
unfolding is_management
ensure_standalone_delegate_authority actor task =
    if actor.id == task.assignee_id || is_management actor
    then ok tt
    else raise (forbidden "仅当前执行人或任务管理员可以转办该任务。")

-- `_ensure_task_reviewer`
unfoldable pub ensure_task_reviewer : (String → Option String) → User → Task → Result (Unit {0})
unfolding is_admin is_management is_template_graph_task template_review_executor_id read_uuid
ensure_task_reviewer parse actor task =
    let reviewer_id = read_uuid parse task.extra_metadata "reviewer_id" in
    if is_template_graph_task task
    then (if is_admin actor
        then ok tt
        else if actor.id == template_review_executor_id task
        then raise (conflict "Self-review is not permitted for template tasks")
        else elim reviewer_id [
          | some id ↦ if actor.id == id then ok tt else raise (forbidden "当前账号不是该模板任务的指定验收人。")
          | none ↦ raise (forbidden "当前账号不是该模板任务的指定验收人。")
        ])
    else if is_management actor || actor.id == task.creator_id
    then ok tt
    else raise (forbidden "当前账号不能验收该任务。")

module _ {R : Type 0} (services : TaskServices R) (runtime : R) where
  -- `_build_visible_task_statement`, as a test of one row.
  unfoldable pub is_visible : User → Task → Bool
  unfolding is_management names_reviewer in_departments
  is_visible actor task =
      is_management actor
      || actor.id == task.creator_id
      || actor.id == task.assignee_id
      || names_reviewer task actor
      || in_departments task.department_id (services.managed_department_ids runtime actor.id)

  unfoldable pub get_task : User → Task → Result Task
  unfolding is_active_account is_visible
  get_task actor task =
      if is_active_account actor
      then (if is_visible actor task then ok task else raise (not_found "任务不存在。"))
      else raise inactive_account

  -- `_can_operate_task`
  unfoldable pub can_operate_task : User → Task → Bool
  unfolding is_management in_departments
  can_operate_task actor task =
      is_management actor
      || actor.id == task.creator_id
      || actor.id == task.assignee_id
      || in_departments task.department_id (services.managed_department_ids runtime actor.id)

  -- `_resolve_delegate_assignee`
  unfoldable pub resolve_delegate_assignee : User → Task → String → Result User
  unfolding is_active_account
  resolve_delegate_assignee actor task assignee_id = elim (services.get_user runtime assignee_id) [
    | none ↦ raise (not_found "转办目标不存在。")
    | some assignee ↦
        if not (is_active_account assignee)
        then raise (conflict "转办目标账号不可用。")
        else if assignee.id == task.assignee_id
        then raise (conflict "转办目标不能与当前执行人相同。")
        else if not (actor.id == task.assignee_id)
            && not (services.can_manage_assignee runtime actor assignee_id)
        then raise (forbidden "当前账号不能转办给该执行人。")
        else ok assignee
  ]
