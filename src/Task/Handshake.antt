-- ===== src/Task/Handshake.antt =====
-- `accept_task_assignment` and `reject_task_assignment` of backend/app/services/task_service.py, with
-- `on_task_accepted` of workflow_orchestration_service.py and `apply_handshake_acceptance` of
-- human_task_coordinator.py. No lock is taken: the task is the row.
use filum_reforge.Base.{ℕ, String, false, not, Option, none, some, ◌==◌, if◌then◌else◌}
use filum_reforge.Value.{str, Fields, end, field, merge_fields}
use filum_reforge.Text.{strip}
use filum_reforge.Errors.{Failure, Result, ok, conflict, raise_if, ◌>>=◌, ◌>>◌}
use filum_reforge.Handler.Defs.{accepted, rejected}
use filum_reforge.Task.Defs.{
  Task, User, todo, doing, same_status, status_value, is_template_graph_task,
  uses_graph_handshake_cycle, handshake_state,
}
use filum_reforge.Task.Services.{
  TaskServices, TaskState, TaskLog, assigned, create_task_log, finish_command, no_more,
}
use filum_reforge.Task.Access.{get_task, ensure_task_handshake_actor}
use filum_reforge.Task.Commands.{is_handshake, is_open_handshake}

-- A log entry that keeps the status.
unfoldable pub assigned_log : User → Fields → TaskLog
assigned_log actor detail = record {
  operator_id = actor.id;
  action_type = assigned;
  from_status = none;
  to_status = none;
  detail = detail;
}

module _ {R : Type 0} (services : TaskServices R) (now : ℕ) where
  unfoldable pub accepted_metadata : User → Fields → Fields
  unfolding merge_fields
  accepted_metadata actor metadata = merge_fields metadata (
      field "workflow_handshake_state" (str "accepted") (
        field "latest_handshake_action" (str "accepted") (
          field "latest_handshake_actor_user_id" (str actor.id)
            (field "latest_handshake_at" (str (services.show_time now)) end))))

  unfoldable pub apply_handshake_acceptance : User → Task → Task
  unfolding accepted_metadata same_status
  apply_handshake_acceptance actor task = record task {
    extra_metadata = accepted_metadata actor task.extra_metadata;
    status = if same_status task.status todo then doing else task.status;
    started_at = if same_status task.status todo then some now else task.started_at;
    updated_at = now;
  }

  unfoldable pub on_task_accepted : User → TaskState R → TaskState R
  unfolding apply_handshake_acceptance
  on_task_accepted actor state =
      if services.is_handshake_required state.row state.runtime
      then record state {
        row = apply_handshake_acceptance actor state.row;
        runtime = services.accept_node state.row now state.runtime;
      }
      else state

  unfoldable pub accept_template : User → TaskState R → TaskState R
  unfolding on_task_accepted create_task_log assigned_log status_value
  accept_template actor state =
      let applied = on_task_accepted actor state in
      create_task_log
        (assigned_log actor (
          field "action" (str "accepted") (
            field "status" (str (status_value applied.row.status))
              (field "source" (str "template_graph") end))))
        applied

  unfoldable pub accept_standalone : User → TaskState R → Result (TaskState R)
  unfolding ensure_task_handshake_actor same_status merge_fields create_task_log assigned_log
      status_value
  accept_standalone actor state = do
    ensure_task_handshake_actor actor state.row
    raise_if (not (same_status state.row.status todo)) (conflict "只有待处理任务才能执行接受动作。")
    let metadata = merge_fields state.row.extra_metadata (
        field "work_item_acceptance_state" (str "accepted") (
          field "latest_acceptance_actor_user_id" (str actor.id)
            (field "latest_acceptance_at" (str (services.show_time now)) end)))
    ok (
        create_task_log
          (assigned_log actor (
            field "action" (str "accepted") (
              field "status" (str (status_value state.row.status))
                (field "source" (str "standalone_work_item") end))))
          (record state { row = record state.row { extra_metadata = metadata; updated_at = now } }))

  unfoldable pub accept_graph : User → TaskState R → Result (TaskState R)
  unfolding ensure_task_handshake_actor same_status is_handshake handshake_state accepted_metadata
      create_task_log assigned_log status_value
  accept_graph actor state = do
    ensure_task_handshake_actor actor state.row
    raise_if (not (same_status state.row.status todo)) (conflict "只有待处理任务才能执行接受动作。")
    raise_if (not (is_handshake "assigned" (handshake_state services.parse_uuid state.row)))
        (conflict "当前任务已不处于待确认状态。")
    let task = record state.row {
      extra_metadata = accepted_metadata actor state.row.extra_metadata;
      updated_at = now;
    }
    synced ← services.sync_handshake task accepted now none false state.runtime
    ok (
        create_task_log
          (assigned_log actor
            (field "action" (str "accepted") (field "status" (str (status_value task.status)) end)))
          (record { row = task; logs = state.logs; runtime = synced }))

  unfoldable pub accept_changes : User → TaskState R → Result (TaskState R)
  unfolding get_task is_template_graph_task accept_template uses_graph_handshake_cycle
      accept_standalone accept_graph
  accept_changes actor state = do
    seen ← get_task services state.runtime actor state.row
    (if is_template_graph_task state.row
        then ok (accept_template actor state)
        else if uses_graph_handshake_cycle services.parse_uuid state.row
        then accept_graph actor state
        else accept_standalone actor state)

  unfoldable pub accept_task_assignment : User → TaskState R → TaskState R × Option Failure
  unfolding accept_changes finish_command
  accept_task_assignment actor state = finish_command state (accept_changes actor state) no_more

  unfoldable pub reject_changes : User → String → TaskState R → Result (TaskState R)
  unfolding get_task uses_graph_handshake_cycle ensure_task_handshake_actor same_status strip
      is_open_handshake handshake_state merge_fields create_task_log assigned_log status_value
  reject_changes actor reason state = do
    seen ← get_task services state.runtime actor state.row
    raise_if (not (uses_graph_handshake_cycle services.parse_uuid state.row))
        (conflict "当前任务不使用图引擎握手流程。")
    ensure_task_handshake_actor actor state.row
    raise_if (not (same_status state.row.status todo)) (conflict "只有待处理任务才能执行退回协商。")
    let normalized = strip reason
    raise_if (normalized == "") (conflict "退回协商时必须填写原因。")
    raise_if (not (is_open_handshake (handshake_state services.parse_uuid state.row)))
        (conflict "当前任务不能执行退回协商。")
    let metadata = merge_fields state.row.extra_metadata (
        field "workflow_handshake_state" (str "rejected") (
          field "latest_handshake_action" (str "rejected") (
            field "latest_handshake_actor_user_id" (str actor.id) (
              field "latest_handshake_at" (str (services.show_time now))
                (field "latest_reject_reason" (str normalized) end)))))
    let task = record state.row { extra_metadata = metadata; updated_at = now }
    synced ← services.sync_handshake task rejected now none false state.runtime
    ok (
        create_task_log
          (assigned_log actor (
            field "action" (str "rejected") (
              field "reason" (str normalized)
                (field "status" (str (status_value task.status)) end))))
          (record { row = task; logs = state.logs; runtime = synced }))

  unfoldable pub reject_task_assignment : User → String → TaskState R → TaskState R × Option Failure
  unfolding reject_changes finish_command
  reject_task_assignment actor reason state =
      finish_command state (reject_changes actor reason state) no_more
