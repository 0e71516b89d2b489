-- ===== src/Task/Delegate.antt =====
-- `delegate_task_assignment` of backend/app/services/task_service.py. `loaded` is the task that the
-- command entered with, `state.row` the row under the lock.
use filum_reforge.Base.{ℕ, String, true, not, ◌||◌, Option, none, some, ◌==◌, if◌then◌else◌}
use filum_reforge.Value.{str, bool, end, field, merge_fields}
use filum_reforge.Text.{strip}
use filum_reforge.Errors.{Failure, Result, ok, raise, conflict, raise_if, ◌>>=◌, ◌>>◌}
use filum_reforge.Handler.Defs.{assigned as node_assigned}
use filum_reforge.Task.Defs.{
  Task, User, todo, doing, same_status, status_value, is_standalone, uses_graph_handshake_cycle,
  handshake_state,
}
use filum_reforge.Task.Services.{TaskServices, TaskState, create_task_log, finish_command}
use filum_reforge.Task.Access.{
  get_task, ensure_task_handshake_actor, ensure_standalone_delegate_authority,
  resolve_delegate_assignee,
}
use filum_reforge.Task.Commands.{is_open_handshake}
use filum_reforge.Task.Handshake.{assigned_log}

module _ {R : Type 0} (services : TaskServices R) (now : ℕ) where
  -- The row has still the assignee that the command was decided on.
  unfoldable pub ensure_same_assignee : Task → Task → Result (Unit {0})
  ensure_same_assignee loaded row =
      raise_if (not (row.assignee_id == loaded.assignee_id)) (conflict "任务执行人已变更，请刷新后重试。")

  unfoldable pub check_standalone_delegation : User → Task → String → Task → Result (Unit {0})
  unfolding ensure_same_assignee ensure_standalone_delegate_authority same_status strip
  check_standalone_delegation actor loaded reason row = do
    ensure_same_assignee loaded row
    ensure_standalone_delegate_authority actor row
    raise_if (not (same_status row.status todo || same_status row.status doing))
        (conflict "只有待处理或进行中的任务才能转办。")
    raise_if (strip reason == "") (conflict "转办时必须填写原因。")

  unfoldable pub apply_standalone_delegation :
      User → String → String → TaskState R → Result (TaskState R)
  unfolding strip resolve_delegate_assignee merge_fields create_task_log assigned_log status_value
  apply_standalone_delegation actor assignee_id reason state = do
    let normalized = strip reason
    next_assignee ← resolve_delegate_assignee services state.runtime actor state.row assignee_id
    let previous = state.row.assignee_id
    let metadata = merge_fields state.row.extra_metadata (
        field "latest_delegate_reason" (str normalized) (
          field "latest_delegate_from_user_id" (str previous) (
            field "latest_delegate_to_user_id" (str next_assignee.id) (
              field "latest_delegate_at" (str (services.show_time now))
                (field "latest_delegate_actor_user_id" (str actor.id) end)))))
    let task = record state.row {
      assignee_id = next_assignee.id;
      updated_at = now;
      extra_metadata = metadata;
    }
    ok (
        create_task_log
          (assigned_log actor (
            field "action" (str "delegated") (
              field "execution_mode" (str "standalone") (
                field "reason" (str normalized) (
                  field "previous_assignee_id" (str previous) (
                    field "assignee_id" (str next_assignee.id) (
                      field "assignee_email" (str next_assignee.email) (
                        field "status" (str (status_value task.status)) (
                          field "delegated_by_admin" (bool (not (actor.id == previous)))
                            end)))))))))
          (record state { row = task }))

  unfoldable pub delegate_standalone :
      User → Task → String → String → TaskState R → Result (TaskState R)
  unfolding check_standalone_delegation apply_standalone_delegation
  delegate_standalone actor loaded assignee_id reason state =
      check_standalone_delegation actor loaded reason state.row
      >> apply_standalone_delegation actor assignee_id reason state

  unfoldable pub check_delegation : User → Task → String → Task → Result (Unit {0})
  unfolding ensure_same_assignee ensure_task_handshake_actor same_status strip is_open_handshake
      handshake_state
  check_delegation actor loaded reason row = do
    ensure_same_assignee loaded row
    ensure_task_handshake_actor actor row
    raise_if (not (same_status row.status todo)) (conflict "只有待处理任务才能执行转办。")
    raise_if (strip reason == "") (conflict "转办时必须填写原因。")
    raise_if (not (is_open_handshake (handshake_state services.parse_uuid row)))
        (conflict "当前任务不能执行转办。")

  unfoldable pub apply_delegation : User → String → String → TaskState R → Result (TaskState R)
  unfolding strip resolve_delegate_assignee merge_fields create_task_log assigned_log status_value
  apply_delegation actor assignee_id reason state = do
    let normalized = strip reason
    next_assignee ← resolve_delegate_assignee services state.runtime actor state.row assignee_id
    let previous = state.row.assignee_id
    let metadata = merge_fields state.row.extra_metadata (
        field "workflow_handshake_state" (str "assigned") (
          field "latest_handshake_action" (str "delegated") (
            field "latest_handshake_actor_user_id" (str actor.id) (
              field "latest_handshake_at" (str (services.show_time now)) (
                field "latest_delegate_reason" (str normalized) (
                  field "latest_delegate_from_user_id" (str previous)
                    (field "latest_delegate_to_user_id" (str next_assignee.id) end)))))))
    let task = record state.row {
      assignee_id = next_assignee.id;
      updated_at = now;
      extra_metadata = metadata;
    }
    synced ←
        services.sync_handshake task node_assigned now (some next_assignee.id) true state.runtime
    ok (
        create_task_log
          (assigned_log actor (
            field "action" (str "delegated") (
              field "reason" (str normalized) (
                field "previous_assignee_id" (str previous) (
                  field "assignee_id" (str next_assignee.id) (
                    field "assignee_email" (str next_assignee.email)
                      (field "status" (str (status_value task.status)) end)))))))
          (record { row = task; logs = state.logs; runtime = synced }))

  unfoldable pub delegate_workflow :
      User → Task → String → String → TaskState R → Result (TaskState R)
  unfolding check_delegation apply_delegation
  delegate_workflow actor loaded assignee_id reason state =
      check_delegation actor loaded reason state.row
      >> apply_delegation actor assignee_id reason state

  unfoldable pub delegate_by_mode :
      User → Task → String → String → TaskState R → Result (TaskState R)
  unfolding is_standalone delegate_standalone uses_graph_handshake_cycle delegate_workflow
  delegate_by_mode actor loaded assignee_id reason state =
      if is_standalone loaded
      then delegate_standalone actor loaded assignee_id reason state
      else if uses_graph_handshake_cycle services.parse_uuid loaded
      then delegate_workflow actor loaded assignee_id reason state
      else raise (conflict "当前任务不支持转办。")

  unfoldable pub delegate_changes :
      User → Task → String → String → TaskState R → Result (TaskState R)
  unfolding get_task delegate_by_mode
  delegate_changes actor loaded assignee_id reason state =
      get_task services state.runtime actor loaded >>= λ seen.
      delegate_by_mode actor loaded assignee_id reason state

  -- The new assignee is told after the commit.
  unfoldable pub notify_assignee : String → TaskState R → R × Option Failure
  notify_assignee assignee_id state = elim (services.get_user state.runtime assignee_id) [
    | some assignee ↦ services.send_assignment state.row assignee state.runtime
    | none ↦ (state.runtime, none)
  ]

  unfoldable pub delegate_task_assignment :
      User → Task → String → String → TaskState R → TaskState R × Option Failure
  unfolding delegate_changes finish_command notify_assignee
  delegate_task_assignment actor loaded assignee_id reason state =
      finish_command state (delegate_changes actor loaded assignee_id reason state)
        (notify_assignee assignee_id)
