-- ===== src/Task/Archive.antt =====
-- `archive_task_by_admin` of backend/app/services/task_service.py. The tasks that the run's cancelling
-- gives besides the task itself are rows of the runtime.
use filum_reforge.Base.{
  ℕ, String, true, not, Option, none, some, List, [], ◌∷◌, ◌==◌, if◌then◌else◌,
}
use filum_reforge.Value.{str, bool, end, field, merge_fields}
use filum_reforge.Errors.{Failure, Result, ok, conflict, forbidden, raise_if, ◌>>=◌, ◌>>◌}
use filum_reforge.Task.Defs.{Task, User, done, is_admin, is_admin_archived, is_root_shell}
use filum_reforge.Task.Services.{
  TaskServices, TaskState, TaskLog, closed, create_task_log, finish_command, no_more,
}
use filum_reforge.Task.Access.{get_task}

module _ {R : Type 0} (services : TaskServices R) (now : ℕ) where
  unfoldable pub archived_task : User → String → String → Task → Task
  unfolding merge_fields
  archived_task actor reason source_task_id task = record task {
    extra_metadata = merge_fields task.extra_metadata (
        field "admin_archived" (bool true) (
          field "admin_archived_at" (str (services.show_time now)) (
            field "admin_archived_by_user_id" (str actor.id) (
              field "admin_archive_reason" (str reason)
                (field "admin_archive_source_task_id" (str source_task_id) end)))));
    status = done;
    completed_at = some now;
    updated_at = now;
  }

  unfoldable pub archive_log : User → String → String → Task → TaskLog
  archive_log actor reason source_task_id task = record {
    operator_id = actor.id;
    action_type = closed;
    from_status = some task.status;
    to_status = some done;
    detail =
        field "action" (str "admin_archive")
          (field "reason" (str reason) (field "source_task_id" (str source_task_id) end));
  }

  -- `_mark_task_admin_archived` on the row of the task.
  unfoldable pub mark_row : User → String → TaskState R → TaskState R
  unfolding is_admin_archived archived_task archive_log create_task_log
  mark_row actor reason state =
      if is_admin_archived state.row
      then state
      else create_task_log (archive_log actor reason state.row.id state.row)
          (record state { row = archived_task actor reason state.row.id state.row })

  -- The same on a linked task; one that is missing is left out.
  unfoldable pub mark_linked : User → String → String → String → R → R
  unfolding is_admin_archived archived_task archive_log
  mark_linked actor reason source_task_id task_id runtime =
      elim (services.find_task runtime task_id) [
        | none ↦ runtime
        | some task ↦
            if is_admin_archived task
            then runtime
            else services.put_task (archived_task actor reason source_task_id task)
                (archive_log actor reason source_task_id task) runtime
      ]

  unfoldable pub mark_all : User → String → String → List String → R → R
  unfolding mark_linked
  mark_all actor reason source_task_id [] runtime = runtime
  mark_all actor reason source_task_id (id ∷ ids) runtime =
      let marked =
        if id == source_task_id
        then runtime
        else mark_linked actor reason source_task_id id runtime in
      mark_all actor reason source_task_id ids marked

  -- The run is cancelled if there is one.
  unfoldable pub cancel_run : User → String → TaskState R → Result (List String × R)
  unfolding is_root_shell
  cancel_run actor reason state = elim (services.archive_instance_id state.row state.runtime) [
    | none ↦ ok ([], state.runtime)
    | some instance_id ↦
        services.cancel_instance actor instance_id reason (is_root_shell state.row) state.runtime
  ]

  unfoldable pub archive_changes : User → String → TaskState R → Result (TaskState R)
  unfolding is_admin get_task is_admin_archived cancel_run mark_row mark_all
  archive_changes actor reason state = do
    raise_if (not (is_admin actor)) (forbidden "仅管理员可以归档任务。")
    seen ← get_task services state.runtime actor state.row
    raise_if (is_admin_archived state.row) (conflict "任务已归档。")
    cancelled ← cancel_run actor reason state
    let marked = mark_row actor reason (record state { runtime = cancelled.1 })
    ok (record marked { runtime = mark_all actor reason state.row.id cancelled.0 marked.runtime })

  unfoldable pub archive_task_by_admin : User → String → TaskState R → TaskState R × Option Failure
  unfolding archive_changes finish_command
  archive_task_by_admin actor reason state =
      finish_command state (archive_changes actor reason state) no_more
