-- ===== src/Task/Commands.antt =====
-- `transition_task_status` of backend/app/services/task_service.py, and what the other commands share.
-- A command reads the task (`loaded`) and then the row under its lock (`state.row`), which another
-- command may have changed in between; where no lock is taken the two are the same row.
use Prim.Native.String.{◌++◌ as text_append}
use filum_reforge.Base.{
  ℕ, String, Bool, false, not, ◌&&◌, ◌||◌, Option, none, some, List, [], ◌∷◌, ◌==◌, if◌then◌else◌,
}
use filum_reforge.Value.{str, end, field}
use filum_reforge.Errors.{Failure, Result, ok, raise, conflict, forbidden, raise_if, ◌>>=◌, ◌>>◌}
use filum_reforge.Task.Defs.{
  handshake_state, uses_graph_handshake_cycle, Task, User, TaskStatus, todo, doing, review, done,
  same_status, status_value, is_allowed_transition, is_standalone, is_management,
  is_template_graph_task,
}
use filum_reforge.Task.Actions.{
  TaskAction, start_work, submit_deliverable, approve_deliverable, offers,
  build_standalone_action_context,
}
use filum_reforge.Task.Services.{
  TaskServices, TaskState, status_changed, create_task_log, finish_command, no_more, TaskDependency,
}
use filum_reforge.Task.Access.{get_task, can_operate_task}

-- The action that a status asks for.
unfoldable pub required_action : TaskStatus → Option TaskAction
required_action todo = some start_work
required_action doing = some submit_deliverable
required_action review = some approve_deliverable
required_action _ = none

unfoldable pub is_action_offered : Option TaskAction → Task → User → Bool
unfolding offers build_standalone_action_context is_management
is_action_offered none task actor = false
is_action_offered (some action) task actor =
    offers action
      (build_standalone_action_context task actor (is_management actor)).available_actions

-- The titles of the dependencies that are not done.
unfoldable pub pending_titles : List TaskDependency → List String
unfolding same_status
pending_titles [] = []
pending_titles (d ∷ ds) =
    let rest = pending_titles ds in if same_status d.status done then rest else d.title ∷ rest

-- `", ".join(titles)`
unfoldable pub join : List String → String
join [] = ""
join (title ∷ []) = title
join (title ∷ other ∷ rest) = text_append title (text_append ", " (join (other ∷ rest)))

unfoldable pub titles_message : List String → String
unfolding join
titles_message titles = text_append "前置任务尚未完成，当前任务不能开始执行：" (text_append (join titles) "。")

-- `task.started_at or now`
unfoldable pub start_or_now : Option ℕ → ℕ → ℕ
start_or_now none now = now
start_or_now (some t) now = t

-- `state in {"assigned", "accepted"}`
unfoldable pub is_open_handshake : Option String → Bool
is_open_handshake none = false
is_open_handshake (some s) = s == "assigned" || s == "accepted"

unfoldable pub is_handshake : String → Option String → Bool
is_handshake name none = false
is_handshake name (some s) = s == name

-- The columns that a change of status writes.
unfoldable pub move_task : ℕ → Task → TaskStatus → Task
unfolding same_status start_or_now
move_task now task target_status = record task {
  status = target_status;
  updated_at = now;
  started_at =
      if same_status target_status doing
      then some (start_or_now task.started_at now)
      else task.started_at;
  completed_at = if same_status target_status done then some now else task.completed_at;
}

module _ {R : Type 0} (services : TaskServices R) (now : ℕ) where
  -- `_ensure_task_dependencies_ready`
  unfoldable pub ensure_task_dependencies_ready : R → Task → Result (Unit {0})
  unfolding pending_titles titles_message
  ensure_task_dependencies_ready runtime task =
      elim (pending_titles (services.blocking_dependencies runtime task.id)) [
        | [] ↦ ok tt
        | title ∷ titles ↦ raise (conflict (titles_message (title ∷ titles)))
      ]

  unfoldable pub check_transition_actor : R → User → Task → Result (Unit {0})
  unfolding is_standalone is_action_offered required_action can_operate_task
  check_transition_actor runtime actor task =
      if is_standalone task
      then raise_if (not (is_action_offered (required_action task.status) task actor))
          (forbidden "当前账号不是此阶段的当前执行人，不能变更该独立任务状态。")
      else raise_if (not (can_operate_task services runtime actor task))
          (forbidden "当前账号不能变更该任务状态。")

  unfoldable pub check_graph_cycle : Task → TaskStatus → Result (Unit {0})
  unfolding uses_graph_handshake_cycle handshake_state same_status is_handshake
  check_graph_cycle task target_status =
      if uses_graph_handshake_cycle services.parse_uuid task
      then (raise_if
            (same_status task.status todo
              && same_status target_status doing
              && not (is_handshake "accepted" (handshake_state services.parse_uuid task)))
            (conflict "图引擎任务必须先由执行人接受任务，才能开始处理。")
          >> raise_if (same_status target_status review || same_status target_status done)
              (conflict "图引擎任务必须通过提交交付物和验收动作推进到评审或完成状态。"))
      else ok tt

  unfoldable pub check_target : R → Task → TaskStatus → Result (Unit {0})
  unfolding same_status is_allowed_transition check_graph_cycle ensure_task_dependencies_ready
  check_target runtime task target_status = do
    raise_if (same_status target_status task.status) (conflict "任务已处于目标状态。")
    raise_if (not (is_allowed_transition task.status target_status)) (conflict "不支持的任务状态流转。")
    check_graph_cycle task target_status
    (if same_status target_status doing then ensure_task_dependencies_ready runtime task else ok tt)

  unfoldable pub check_transition : R → User → Task → TaskStatus → Result (Unit {0})
  unfolding check_transition_actor check_target
  check_transition runtime actor task target_status =
      check_transition_actor runtime actor task >> check_target runtime task target_status

  -- `_maybe_progress_template_graph_after_completion`
  unfoldable pub progress_graph : User → Task → String → R → Result R
  unfolding is_template_graph_task is_handshake
  progress_graph actor task expected_policy runtime =
      if is_template_graph_task task
      then (let (context, loaded) = services.load_node_context task runtime in
          elim context [
            | none ↦ ok loaded
            | some node ↦
                if is_handshake expected_policy node.completion_policy && node.is_completed
                then services.after_node_completed actor task loaded
                else ok loaded
          ])
      else ok runtime

  -- What follows the guards.
  unfoldable pub apply_transition : User → TaskStatus → TaskState R → Result (TaskState R)
  unfolding move_task create_task_log progress_graph same_status status_value
  apply_transition actor target_status state = do
    let task = move_task now state.row target_status
    synced ← services.sync_status task target_status now none state.runtime
    let logged =
        create_task_log
          (record {
            operator_id = actor.id;
            action_type = status_changed;
            from_status = some state.row.status;
            to_status = some target_status;
            detail =
                field "previous_status" (str (status_value state.row.status))
                  (field "status" (str (status_value target_status)) end);
          })
          (record { row = task; logs = state.logs; runtime = synced })
    progressed ←
        (if same_status target_status done
          then progress_graph actor task "on_review_approved" synced
          else ok synced)
    ok (record logged { runtime = progressed })

  unfoldable pub transition_changes : User → Task → TaskStatus → TaskState R → Result (TaskState R)
  unfolding get_task check_transition apply_transition
  transition_changes actor loaded target_status state =
      (get_task services state.runtime actor loaded >>= λ seen.
      check_transition state.runtime actor state.row target_status)
      >> apply_transition actor target_status state

  unfoldable pub transition_task_status :
      User → Task → TaskStatus → TaskState R → TaskState R × Option Failure
  unfolding transition_changes finish_command same_status
  transition_task_status actor loaded target_status state =
      finish_command state (transition_changes actor loaded target_status state) λ committed.
        if same_status target_status done
        then services.progress_instance committed.row committed.runtime
        else no_more committed
