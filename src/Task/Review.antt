-- ===== src/Task/Review.antt =====
-- `review_task_deliverable` of backend/app/services/task_service.py. A standalone task is read again
-- under its lock; of a workflow task `loaded` is the row.
use filum_reforge.Base.{
  ℕ, zero, suc, String, Bool, true, false, not, ◌&&◌, Option, none, some, leb, if◌then◌else◌,
}
use filum_reforge.Value.{
  Value, str, num, bool, null, ℤ, pos, negsuc, Fields, end, field, get, merge_fields, optional,
  bool_int,
}
use filum_reforge.Errors.{Failure, Result, ok, conflict, raise_if, ◌>>=◌, ◌>>◌}
use filum_reforge.Handler.Defs.{returned_for_rework}
use filum_reforge.Task.Defs.{Task, User, doing, review, done, same_status, status_value}
use filum_reforge.Task.Services.{
  TaskServices, TaskState, status_changed, create_task_log, finish_command, no_more,
}
use filum_reforge.Task.Access.{get_task, ensure_task_reviewer}
use filum_reforge.Task.Commands.{start_or_now, progress_graph}
use filum_reforge.Task.Deliverable.{normalized, is_blank}

-- `quality_score is not None and quality_score not in {1, 2, 3, 4, 5}`
unfoldable pub is_bad_score : Option ℤ → Bool
is_bad_score none = false
is_bad_score (some (pos n)) = not (leb 1 n && leb n 5)
is_bad_score (some (negsuc n)) = true

unfoldable pub score_value : Option ℤ → Value
score_value none = null
score_value (some n) = num n

-- `n + 1`
unfoldable pub add_one : ℤ → ℤ
add_one (pos n) = pos (suc n)
add_one (negsuc zero) = pos 0
add_one (negsuc (suc n)) = negsuc n

-- `_read_int_metadata` with the default 0. How `int` reads a text is an argument.
unfoldable pub read_int : (String → Option ℤ) → Fields → String → ℤ
unfolding get
read_int parse metadata key = elim (get metadata key) [
  | bool b ↦ bool_int b
  | num n ↦ n
  | str s ↦ elim (parse s) [ some n ↦ n | none ↦ pos 0 ]
  | _ ↦ pos 0
]

module _ {R : Type 0} (services : TaskServices R) (now : ℕ) where
  unfoldable pub reviewed_metadata : User → Fields → Fields
  unfolding merge_fields
  reviewed_metadata actor metadata = merge_fields metadata (
      field "latest_reviewed_at" (str (services.show_time now))
        (field "latest_reviewer_user_id" (str actor.id) end))

  unfoldable pub approved_task : User → Option String → Option ℤ → Task → Task
  unfolding reviewed_metadata merge_fields optional score_value
  approved_task actor comment score task = record task {
    extra_metadata = merge_fields (reviewed_metadata actor task.extra_metadata) (
        field "latest_review_state" (str "approved") (
          field "latest_review_comment" (optional comment)
            (field "latest_review_quality_score" (score_value score) end)));
    status = done;
    updated_at = now;
    completed_at = some now;
  }

  unfoldable pub approve_changes :
      User → Option String → Option ℤ → TaskState R → Result (TaskState R)
  unfolding is_bad_score approved_task create_task_log merge_fields optional score_value
      status_value progress_graph
  approve_changes actor comment score state = do
    raise_if (is_bad_score score) (conflict "完成质量评分必须在 1 到 5 之间。")
    let task = approved_task actor comment score state.row
    recorded ←
        services.record_review task actor "approve_completion" comment now score none state.runtime
    synced ← services.sync_status task done now none recorded.1
    let logged =
        create_task_log
          (record {
            operator_id = actor.id;
            action_type = status_changed;
            from_status = some review;
            to_status = some done;
            detail =
                merge_fields
                  (field "action" (str "approve_completion") (
                    field "comment" (optional comment) (
                      field "quality_score" (score_value score)
                        (field "status" (str (status_value done)) end))))
                  recorded.0;
          })
          (record { row = task; logs = state.logs; runtime = synced })
    progressed ← progress_graph services now actor task "on_review_approved" synced
    ok (record logged { runtime = progressed })

  unfoldable pub returned_task : User → Option String → ℤ → Task → Task
  unfolding reviewed_metadata merge_fields optional start_or_now
  returned_task actor comment rework_count task = record task {
    extra_metadata = merge_fields (reviewed_metadata actor task.extra_metadata) (
        field "latest_review_state" (str "returned_for_rework") (
          field "latest_review_comment" (optional comment) (
            field "latest_rework_reason" (optional comment)
              (field "rework_count" (num rework_count) end))));
    status = doing;
    updated_at = now;
    completed_at = none;
    started_at = some (start_or_now task.started_at now);
  }

  unfoldable pub return_changes : User → Option String → TaskState R → Result (TaskState R)
  unfolding is_blank read_int add_one reviewed_metadata returned_task create_task_log merge_fields
      optional status_value
  return_changes actor comment state = do
    raise_if (is_blank comment) (conflict "打回返工时必须填写返工原因。")
    let rework_count = add_one (
        read_int services.parse_int (reviewed_metadata actor state.row.extra_metadata)
          "rework_count")
    let task = returned_task actor comment rework_count state.row
    recorded ←
        services.record_review task actor "return_for_rework" comment now none (some rework_count)
          state.runtime
    synced ← services.sync_status task doing now (some returned_for_rework) recorded.1
    ok (
        create_task_log
          (record {
            operator_id = actor.id;
            action_type = status_changed;
            from_status = some review;
            to_status = some doing;
            detail =
                merge_fields
                  (field "action" (str "return_for_rework") (
                    field "comment" (optional comment) (
                      field "rework_count" (num rework_count)
                        (field "status" (str (status_value doing)) end))))
                  recorded.0;
          })
          (record { row = task; logs = state.logs; runtime = synced }))

  unfoldable pub check_review : User → Task → TaskState R → Result (Unit {0})
  unfolding get_task ensure_task_reviewer same_status
  check_review actor loaded state = do
    seen ← get_task services state.runtime actor loaded
    ensure_task_reviewer services.parse_uuid actor state.row
    raise_if (not (same_status state.row.status review)) (conflict "只有评审中的任务才能执行验收动作。")

  unfoldable pub review_changes :
      User → Task → Bool → Option String → Option ℤ → TaskState R → Result (TaskState R)
  unfolding check_review normalized approve_changes return_changes
  review_changes actor loaded approve comment score state =
      check_review actor loaded state
      >> (if approve
          then approve_changes actor (normalized comment) score state
          else return_changes actor (normalized comment) state)

  unfoldable pub review_task_deliverable :
      User → Task → Bool → Option String → Option ℤ → TaskState R → TaskState R × Option Failure
  unfolding review_changes finish_command
  review_task_deliverable actor loaded approve comment score state =
      finish_command state (review_changes actor loaded approve comment score state) λ committed.
        if approve
        then services.progress_instance committed.row committed.runtime
        else no_more committed
