-- ===== src/Task/Deliverable.antt =====
-- `submit_task_deliverable` of backend/app/services/task_service.py. The archive mark is read from
-- `loaded`, before the lock; the rest from the row under it.
use filum_reforge.Base.{
  ℕ, String, Bool, true, false, not, ◌&&◌, Option, none, some, List, [], ◌∷◌, ◌++◌, all, elem, ◌==◌,
  if◌then◌else◌,
}
use filum_reforge.Value.{
  Value, str, arr, nil, cons, Items, texts, Fields, end, field, get, set_field, merge_fields,
  optional, text_of,
}
use filum_reforge.Text.{strip}
use filum_reforge.Errors.{Failure, Result, ok, raise, conflict, not_found, raise_if, ◌>>=◌, ◌>>◌}
use filum_reforge.Task.Defs.{
  Task, User, TaskStatus, doing, review, done, same_status, status_value, is_admin_archived,
  is_root_shell, is_template_graph_task,
}
use filum_reforge.Task.Services.{
  TaskServices, TaskState, TaskLog, status_changed, create_task_log, finish_command, no_more,
}
use filum_reforge.Task.Access.{get_task, ensure_task_assignee_or_manager}
use filum_reforge.Task.Commands.{start_or_now, is_handshake, progress_graph}
use filum_reforge.Task.Reviewer.{activate_template_review}

-- `summary.strip() if summary is not None else None`
unfoldable pub normalized : Option String → Option String
unfolding strip
normalized none = none
normalized (some s) = some (strip s)

unfoldable pub is_blank : Option String → Bool
is_blank none = true
is_blank (some s) = s == ""

-- `set(a) == set(b)`
unfoldable pub same_set : List String → List String → Bool
unfolding elem
same_set xs ys = all (λ x. elem x ys) xs && all (λ y. elem y xs) ys

-- Whoever made the task reviews it if no reviewer is named.
unfoldable pub or_creator : Task → List String → List String
or_creator task [] = task.creator_id ∷ []
or_creator task (id ∷ ids) = id ∷ ids

module _ {R : Type 0} (services : TaskServices R) (now : ℕ) where
  -- `_validate_task_attachment_ids`
  unfoldable pub validate_task_attachment_ids : R → String → List String → Result (List String)
  unfolding same_set
  validate_task_attachment_ids runtime task_id [] = ok []
  validate_task_attachment_ids runtime task_id (id ∷ ids) =
      if same_set (services.stored_attachment_ids runtime task_id (id ∷ ids)) (id ∷ ids)
      then ok (id ∷ ids)
      else raise (not_found "存在无效的任务附件，无法作为交付物提交。")

  unfoldable pub check_submission : Task → User → TaskState R → Result (Unit {0})
  unfolding get_task is_admin_archived ensure_task_assignee_or_manager is_root_shell same_status
  check_submission loaded actor state = do
    seen ← get_task services state.runtime actor loaded
    raise_if (is_admin_archived loaded) (conflict "任务已归档，无法继续操作。")
    ensure_task_assignee_or_manager actor state.row
    raise_if (is_root_shell state.row) (conflict "请在待办中打开具体步骤任务后再提交，不要在使用制作/批次根任务提交。")
    raise_if (not (same_status state.row.status doing)) (conflict "只有进行中的任务才能提交交付物。")

  -- `_load_template_graph_node_context`, of which the policy is used.
  unfoldable pub load_policy : Task → R → Option String × R
  unfolding is_template_graph_task
  load_policy task runtime =
      if is_template_graph_task task
      then (let (context, loaded) = services.load_node_context task runtime in
          (elim context [ none ↦ none | some node ↦ node.completion_policy ], loaded))
      else (none, runtime)

  unfoldable pub submitted_metadata : User → Option String → List String → Fields → Fields
  unfolding merge_fields optional texts
  submitted_metadata actor summary attachments metadata = merge_fields metadata (
      field "latest_deliverable_summary" (optional summary) (
        field "latest_deliverable_attachment_ids" (arr (texts attachments)) (
          field "latest_deliverable_submitted_at" (str (services.show_time now))
            (field "latest_deliverable_submitted_by_user_id" (str actor.id) end))))

  -- `UUID(str(raw))` of each entry that is one.
  unfoldable pub parsed_ids : Items → List String
  unfolding text_of
  parsed_ids nil = []
  parsed_ids (cons raw rest) =
      let others = parsed_ids rest in
      elim (services.parse_uuid (text_of services.show_value raw)) [
        | some id ↦ id ∷ others
        | none ↦ others
      ]

  unfoldable pub configured_ids : Value → List String
  unfolding parsed_ids
  configured_ids (arr items) = parsed_ids items
  configured_ids _ = []

  unfoldable pub initial_reviewer_ids : Task → Fields → List String
  unfolding configured_ids or_creator get
  initial_reviewer_ids task metadata =
      or_creator task (configured_ids (get metadata "reviewer_ids"))

  unfoldable pub submit_log :
      User → TaskStatus → Option String → List String → Fields → Fields → TaskLog
  unfolding merge_fields optional texts status_value
  submit_log actor to summary attachments extra outcome = record {
    operator_id = actor.id;
    action_type = status_changed;
    from_status = some doing;
    to_status = some to;
    detail =
        merge_fields
          (merge_fields
            (field "action" (str "submit_deliverable") (
              field "summary" (optional summary) (
                field "attachment_ids" (arr (texts attachments))
                  (field "status" (str (status_value to)) end))))
            extra)
          outcome;
  }

  -- The columns that a submission writes when the task needs no review.
  unfoldable pub completed_task : Fields → Task → Task
  unfolding set_field start_or_now
  completed_task metadata task = record task {
    extra_metadata = set_field "latest_review_state" (str "approved") metadata;
    status = done;
    updated_at = now;
    started_at = some (start_or_now task.started_at now);
    completed_at = some now;
  }

  unfoldable pub complete_directly :
      User → Option String → List String → Fields → Fields × R → TaskState R → Result (TaskState R)
  unfolding completed_task create_task_log submit_log progress_graph
  complete_directly actor summary attachments metadata upserted state = do
    let task = completed_task metadata state.row
    synced ← services.sync_status task done now none upserted.1
    let logged =
        create_task_log (submit_log actor done summary attachments end upserted.0)
          (record { row = task; logs = state.logs; runtime = synced })
    progressed ← progress_graph services now actor task "on_submit_deliverable" synced
    ok (record logged { runtime = progressed })

  -- Where the task goes for its review, with what is logged on the way.
  unfoldable pub enter_review : User → Fields → R → Task → Task × List TaskLog
  unfolding is_template_graph_task activate_template_review initial_reviewer_ids set_field
  enter_review actor metadata runtime task =
      if is_template_graph_task task
      then activate_template_review services runtime (record task { extra_metadata = metadata })
          actor.id (initial_reviewer_ids task metadata)
      else (
        record task {
          extra_metadata = set_field "latest_review_state" (str "pending_review") metadata;
          status = review;
          blocked_reason = none;
        },
        [],
      )

  unfoldable pub submit_for_review :
      User → Option String → List String → Fields → Fields × R → TaskState R → Result (TaskState R)
  unfolding enter_review start_or_now create_task_log submit_log optional
  submit_for_review actor summary attachments metadata upserted state = do
    let entered = enter_review actor metadata upserted.1 state.row
    let task = record entered.0 {
      updated_at = now;
      started_at = some (start_or_now state.row.started_at now);
      completed_at = none;
    }
    synced ← services.sync_status task review now none upserted.1
    ok (
        create_task_log
          (submit_log actor task.status summary attachments
            (field "blocked_reason" (optional task.blocked_reason) end) upserted.0)
          (record { row = task; logs = state.logs ++ entered.1; runtime = synced }))

  -- What follows once the deliverable is written.
  unfoldable pub submit_upserted :
      User → Option String → List String → Bool → TaskState R → Fields × R → Result (TaskState R)
  unfolding submitted_metadata complete_directly submit_for_review
  submit_upserted actor text attachments direct_complete state upserted =
      let metadata = submitted_metadata actor text attachments state.row.extra_metadata in
      if direct_complete
      then complete_directly actor text attachments metadata upserted state
      else submit_for_review actor text attachments metadata upserted state

  -- A submission of a text and attachments that are in order; the node's policy is `policy`.
  unfoldable pub submit_work :
      User → Option String → List String → Option String × R → TaskState R → Result (TaskState R)
  unfolding is_handshake submit_upserted
  submit_work actor text attachments policy state =
      services.upsert_deliverable state.row actor text attachments now
        (is_handshake "on_submit_deliverable" policy.0) policy.1
      >>= submit_upserted actor text attachments (is_handshake "on_submit_deliverable" policy.0)
          state

  unfoldable pub check_content : Option String → List String → TaskState R → Result (List String)
  unfolding is_blank validate_task_attachment_ids
  check_content text attachment_ids state = do
    attachments ← validate_task_attachment_ids state.runtime state.row.id attachment_ids
    raise_if (is_blank text && elim attachments [ [] ↦ true | id ∷ ids ↦ false ])
        (conflict "交付说明或附件至少提供一项。")
    ok attachments

  unfoldable pub submit_changes :
      User → Task → Option String → List String → TaskState R → Result (TaskState R)
  unfolding check_submission normalized check_content load_policy submit_work
  submit_changes actor loaded summary attachment_ids state =
      (check_submission loaded actor state
        >> check_content (normalized summary) attachment_ids state)
      >>= λ attachments.
          submit_work actor (normalized summary) attachments (load_policy state.row state.runtime)
            state

  unfoldable pub submit_task_deliverable :
      User → Task → Option String → List String → TaskState R → TaskState R × Option Failure
  unfolding submit_changes finish_command
  submit_task_deliverable actor loaded summary attachment_ids state =
      finish_command state (submit_changes actor loaded summary attachment_ids state) no_more
