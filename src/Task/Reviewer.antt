-- ===== src/Task/Reviewer.antt =====
-- Who reviews a template task: `_review_fallback_candidates`, `_activate_template_review` and
-- `reassign_task_reviewer` of backend/app/services/task_service.py.
pub mod Selects
pub mod Decides
use filum_reforge.Base.{
  ℕ, String, Bool, true, false, not, ◌&&◌, ◌||◌, Option, none, some, List, [], ◌∷◌, ◌++◌, map, ◌==◌,
  if◌then◌else◌,
}
use filum_reforge.Value.{
  Value, str, arr, nil, cons, Fields, end, field, get, set_field, merge_fields,
}
use filum_reforge.Errors.{
  Failure, Result, ok, raise, conflict, not_found, forbidden, raise_if, ◌>>=◌, ◌>>◌,
}
use filum_reforge.Task.Defs.{
  Task, User, TaskStatus, review, blocked, same_status, is_admin, is_active_account,
  is_template_graph_task, read_uuid,
}
use filum_reforge.Task.Services.{
  TaskServices, TaskState, TaskLog, InstanceOwners, status_changed, assigned, create_task_log,
  finish_command, no_more,
}
use filum_reforge.Task.Access.{template_review_executor_id}

-- `d.pop(k, None)`
unfoldable pub drop_field : String → Fields → Fields
drop_field k end = end
drop_field k (field j v rest) =
    let others = drop_field k rest in if j == k then others else field j v others

-- A candidate with where it was found, if there is one.
unfoldable pub optional_candidate : String → Option String → List (String × String)
optional_candidate source none = []
optional_candidate source (some id) = (source, id) ∷ []

-- `template.created_by`, else who started the run.
unfoldable pub workflow_admin_id : Option InstanceOwners → Option String
workflow_admin_id none = none
workflow_admin_id (some owners) = elim owners.template_owner [
  | some id ↦ some id
  | none ↦ owners.initiator
]

module _ {R : Type 0} (services : TaskServices R) (runtime : R) where
  unfoldable pub department_head : Option String → Option String
  department_head none = none
  department_head (some id) = services.department_manager runtime id

  unfoldable pub instance_owners : Option String → Option InstanceOwners
  instance_owners none = none
  instance_owners (some id) = services.find_instance runtime id

  -- `_review_fallback_candidates`
  unfoldable pub review_fallback_candidates : Task → List String → List (String × String)
  unfolding template_review_executor_id optional_candidate department_head read_uuid instance_owners
      workflow_admin_id
  review_fallback_candidates task initial_reviewer_ids =
      let instance_id =
        read_uuid services.parse_uuid task.extra_metadata "workflow_graph_instance_id" in
      map (λ id. ("configured_reviewer", id)) initial_reviewer_ids
      ++ optional_candidate "supervisor"
          (services.supervisor_of runtime (template_review_executor_id task))
      ++ optional_candidate "department_head" (department_head task.department_id)
      ++ optional_candidate "workflow_admin" (workflow_admin_id (instance_owners instance_id))
      ++ map (λ id. ("system_admin", id)) (services.system_admin_ids runtime)

  -- Why a candidate may not review; `none` if it may.
  unfoldable pub exclusion_reason : Task → String → Option String
  unfolding template_review_executor_id is_active_account
  exclusion_reason task candidate_id =
      let account = services.get_user runtime candidate_id in
      if candidate_id == template_review_executor_id task
      then some "excluded: self-review not permitted"
      else elim account [
        | none ↦ some "excluded: reviewer account not found"
        | some candidate ↦
            if is_active_account candidate then none else some "excluded: reviewer account inactive"
      ]

  unfoldable pub excluded_log : Task → String → String × String → String → TaskLog
  excluded_log task operator_id candidate reason = record {
    operator_id = operator_id;
    action_type = status_changed;
    from_status = some task.status;
    to_status = some task.status;
    detail = field "action" (str "reviewer_candidate_excluded") (
        field "candidate_user_id" (str candidate.1)
          (field "candidate_source" (str candidate.0) (field "reason" (str reason) end)));
  }

  -- The loop: the first candidate that is not excluded, and a log entry for each before it.
  unfoldable pub select_reviewer :
      Task → String → List (String × String) → Option (String × String) × List TaskLog
  unfolding exclusion_reason excluded_log
  select_reviewer task operator_id [] = (none, [])
  select_reviewer task operator_id (candidate ∷ rest) =
      let later = select_reviewer task operator_id rest in
      elim (exclusion_reason task candidate.1) [
        | none ↦ (some candidate, [])
        | some reason ↦ (later.0, excluded_log task operator_id candidate reason ∷ later.1)
      ]

  unfoldable pub block_review : String → Task → Fields → Task × List TaskLog
  unfolding drop_field set_field
  block_review operator_id task metadata = (
    record task {
      extra_metadata = set_field "review_blocked_reason" (str "no_eligible_reviewer") (
          set_field "reviewer_ids" (arr nil) (
            drop_field "self_review_fallback"
              (drop_field "reviewer_source" (drop_field "reviewer_id" metadata))));
      status = blocked;
      blocked_reason = some "no_eligible_reviewer";
    },
    record {
      operator_id = operator_id;
      action_type = status_changed;
      from_status = some review;
      to_status = some blocked;
      detail =
          field "action" (str "review_activation_blocked")
            (field "reason" (str "no_eligible_reviewer") end);
    }
        ∷ [],
  )

  unfoldable pub name_reviewer : Task → Fields → String × String → Task
  unfolding drop_field set_field
  name_reviewer task metadata chosen = record task {
    extra_metadata = drop_field "review_blocked_reason" (
        drop_field "self_review_fallback" (
          set_field "reviewer_source" (str chosen.0) (
            set_field "reviewer_ids" (arr (cons (str chosen.1) nil))
              (set_field "reviewer_id" (str chosen.1) metadata))));
    status = review;
    blocked_reason = none;
  }

  -- `_activate_template_review`: the task and what is logged.
  unfoldable pub activate_template_review : Task → String → List String → Task × List TaskLog
  unfolding select_reviewer review_fallback_candidates block_review name_reviewer set_field
  activate_template_review task operator_id initial_reviewer_ids =
      let chosen =
        select_reviewer task operator_id (review_fallback_candidates task initial_reviewer_ids) in
      let metadata = set_field "latest_review_state" (str "pending_review") task.extra_metadata in
      let blocking = block_review operator_id task metadata in
      elim chosen.0 [
        | none ↦ (blocking.0, chosen.1 ++ blocking.1)
        | some candidate ↦ (name_reviewer task metadata candidate, chosen.1)
      ]

module _ {R : Type 0} (services : TaskServices R) (now : ℕ) where
  unfoldable pub reassigned_metadata : User → String → Fields → Fields
  unfolding merge_fields drop_field
  reassigned_metadata actor reviewer_id metadata = drop_field "review_blocked_reason" (
      merge_fields metadata (
        field "reviewer_id" (str reviewer_id) (
          field "reviewer_ids" (arr (cons (str reviewer_id) nil)) (
            field "reviewer_source" (str "admin_reassignment") (
              field "reviewer_reassigned_by_user_id" (str actor.id) (
                field "reviewer_reassigned_at" (str (services.show_time now))
                  (field "latest_review_state" (str "pending_review") end)))))))

  unfoldable pub eligible_reviewer : R → Task → String → Result User
  unfolding template_review_executor_id is_active_account
  eligible_reviewer runtime task reviewer_id =
      if reviewer_id == template_review_executor_id task
      then raise (conflict "Self-review is not permitted for template tasks")
      else elim (services.get_user runtime reviewer_id) [
        | none ↦ raise (not_found "验收人不存在。")
        | some reviewer ↦
            if is_active_account reviewer then ok reviewer else raise (conflict "验收人账号不可用。")
      ]

  unfoldable pub reassign_changes : User → String → TaskState R → Result (TaskState R)
  unfolding is_admin is_template_graph_task same_status eligible_reviewer reassigned_metadata
      create_task_log get
  reassign_changes actor reviewer_id state = do
    raise_if (not (is_admin actor)) (forbidden "仅系统管理员可以重新指派模板任务验收人。")
    raise_if (not (is_template_graph_task state.row)) (conflict "仅模板图任务支持重新指派验收人。")
    raise_if (not (same_status state.row.status blocked || same_status state.row.status review))
        (conflict "仅阻塞或评审中的模板任务可以重新指派验收人。")
    reviewer ← eligible_reviewer state.runtime state.row reviewer_id
    let task = record state.row {
      extra_metadata = reassigned_metadata actor reviewer.id state.row.extra_metadata;
      status = review;
      blocked_reason = none;
      updated_at = now;
    }
    synced ← services.sync_status task review now none state.runtime
    ok (
        create_task_log
          (record {
            operator_id = actor.id;
            action_type = assigned;
            from_status = some state.row.status;
            to_status = some review;
            detail = field "action" (str "reviewer_reassigned") (
                field "previous_reviewer_id" (get state.row.extra_metadata "reviewer_id") (
                  field "reviewer_id" (str reviewer.id)
                    (field "reason" (str "admin_override") end)));
          })
          (record { row = task; logs = state.logs; runtime = synced }))

  unfoldable pub reassign_task_reviewer : User → String → TaskState R → TaskState R × Option Failure
  unfolding reassign_changes finish_command
  reassign_task_reviewer actor reviewer_id state =
      finish_command state (reassign_changes actor reviewer_id state) no_more
