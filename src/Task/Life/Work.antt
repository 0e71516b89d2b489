-- ===== src/Task/Life/Work.antt =====
-- What the commands on the work of a task do to its row.
use filum_reforge.Base.{
  inr, inl, ◌⊎◌, ℕ, String, Bool, Option, none, some, List, ◌≡◌, arith, if◌then◌else◌,
}
use filum_reforge.Value.{Fields, ℤ}
use filum_reforge.Errors.{
  Yields-any, ◌>>◌, weaken_result, Yields, Yields-bind, Yields-next, Yields-if,
}
use filum_reforge.Task.Defs.{doing, review, blocked, done, Task, User}
use filum_reforge.Task.Services.{create_task_log, TaskServices, TaskState}
use filum_reforge.Task.Commands.{is_handshake, start_or_now, start_or_now}
use filum_reforge.Task.Reviewer.{
  reassign_changes, activate_template_review, block_review, name_reviewer,
}
use filum_reforge.Task.Deliverable.{
  submit_upserted, submitted_metadata, load_policy, submit_work, check_content, normalized,
  submit_changes, check_submission, complete_directly, submit_for_review, completed_task,
  enter_review,
}
use filum_reforge.Task.Review.{
  check_review, review_changes, approve_changes, return_changes, approved_task, returned_task,
}
use filum_reforge.Task.Archive.{archive_changes, mark_row, archived_task}
use filum_reforge.Task.Life.{same_status_iff}

unfoldable pub Reassigned : Task → Task → Type 0
Reassigned before after =
    ((before.status ≡ blocked) ⊎ (before.status ≡ review))
    × (after.status ≡ review)
    × (after.completed_at ≡ before.completed_at)
    × (after.started_at ≡ before.started_at)
    × (after.id ≡ before.id)
    × (after.creator_id ≡ before.creator_id)

unfoldable pub Returned : ℕ → Task → Task → Type 0
Returned now before after =
    (after.status ≡ doing)
    × (after.completed_at ≡ none)
    × (after.started_at ≡ some (start_or_now before.started_at now))
    × (after.id ≡ before.id)
    × (after.creator_id ≡ before.creator_id)

unfoldable pub Completed : ℕ → Task → Task → Type 0
Completed now before after =
    (after.status ≡ done)
    × (after.completed_at ≡ some now)
    × (after.started_at ≡ some (start_or_now before.started_at now))
    × (after.id ≡ before.id)
    × (after.creator_id ≡ before.creator_id)

-- Given for review, or held up where nobody may review it.
unfoldable pub Sent : ℕ → Task → Task → Type 0
Sent now before after =
    ((after.status ≡ review) ⊎ (after.status ≡ blocked))
    × (after.completed_at ≡ none)
    × (after.started_at ≡ some (start_or_now before.started_at now))
    × (after.id ≡ before.id)
    × (after.creator_id ≡ before.creator_id)

module _ {R : Type 0} (services : TaskServices R) (now : ℕ) where
  pub reassign_rows :
      (actor : User) (id : String) (state : TaskState R)
      → Yields
          (λ after. Reassigned state.row after.row)
          (reassign_changes services now actor id state)
  unfolding Yields reassign_changes Reassigned
  reassign_rows actor id state =
      ground
        (arith, same_status_iff state.row.status blocked, same_status_iff state.row.status review)

  approve_rows :
      (actor : User) (comment : Option String) (score : Option ℤ) (state : TaskState R)
      → Yields
          (λ after. after.row ≡ approved_task services now actor comment score state.row)
          (approve_changes services now actor comment score state)
  unfolding Yields approve_changes create_task_log
  approve_rows actor comment score state = ground arith

  return_rows :
      (actor : User) (comment : Option String) (state : TaskState R)
      → Yields
          (λ after. Returned now state.row after.row)
          (return_changes services now actor comment state)
  unfolding Yields return_changes create_task_log returned_task Returned
  return_rows actor comment state = ground arith

  check_review-lem :
      (actor : User) (loaded : Task) (state : TaskState R)
      → Yields
          (λ (_ : Unit {0}). state.row.status ≡ review)
          (check_review services now actor loaded state)
  unfolding Yields check_review
  check_review-lem actor loaded state = ground (arith, same_status_iff state.row.status review)

  pub review_rows :
      (actor : User) (loaded : Task) (is_approved : Bool) (comment : Option String)
      (score : Option ℤ) (state : TaskState R)
      → Yields
          (λ after.
            (state.row.status ≡ review)
            × ((after.row ≡ approved_task services now actor (normalized comment) score state.row)
                ⊎ Returned now state.row after.row))
          (review_changes services now actor loaded is_approved comment score state)
  unfolding review_changes
  review_rows actor loaded is_approved comment score state =
      Yields-bind _ _ (check_review services now actor loaded state)
        (λ _.
          if is_approved
          then approve_changes services now actor (normalized comment) score state
          else return_changes services now actor (normalized comment) state)
        (check_review-lem actor loaded state)
        (λ _ here.
          Yields-if _ is_approved _ _
            (weaken_result _ _ (approve_changes services now actor (normalized comment) score state)
              (λ after e. (here, inl e)) (approve_rows actor (normalized comment) score state))
            (weaken_result _ _ (return_changes services now actor (normalized comment) state)
              (λ after r. (here, inr r)) (return_rows actor (normalized comment) state)))

  pub archive_rows :
      (actor : User) (reason : String) (state : TaskState R)
      → Yields
          (λ after. after.row ≡ archived_task services now actor reason state.row.id state.row)
          (archive_changes services now actor reason state)
  unfolding Yields archive_changes mark_row create_task_log
  archive_rows actor reason state = ground arith

  -- Where a task stands that has entered its review.
  entered_rows :
      (actor : User) (metadata : Fields) (runtime : R) (task : Task)
      → ((enter_review services now actor metadata runtime task).0.status ≡ review)
        ⊎ ((enter_review services now actor metadata runtime task).0.status ≡ blocked)
  unfolding enter_review activate_template_review name_reviewer block_review
  entered_rows actor metadata runtime task = ground arith

  entered_same :
      (actor : User) (metadata : Fields) (runtime : R) (task : Task)
      → ((enter_review services now actor metadata runtime task).0.id ≡ task.id)
        × ((enter_review services now actor metadata runtime task).0.creator_id ≡ task.creator_id)
  unfolding enter_review activate_template_review name_reviewer block_review
  entered_same actor metadata runtime task = ground arith

  submit_for_review_rows :
      (actor : User) (summary : Option String) (ids : List String) (metadata : Fields)
      (upserted : Fields × R) (state : TaskState R)
      → Yields
          (λ after. Sent now state.row after.row)
          (submit_for_review services now actor summary ids metadata upserted state)
  unfolding Yields submit_for_review create_task_log Sent
  submit_for_review_rows actor summary ids metadata upserted state = ground (
    arith,
    entered_rows actor metadata upserted.1 state.row,
    entered_same actor metadata upserted.1 state.row,
  )

  complete_directly_rows :
      (actor : User) (summary : Option String) (ids : List String) (metadata : Fields)
      (upserted : Fields × R) (state : TaskState R)
      → Yields
          (λ after. Completed now state.row after.row)
          (complete_directly services now actor summary ids metadata upserted state)
  unfolding Yields complete_directly create_task_log completed_task Completed
  complete_directly_rows actor summary ids metadata upserted state = ground arith

  check_submission-lem :
      (loaded : Task) (actor : User) (state : TaskState R)
      → Yields
          (λ (_ : Unit {0}). state.row.status ≡ doing)
          (check_submission services now loaded actor state)
  unfolding Yields check_submission
  check_submission-lem loaded actor state = ground (arith, same_status_iff state.row.status doing)

  submit_upserted_rows :
      (actor : User) (text : Option String) (ids : List String) (is_direct : Bool)
      (state : TaskState R) (upserted : Fields × R)
      → Yields
          (λ after. Completed now state.row after.row ⊎ Sent now state.row after.row)
          (submit_upserted services now actor text ids is_direct state upserted)
  unfolding submit_upserted
  submit_upserted_rows actor text ids is_direct state upserted =
      let metadata = submitted_metadata services now actor text ids state.row.extra_metadata in
      Yields-if _ is_direct _ _
        (weaken_result _ _ (complete_directly services now actor text ids metadata upserted state)
          (λ after e. inl e) (complete_directly_rows actor text ids metadata upserted state))
        (weaken_result _ _ (submit_for_review services now actor text ids metadata upserted state)
          (λ after r. inr r) (submit_for_review_rows actor text ids metadata upserted state))

  submit_work_rows :
      (actor : User) (text : Option String) (ids : List String) (policy : Option String × R)
      (state : TaskState R)
      → Yields
          (λ after. Completed now state.row after.row ⊎ Sent now state.row after.row)
          (submit_work services now actor text ids policy state)
  unfolding submit_work
  submit_work_rows actor text ids policy state =
      let is_direct = is_handshake "on_submit_deliverable" policy.0 in
      Yields-next _ (services.upsert_deliverable state.row actor text ids now is_direct policy.1)
        (submit_upserted services now actor text ids is_direct state)
        (submit_upserted_rows actor text ids is_direct state)

  pub submit_rows :
      (actor : User) (loaded : Task) (summary : Option String) (ids : List String)
      (state : TaskState R)
      → Yields
          (λ after.
            (state.row.status ≡ doing)
            × (Completed now state.row after.row ⊎ Sent now state.row after.row))
          (submit_changes services now actor loaded summary ids state)
  unfolding submit_changes
  submit_rows actor loaded summary ids state =
      let policy = load_policy services now state.row state.runtime in
      Yields-bind (λ _. state.row.status ≡ doing) _
        (check_submission services now loaded actor state
          >> check_content services now (normalized summary) ids state)
        (λ attachments.
          submit_work services now actor (normalized summary) attachments policy state)
        (Yields-bind (λ _. state.row.status ≡ doing) (λ _. state.row.status ≡ doing)
          (check_submission services now loaded actor state)
          (λ _. check_content services now (normalized summary) ids state)
          (check_submission-lem loaded actor state)
          (λ _ here.
            Yields-any _ (check_content services now (normalized summary) ids state) (λ _. here)))
        (λ attachments here.
          weaken_result _ _
            (submit_work services now actor (normalized summary) attachments policy state)
            (λ after r. (here, r))
            (submit_work_rows actor (normalized summary) attachments policy state))
