-- ===== src/Task/UserState/Meaning.antt =====
-- What each state that a user sees means.
use filum_reforge.Base.{
  ◌≢◌, ◌⊎◌, inl, inr, ◌⊎◌, String, Bool, true, not, ◌&&◌, ◌||◌, Option, some, ◌≡◌, refl, arith,
  ◌==◌, ◌↔◌, if◌then◌else◌,
}
use filum_reforge.Value.{Value}
use filum_reforge.Handler.Defs.{BusinessState}
use filum_reforge.Task.Defs.{Task, TaskStatus, review, blocked, done, same_status}
use filum_reforge.Capability.Task.Sources.{read_task_capability}
use filum_reforge.Task.UserState.{
  shown_in_progress, shown_pending, shown_awaiting_confirm, shown_returned, shown_blocked,
  TaskUserFacingState, shown_completed, resolve_task_user_facing_state, is_returned,
  has_rework_signal, policy_state_by_status, policy_state, state_by_signs, map_status_fallback,
  state_policy_of, surface_of, is_pending_review, is_handed_over,
}

by_status-Cases :
    (policy : String) (status : TaskStatus)
    → (policy_state_by_status policy status ≡ some shown_completed
        → ((policy == "submission") ≡ true) × (same_status status review ≡ true))
      × (policy_state_by_status policy status ≢ some shown_blocked)
      × (policy_state_by_status policy status ≢ some shown_returned)
unfolding policy_state_by_status
by_status-Cases policy status = ground arith

-- The same with the answers that come first, told by their tests.
first_answers :
    (waits delivers collects submits handed runs in_review : Bool)
    (last : Option TaskUserFacingState)
    → (last ≡ some shown_completed → (submits ≡ true) × (in_review ≡ true))
    → last ≢ some shown_blocked
    → last ≢ some shown_returned
    → (answer : Option TaskUserFacingState)
    → answer ≡ (
        if waits && delivers
        then some shown_awaiting_confirm
        else if waits && collects
        then some shown_pending
        else if waits && submits
        then some shown_completed
        else if handed
        then some shown_pending
        else if runs
        then some shown_in_progress
        else last)
    → (answer ≡ some shown_completed → (submits ≡ true) × ((waits || in_review) ≡ true))
      × (answer ≢ some shown_blocked)
      × (answer ≢ some shown_returned)
first_answers w d c s h r v last f g k answer e = ground arith

-- The policy takes a task as completed only where its policy is "submission" and it is in review, and
-- gives none of the states that tell of a blocked task or one sent back.
policy_state-Cases :
    (policy surface : String) (status : TaskStatus) (business : Option BusinessState)
    → (policy_state policy surface status business ≡ some shown_completed
        → ((policy == "submission") ≡ true)
          × ((is_pending_review business || same_status status review) ≡ true))
      × (policy_state policy surface status business ≢ some shown_blocked)
      × (policy_state policy surface status business ≢ some shown_returned)
unfolding policy_state
policy_state-Cases policy surface status business =
    let (completed, not_blocked, not_returned) = by_status-Cases policy status in
    first_answers (is_pending_review business) (policy == "deliverable" || policy == "review")
      (policy == "collection") (policy == "submission")
      (is_handed_over business && surface == "manual") (policy == "run_active")
      (same_status status review) (policy_state_by_status policy status) completed not_blocked
      not_returned (policy_state policy surface status business) refl

-- What the signs come to.
signs_meaning :
    (node_returned has_signal : Bool) (by_policy : Option TaskUserFacingState) (status : TaskStatus)
    → by_policy ≢ some shown_blocked
    → by_policy ≢ some shown_returned
    → ((state_by_signs node_returned has_signal by_policy status ≡ shown_blocked)
        ↔ (status ≡ blocked))
      × ((state_by_signs node_returned has_signal by_policy status ≡ shown_returned) ↔ (
          ((node_returned || has_signal)
            && not (same_status status blocked)
            && not (same_status status done))
          ≡ true))
      × (status ≡ done → state_by_signs node_returned has_signal by_policy status ≡ shown_completed)
      × (state_by_signs node_returned has_signal by_policy status ≡ shown_completed
          → (status ≡ done) ⊎ (by_policy ≡ some shown_completed))
unfolding state_by_signs map_status_fallback same_status
signs_meaning r g by_policy status h k = ground arith

module _ (show : Value → String) (task : Task) (status : TaskStatus)
    (business : Option BusinessState) where
  abbrev pub shown : TaskUserFacingState
  shown = resolve_task_user_facing_state show task status business

  -- The work was sent back and is not done.
  abbrev pub is_sent_back : Bool
  is_sent_back =
      (is_returned business || has_rework_signal task.extra_metadata)
      && not (same_status status blocked)
      && not (same_status status done)

  -- A task is shown as blocked exactly when its status is BLOCKED, and as returned exactly when its
  -- node or its metadata say that the work was sent back, and it is neither blocked nor done. One that
  -- is DONE is shown as completed; another is shown so only when its capability has the policy
  -- "submission" and it waits for its review.
  pub user_facing_state-Meaning :
      ((shown ≡ shown_blocked) ↔ (status ≡ blocked))
      × ((shown ≡ shown_returned) ↔ (is_sent_back ≡ true))
      × (status ≡ done → shown ≡ shown_completed)
      × (shown ≡ shown_completed
          → (status ≡ done)
            ⊎ (((state_policy_of (read_task_capability show task.extra_metadata) == "submission")
                  ≡ true)
                × ((is_pending_review business || same_status status review) ≡ true)))
  unfolding resolve_task_user_facing_state
  user_facing_state-Meaning =
      let capability = read_task_capability show task.extra_metadata in
      let (submitted, not_blocked, not_returned) =
        policy_state-Cases (state_policy_of capability) (surface_of capability) status business in
      let (is_blocked, is_back, is_done, is_complete) =
        signs_meaning (is_returned business) (has_rework_signal task.extra_metadata)
          (policy_state (state_policy_of capability) (surface_of capability) status business) status
          not_blocked not_returned in
      (
        is_blocked,
        is_back,
        is_done,
        λ e. elim (is_complete e) [ inl d ↦ inl d | inr said ↦ inr (submitted said) ],
      )
