-- ===== src/Task/Offer.antt =====
-- What the client offers on a standalone task (task_action_policy.py) against what the commands of
-- task_service.py let pass.
use filum_reforge.Base.{ℕ, String, Bool, true, false, ◌&&◌, ◌||◌, ◌≡◌, arith, ◌==◌, eq_iff}
use filum_reforge.Text.{strip}
use filum_reforge.Errors.{Result, ok, raise}
use filum_reforge.Task.Defs.{
  Task, User, todo, doing, review, same_status, is_standalone, is_template_graph_task,
  is_management, is_active_account, is_admin_archived, is_root_shell,
}
use filum_reforge.Task.Services.{TaskServices, TaskState}
use filum_reforge.Task.Access.{
  get_task, is_visible, ensure_task_assignee_or_manager, ensure_standalone_delegate_authority,
  ensure_task_reviewer,
}
use filum_reforge.Task.Actions.{
  TaskAction, start_work, submit_deliverable, delegate_assignment, approve_deliverable,
  return_for_rework, offers, build_standalone_action_context, standalone_available_actions,
  standalone_actions, action_option, same_action,
}
use filum_reforge.Task.Commands.{check_transition_actor, required_action, is_action_offered}
use filum_reforge.Task.Delegate.{check_standalone_delegation, ensure_same_assignee}
use filum_reforge.Task.Deliverable.{check_submission}
use filum_reforge.Task.Review.{check_review}

abbrev pub passes {ℓ} : {A : Type ℓ} → Result A → Bool
passes (ok a) = true
passes (raise e) = false

-- The client shows the action to the actor.
unfoldable pub is_offered : TaskAction → Task → User → Bool
unfolding offers build_standalone_action_context is_management
is_offered action task actor =
    offers action
      (build_standalone_action_context task actor (is_management actor)).available_actions

is_offered_start :
    (task : Task) (actor : User)
    → is_offered start_work task actor
      ≡ ((actor.id == task.assignee_id || is_management actor) && same_status task.status todo)
unfolding is_offered offers build_standalone_action_context standalone_available_actions
    standalone_actions action_option same_action same_status
is_offered_start task actor = ground arith

is_offered_submit :
    (task : Task) (actor : User)
    → is_offered submit_deliverable task actor
      ≡ ((actor.id == task.assignee_id || is_management actor) && same_status task.status doing)
unfolding is_offered offers build_standalone_action_context standalone_available_actions
    standalone_actions action_option same_action same_status
is_offered_submit task actor = ground arith

is_offered_delegate :
    (task : Task) (actor : User)
    → is_offered delegate_assignment task actor ≡ (
        (actor.id == task.assignee_id || is_management actor)
        && (same_status task.status todo || same_status task.status doing))
unfolding is_offered offers build_standalone_action_context standalone_available_actions
    standalone_actions action_option same_action same_status
is_offered_delegate task actor = ground arith

is_offered_review :
    (task : Task) (actor : User)
    → (is_offered approve_deliverable task actor
        ≡ ((actor.id == task.creator_id || is_management actor) && same_status task.status review))
      × (is_offered return_for_rework task actor ≡ (
          (actor.id == task.creator_id || is_management actor) && same_status task.status review))
unfolding is_offered offers build_standalone_action_context standalone_available_actions
    standalone_actions action_option same_action same_status
is_offered_review task actor = ground arith

-- A standalone task is no task of a template's graph.
standalone_not_template :
    (task : Task) → is_standalone task ≡ true → is_template_graph_task task ≡ false
unfolding is_standalone is_template_graph_task
standalone_not_template task h = ground arith

module _ {R : Type 0} (services : TaskServices R) (now : ℕ) (actor : User)
    (state : TaskState R) where
  passes_start :
      is_standalone state.row ≡ true
      → (passes (check_transition_actor services now state.runtime actor state.row)
          && same_status state.row.status todo)
        ≡ is_offered start_work state.row actor
  unfolding check_transition_actor required_action is_action_offered is_offered same_status
  passes_start h = ground arith

  passes_submit :
      is_active_account actor ≡ true
      → is_admin_archived state.row ≡ false
      → is_root_shell state.row ≡ false
      → passes (check_submission services now state.row actor state)
        ≡ is_offered submit_deliverable state.row actor
  unfolding check_submission get_task is_visible ensure_task_assignee_or_manager
  passes_submit active kept leaf = ground (arith, is_offered_submit state.row actor)

  passes_delegate :
      (reason : String)
      → (strip reason == "") ≡ false
      → passes (check_standalone_delegation services now actor state.row reason state.row)
        ≡ is_offered delegate_assignment state.row actor
  unfolding check_standalone_delegation ensure_same_assignee ensure_standalone_delegate_authority
  passes_delegate reason given = ground (
    arith,
    eq_iff state.row.assignee_id state.row.assignee_id,
    is_offered_delegate state.row actor,
  )

  passes_review :
      is_active_account actor ≡ true
      → is_standalone state.row ≡ true
      → (passes (check_review services now actor state.row state)
          ≡ is_offered approve_deliverable state.row actor)
        × (passes (check_review services now actor state.row state)
            ≡ is_offered return_for_rework state.row actor)
  unfolding check_review get_task is_visible ensure_task_reviewer
  passes_review active alone =
      ground (arith, standalone_not_template state.row alone, is_offered_review state.row actor)

  -- For a standalone task that is not archived and no root of a run, an active actor is offered an
  -- action exactly when the guards of its command let the actor pass (a delegation with a reason):
  -- the check of the actor for the start of work, the checks before a submission, those before a
  -- delegation, and those before an approval or a return.
  pub is_offered-passes :
      (reason : String)
      → is_active_account actor ≡ true
      → is_standalone state.row ≡ true
      → is_admin_archived state.row ≡ false
      → is_root_shell state.row ≡ false
      → (strip reason == "") ≡ false
      → ((passes (check_transition_actor services now state.runtime actor state.row)
            && same_status state.row.status todo)
          ≡ is_offered start_work state.row actor)
        × (passes (check_submission services now state.row actor state)
            ≡ is_offered submit_deliverable state.row actor)
        × (passes (check_standalone_delegation services now actor state.row reason state.row)
            ≡ is_offered delegate_assignment state.row actor)
        × (passes (check_review services now actor state.row state)
            ≡ is_offered approve_deliverable state.row actor)
        × (passes (check_review services now actor state.row state)
            ≡ is_offered return_for_rework state.row actor)
  is_offered-passes reason active alone kept leaf given =
      let (approving, returning) = passes_review active alone in
      (
        passes_start alone,
        passes_submit active kept leaf,
        passes_delegate reason given,
        approving,
        returning,
      )
