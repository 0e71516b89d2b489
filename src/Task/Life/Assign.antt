-- ===== src/Task/Life/Assign.antt =====
-- What the commands that move a task along or to another person do to its row.
use filum_reforge.Base.{◌⊎◌, ℕ, String, Bool, true, not, some, ◌≡◌, arith}
use filum_reforge.Errors.{
  ◌>>=◌, Failure, raise_if, ◌>>◌, weaken_result, Result, Yields, Yields-bind, Yields-next,
  Yields-if,
}
use filum_reforge.Task.Access.{get_task}
use filum_reforge.Task.Defs.{
  is_standalone, uses_graph_handshake_cycle, TaskStatus, todo, doing, Task, User, same_status,
  is_allowed_transition,
}
use filum_reforge.Task.Services.{create_task_log, TaskServices, TaskState}
use filum_reforge.Task.Commands.{
  apply_transition, check_target, check_transition_actor, move_task, check_transition,
  transition_changes,
}
use filum_reforge.Task.Handshake.{
  accept_template, on_task_accepted, apply_handshake_acceptance, accept_graph, accept_standalone,
  accept_graph, apply_handshake_acceptance, on_task_accepted, accept_template, accept_changes,
  reject_changes,
}
use filum_reforge.Task.Delegate.{
  check_standalone_delegation, apply_standalone_delegation, delegate_by_mode, check_delegation,
  apply_delegation, delegate_changes, delegate_standalone, delegate_workflow,
}
use filum_reforge.Task.Life.{same_status_iff}

-- The columns that tell where a task is in its life are as they were.
unfoldable pub Unmoved : Task → Task → Type 0
Unmoved before after =
    (after.status ≡ before.status)
    × (after.completed_at ≡ before.completed_at)
    × (after.started_at ≡ before.started_at)
    × (after.id ≡ before.id)
    × (after.creator_id ≡ before.creator_id)

unfoldable pub Accepted : ℕ → Task → Task → Type 0
unfolding Unmoved
Accepted now before after =
    Unmoved before after
    ⊎ ((before.status ≡ todo)
        × (after.status ≡ doing)
        × (after.completed_at ≡ before.completed_at)
        × (after.started_at ≡ some now)
        × (after.id ≡ before.id)
        × (after.creator_id ≡ before.creator_id))

-- The second guard holds once both are passed.
guarded :
    (b c : Bool) (e f : Failure) (last : Result (Unit {0}))
    → Yields (λ (_ : Unit {0}). c ≡ true) (raise_if b e >> (raise_if (not c) f >> last))
unfolding Yields
guarded b c e f last = ground arith

module _ {R : Type 0} (services : TaskServices R) (now : ℕ) where
  check_target-lem :
      (runtime : R) (task : Task) (target : TaskStatus)
      → Yields
          (λ (_ : Unit {0}). is_allowed_transition task.status target ≡ true)
          (check_target services now runtime task target)
  unfolding Yields check_target
  check_target-lem runtime task target =
      guarded (same_status target task.status) (is_allowed_transition task.status target) _ _ _

  check_transition-lem :
      (runtime : R) (actor : User) (task : Task) (target : TaskStatus)
      → Yields
          (λ (_ : Unit {0}). is_allowed_transition task.status target ≡ true)
          (check_transition services now runtime actor task target)
  unfolding check_transition
  check_transition-lem runtime actor task target =
      Yields-next _ (check_transition_actor services now runtime actor task)
        (λ _. check_target services now runtime task target)
        (λ _. check_target-lem runtime task target)

  apply_transition_rows :
      (actor : User) (target : TaskStatus) (state : TaskState R)
      → Yields
          (λ after. after.row ≡ move_task now state.row target)
          (apply_transition services now actor target state)
  unfolding Yields apply_transition create_task_log
  apply_transition_rows actor target state = ground arith

  pub transition_rows :
      (actor : User) (loaded : Task) (target : TaskStatus) (state : TaskState R)
      → Yields
          (λ after.
            (is_allowed_transition state.row.status target ≡ true)
            × (after.row ≡ move_task now state.row target))
          (transition_changes services now actor loaded target state)
  unfolding transition_changes
  transition_rows actor loaded target state =
      Yields-bind (λ _. is_allowed_transition state.row.status target ≡ true) _
        (get_task services state.runtime actor loaded >>= λ seen.
          check_transition services now state.runtime actor state.row target)
        (λ _. apply_transition services now actor target state)
        (Yields-next _ (get_task services state.runtime actor loaded)
          (λ seen. check_transition services now state.runtime actor state.row target)
          (λ seen. check_transition-lem state.runtime actor state.row target))
        (λ _ allowed.
          weaken_result _ _ (apply_transition services now actor target state)
            (λ after moved. (allowed, moved)) (apply_transition_rows actor target state))

  pub reject_rows :
      (actor : User) (reason : String) (state : TaskState R)
      → Yields
          (λ after. Unmoved state.row after.row)
          (reject_changes services now actor reason state)
  unfolding reject_changes Unmoved Yields
  reject_rows actor reason state = ground arith

  accept_template_rows :
      (actor : User) (state : TaskState R)
      → Accepted now state.row (accept_template services now actor state).row
  unfolding accept_template on_task_accepted apply_handshake_acceptance create_task_log Accepted
  accept_template_rows actor state = ground (arith, same_status_iff state.row.status todo)

  accept_graph_rows :
      (actor : User) (state : TaskState R)
      → Yields (λ after. Unmoved state.row after.row) (accept_graph services now actor state)
  unfolding Yields accept_graph Unmoved
  accept_graph_rows actor state = ground arith

  accept_standalone_rows :
      (actor : User) (state : TaskState R)
      → Yields (λ after. Unmoved state.row after.row) (accept_standalone services now actor state)
  unfolding Yields accept_standalone Unmoved
  accept_standalone_rows actor state = ground arith

  pub accept_rows :
      (actor : User) (state : TaskState R)
      → Yields (λ after. Accepted now state.row after.row) (accept_changes services now actor state)
  unfolding Yields accept_changes Accepted
  accept_rows actor state = ground (
    arith,
    accept_template_rows actor state,
    accept_graph_rows actor state,
    accept_standalone_rows actor state,
  )

  apply_standalone_delegation_rows :
      (actor : User) (id reason : String) (state : TaskState R)
      → Yields
          (λ after. Unmoved state.row after.row)
          (apply_standalone_delegation services now actor id reason state)
  unfolding Yields apply_standalone_delegation Unmoved create_task_log
  apply_standalone_delegation_rows actor id reason state = ground arith

  delegate_standalone_rows :
      (actor : User) (loaded : Task) (id reason : String) (state : TaskState R)
      → Yields
          (λ after. Unmoved state.row after.row)
          (delegate_standalone services now actor loaded id reason state)
  unfolding delegate_standalone
  delegate_standalone_rows actor loaded id reason state =
      Yields-next _ (check_standalone_delegation services now actor loaded reason state.row)
        (λ _. apply_standalone_delegation services now actor id reason state)
        (λ _. apply_standalone_delegation_rows actor id reason state)

  apply_delegation_rows :
      (actor : User) (id reason : String) (state : TaskState R)
      → Yields
          (λ after. Unmoved state.row after.row)
          (apply_delegation services now actor id reason state)
  unfolding Yields apply_delegation Unmoved create_task_log
  apply_delegation_rows actor id reason state = ground arith

  delegate_by_mode_rows :
      (actor : User) (loaded : Task) (id reason : String) (state : TaskState R)
      → Yields
          (λ after. Unmoved state.row after.row)
          (delegate_by_mode services now actor loaded id reason state)
  unfolding delegate_by_mode delegate_workflow Yields
  delegate_by_mode_rows actor loaded id reason state =
      Yields-if _ (is_standalone loaded) _ _ (delegate_standalone_rows actor loaded id reason state)
        (Yields-if _ (uses_graph_handshake_cycle services.parse_uuid loaded) _ _
          (Yields-next _ (check_delegation services now actor loaded reason state.row)
            (λ _. apply_delegation services now actor id reason state)
            (λ _. apply_delegation_rows actor id reason state))
          tt)

  pub delegate_rows :
      (actor : User) (loaded : Task) (id reason : String) (state : TaskState R)
      → Yields
          (λ after. Unmoved state.row after.row)
          (delegate_changes services now actor loaded id reason state)
  unfolding delegate_changes
  delegate_rows actor loaded id reason state =
      Yields-next _ (get_task services state.runtime actor loaded)
        (λ seen. delegate_by_mode services now actor loaded id reason state)
        (λ seen. delegate_by_mode_rows actor loaded id reason state)
