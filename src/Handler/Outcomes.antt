-- ===== src/Handler/Outcomes.antt =====
-- What the handlers' results promise to the engine, and when an approval is decided.
use filum_reforge.Base.{
  String, ◌≡◌, ◌≢◌, refl, ◌↔◌, ◌⊎◌, inl, inr, Bool, true, false, some, arith, Option-cases,
}
use filum_reforge.Value.{Value, Fields, get, truthy, text_of, texts_of}
use filum_reforge.Errors.{Result, ok, raise}
use filum_reforge.Handler.Defs.{
  Outcome, waiting, succeeded, called_off, blocked, EngineState, activated, acknowledged, completed,
  terminated, suspended, Action, do_complete, finalize_collection, do_approve, do_reject, do_return,
  Semantic, semantic_named, CapabilityContext, CapabilityResult, Handler,
}
use filum_reforge.Handler.Policy.{evaluate_actor_overlap}
use filum_reforge.Handler.Policy.Correct.{MayDecide, evaluate_actor_overlap_iff}
use filum_reforge.Handler.HumanTask.{
  human_task_handler, command_task, retry_task, expected_semantic, task_completion, activate_task,
  cancel_task,
}
use filum_reforge.Handler.Notice.{notice_handler, command_notice, retry_notice, activate_notice}
use filum_reforge.Handler.Approval.{
  approval_handler, command_approval, retry_approval, activate_approval, cancel_approval,
  is_decision, is_supported, actor_of, judge_decision, decide, approval_blocked, approval_waiting,
  approval_decided,
}

-- The engine states that go with an outcome.
unfoldable pub agrees : Outcome → EngineState → Bool
agrees waiting activated = true
agrees waiting acknowledged = true
agrees succeeded completed = true
agrees called_off terminated = true
agrees blocked suspended = true
agrees _ _ = false

unfoldable pub is_consistent : Result CapabilityResult → Bool
is_consistent (ok r) = agrees r.outcome r.engine_state
is_consistent (raise e) = true

-- Every result that the handler gives is consistent.
unfoldable pub GivesConsistent : Handler → Type 0
GivesConsistent handler =
    (context : CapabilityContext) (action : Action) (payload : Fields)
    → (is_consistent (ok (handler.activate context)) ≡ true)
      × (is_consistent (handler.command context action payload) ≡ true)
      × (is_consistent (handler.cancel context) ≡ true)
      × (is_consistent (handler.retry context) ≡ true)

command_notice_consistent :
    (context : CapabilityContext) (action : Action) (payload : Fields)
    → is_consistent (command_notice context action payload) ≡ true
unfolding is_consistent agrees command_notice
command_notice_consistent context do_complete payload = refl
command_notice_consistent context finalize_collection payload = refl
command_notice_consistent context do_approve payload = refl
command_notice_consistent context do_reject payload = refl
command_notice_consistent context do_return payload = refl

module _ (show : Value → String) where
  command_task_consistent :
      (context : CapabilityContext) (action : Action) (payload : Fields)
      → is_consistent (command_task show context action payload) ≡ true
  unfolding is_consistent agrees command_task expected_semantic task_completion
  command_task_consistent context do_complete payload = ground arith
  command_task_consistent context finalize_collection payload = ground arith
  command_task_consistent context do_approve payload = refl
  command_task_consistent context do_reject payload = refl
  command_task_consistent context do_return payload = refl

  decide_consistent :
      (semantic : Semantic) (config : Fields) (action : Action) (payload : Fields)
      → is_consistent (ok (decide show semantic config action payload)) ≡ true
  unfolding is_consistent agrees decide approval_blocked approval_waiting approval_decided
  decide_consistent semantic config action payload = ground arith

  command_approval_consistent :
      (context : CapabilityContext) (action : Action) (payload : Fields)
      → is_consistent (command_approval show context action payload) ≡ true
  unfolding is_consistent command_approval
  command_approval_consistent context action payload =
      let raw = text_of show (get context.config "decision_semantic") in
      elim (Option-cases (semantic_named raw)) [
        | inl e ↦ ground arith
        | inr (semantic, e) ↦
            ground (arith, decide_consistent semantic context.config action payload)
      ]

  -- Whatever the handlers of the default registry answer, the outcome and the engine state go together:
  -- waiting with an active node, success with a completed one, a block with a suspended one.
  pub handlers_consistent :
      GivesConsistent (human_task_handler show)
      × GivesConsistent (approval_handler show)
      × GivesConsistent notice_handler
  unfolding GivesConsistent human_task_handler approval_handler notice_handler is_consistent agrees
      activate_task cancel_task retry_task activate_approval cancel_approval retry_approval
      activate_notice command_notice retry_notice
  handlers_consistent = (
    λ context action payload.
        (refl, command_task_consistent context action payload, refl, ground arith),
    λ context action payload.
        (refl, command_approval_consistent context action payload, refl, ground arith),
    λ context action payload.
        (refl, command_notice_consistent context action payload, refl, ground arith),
  )

  decide-suspended :
      (semantic : Semantic) (config : Fields) (action : Action) (payload : Fields)
      → ((decide show semantic config action payload).engine_state ≢ suspended)
        ↔ ((judge_decision show semantic config payload).0 ≡ true)
  unfolding decide approval_blocked approval_waiting approval_decided
  decide-suspended semantic config action payload = ground arith

  judge_decision-0 :
      (semantic : Semantic) (config payload : Fields)
      → ((judge_decision show semantic config payload).0 ≡ true) ↔ (
          (truthy (get payload "legacy_management_override") ≡ true)
          ⊎ ((evaluate_actor_overlap semantic
                (actor_of show (get payload "actor_user_id"))
                (texts_of show (get payload "contributor_user_ids"))
                (texts_of show (get payload "decision_maker_user_ids"))
                (truthy (get config "allow_contributor_cosign"))).allowed
              ≡ true))
  unfolding judge_decision
  judge_decision-0 semantic config payload = ground arith

  -- An approval handler that is asked to decide blocks the node unless a management override is set or
  -- the actor may decide.
  pub command_approval_independent :
      (context : CapabilityContext) (action : Action) (payload : Fields) (semantic : Semantic)
      → semantic_named (text_of show (get context.config "decision_semantic")) ≡ some semantic
      → is_supported semantic ≡ true
      → is_decision action ≡ true
      → (r : CapabilityResult) × (command_approval show context action payload ≡ ok r)
        × ((r.engine_state ≢ suspended) ↔ (
            (truthy (get payload "legacy_management_override") ≡ true)
            ⊎ MayDecide semantic
                (actor_of show (get payload "actor_user_id"))
                (texts_of show (get payload "contributor_user_ids"))
                (texts_of show (get payload "decision_maker_user_ids"))
                (truthy (get context.config "allow_contributor_cosign"))))
  unfolding command_approval
  command_approval_independent context action payload semantic named supported decision =
      let policy =
        evaluate_actor_overlap_iff semantic (actor_of show (get payload "actor_user_id"))
          (texts_of show (get payload "contributor_user_ids"))
          (texts_of show (get payload "decision_maker_user_ids"))
          (truthy (get context.config "allow_contributor_cosign")) in
      (
        decide show semantic context.config action payload,
        ground arith,
        grind (
          arith,
          decide-suspended semantic context.config action payload,
          judge_decision-0 semantic context.config payload,
          policy,
        ),
      )
