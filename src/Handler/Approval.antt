-- ===== src/Handler/Approval.antt =====
-- `ApprovalNodeHandler`, which asks the policy who may decide.
use Prim.Native.String.{◌++◌ as text_append}
use filum_reforge.Base.{
  String, Bool, true, false, not, Option, none, some, List, [], ◌∷◌, minus, length, if◌then◌else◌,
}
use filum_reforge.Value.{
  Value, Fields, end, field, field_of, get, str, obj, arr, num, pos, bool, null, texts, texts_of,
  text_of, object_of, truthy, set_field, optional,
}
use filum_reforge.Errors.{Result, ok, raise}
use filum_reforge.Handler.Defs.{
  approval, activated, acknowledged, completed, suspended, terminated, BusinessState, done,
  rejected, returned_for_rework, cancelled, pending_review, waiting, succeeded, called_off, blocked,
  Action, do_approve, do_reject, do_return, action_value, Semantic, deliverable_acceptance,
  business_approval, cosign, semantic_named, semantic_value, CapabilityContext, CapabilityResult,
  Handler, operation_error, can_retry,
}
use filum_reforge.Handler.Policy.{actor_in, evaluate_actor_overlap}

-- `_supported_semantics`
unfoldable pub is_supported : Semantic → Bool
is_supported deliverable_acceptance = true
is_supported business_approval = true
is_supported cosign = true
is_supported _ = false

unfoldable pub activate_approval : CapabilityContext → CapabilityResult
activate_approval context = record {
  capability_key = "approval";
  outcome = waiting;
  engine_state = activated;
  business_state = pending_review;
  result = end;
  diagnostics = end;
  side_effects = "ensure_approval_instance" ∷ [];
}

unfoldable pub cancel_approval : CapabilityContext → Result CapabilityResult
cancel_approval context = ok (record {
  capability_key = "approval";
  outcome = called_off;
  engine_state = terminated;
  business_state = cancelled;
  result = end;
  diagnostics = end;
  side_effects = "cancel_approval_instance" ∷ [];
})

unfoldable pub retry_approval : CapabilityContext → Result CapabilityResult
retry_approval context =
    if can_retry context.engine_state
    then ok (activate_approval context)
    else raise (operation_error "Approval 只有 FAILED/SUSPENDED 状态可以重试。")

unfoldable pub is_decision : Action → Bool
is_decision do_approve = true
is_decision do_reject = true
is_decision do_return = true
is_decision _ = false

unfoldable pub decided_state : Action → BusinessState
decided_state do_reject = rejected
decided_state do_return = returned_for_rework
decided_state _ = done

unfoldable pub approval_blocked : Fields → Fields → CapabilityResult
approval_blocked payload diagnostics = record {
  capability_key = "approval";
  outcome = blocked;
  engine_state = suspended;
  business_state = pending_review;
  result = payload;
  diagnostics = diagnostics;
  side_effects = [];
}

unfoldable pub approval_waiting : Fields → Fields → CapabilityResult
approval_waiting result diagnostics = record {
  capability_key = "approval";
  outcome = waiting;
  engine_state = acknowledged;
  business_state = pending_review;
  result = result;
  diagnostics = diagnostics;
  side_effects = [];
}

unfoldable pub approval_decided : Action → Fields → Fields → CapabilityResult
approval_decided action result diagnostics = record {
  capability_key = "approval";
  outcome = succeeded;
  engine_state = completed;
  business_state = decided_state action;
  result = result;
  diagnostics = diagnostics;
  side_effects = [];
}

-- `bool(payload.get("decision_complete", True))`
unfoldable pub is_complete : Fields → Bool
is_complete payload = elim (field_of "decision_complete" payload) [
  | none ↦ true
  | some value ↦ truthy value
]

module _ (show : Value → String) where
  unfoldable pub validate_approval : Fields → List String
  validate_approval config = elim (get config "decision_semantic") [
    | null ↦ "Approval 必须显式配置 decision_semantic。" ∷ []
    | raw ↦ elim (semantic_named (text_of show raw)) [
      | none ↦
          text_append "Approval 使用了未知 decision_semantic=" (text_append (text_of show raw) "。") ∷ []
      | some semantic ↦
          if is_supported semantic
          then []
          else text_append "Approval 不支持 decision_semantic="
              (text_append (semantic_value semantic) "。")
            ∷ []
    ]
  ]

  -- `str(payload["actor_user_id"])` unless that is `None`.
  unfoldable pub actor_of : Value → Option String
  actor_of null = none
  actor_of actor = some (text_of show actor)

  -- The policy's answer and its diagnostics, or those of a management override.
  unfoldable pub judge_decision : Semantic → Fields → Fields → Bool × Fields
  judge_decision semantic config payload =
      let contributors = texts_of show (get payload "contributor_user_ids") in
      let decision_makers = texts_of show (get payload "decision_maker_user_ids") in
      let actor = actor_of (get payload "actor_user_id") in
      let policy =
        evaluate_actor_overlap semantic actor contributors decision_makers
          (truthy (get config "allow_contributor_cosign")) in
      let override = field "decision_semantic" (str (semantic_value semantic)) (
        field "actor_user_id" (optional actor) (
          field "contributor_user_ids" (arr (texts contributors)) (
            field "decision_maker_user_ids" (arr (texts decision_makers)) (
              field "actor_is_contributor" (bool (actor_in actor contributors)) (
                field "non_contributor_decision_maker_count"
                  (num (pos (length (minus decision_makers contributors))))
                  (field "policy_code" (str "legacy_management_override") end)))))) in
      if truthy (get payload "legacy_management_override")
      then (true, override)
      else (policy.allowed, policy.diagnostics)

  unfoldable pub decide : Semantic → Fields → Action → Fields → CapabilityResult
  decide semantic config action payload =
      let (allowed, judged) = judge_decision semantic config payload in
      let diagnostics =
        set_field "decision_subject" (obj (object_of (get payload "decision_subject"))) judged in
      let result = set_field "decision" (str (action_value action)) payload in
      if not allowed
      then approval_blocked payload diagnostics
      else if not (is_complete payload)
      then approval_waiting result diagnostics
      else approval_decided action result diagnostics

  unfoldable pub command_approval : CapabilityContext → Action → Fields → Result CapabilityResult
  command_approval context action payload =
      if not (is_decision action)
      then raise (
          operation_error
            (text_append "Approval Handler 不支持命令：" (text_append (action_value action) "。")))
      else elim (semantic_named (text_of show (get context.config "decision_semantic"))) [
        | none ↦ raise (operation_error "Approval 缺少有效 decision_semantic。")
        | some semantic ↦
            if is_supported semantic
            then ok (decide semantic context.config action payload)
            else raise (
                operation_error (
                  text_append "Approval 不支持 decision_semantic="
                    (text_append (semantic_value semantic) "。")))
      ]

unfoldable pub approval_handler : (Value → String) → Handler
approval_handler show = record {
  capability_key = "approval";
  node_type = approval;
  interruptible = true;
  compensation = "cancel_approval_instance";
  declared_side_effects = "ensure_approval_instance" ∷ [];
  validate_definition = validate_approval show;
  activate = activate_approval;
  command = command_approval show;
  cancel = cancel_approval;
  retry = retry_approval;
}
