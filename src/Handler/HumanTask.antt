-- ===== src/Handler/HumanTask.antt =====
-- `HumanTaskNodeHandler`.
use Prim.Native.String.{◌++◌ as text_append}
use filum_reforge.Base.{
  String, Bool, true, false, Option, none, some, List, [], ◌∷◌, ◌==◌, elem, if◌then◌else◌, not,
}
use filum_reforge.Value.{
  Value, Fields, end, field, get, str, obj, arr, nil, bool, null, texts, texts_of, text_of,
  object_of, or_value,
}
use filum_reforge.Errors.{Result, ok, raise}
use filum_reforge.Handler.Defs.{
  task, activated, completed, terminated, assigned, done, cancelled, waiting, succeeded, called_off,
  Action, do_complete, finalize_collection, action_value, work_item_complete, collection_finalize,
  semantic_named, semantic_value, CapabilityContext, CapabilityResult, Handler, operation_error,
  can_retry,
}

-- `isinstance(value, list) and value`, which is false on an empty list.
unfoldable pub is_full_list : Value → Bool
is_full_list (arr nil) = false
is_full_list (arr items) = true
is_full_list _ = false

unfoldable pub activate_task : CapabilityContext → CapabilityResult
activate_task context = record {
  capability_key = "human_task";
  outcome = waiting;
  engine_state = activated;
  business_state = assigned;
  result = end;
  diagnostics = end;
  side_effects = "ensure_work_item" ∷ [];
}

-- `expected_semantic`; `none` is a command that is not supported.
unfoldable pub expected_semantic : Action → Option String
expected_semantic do_complete = some "work_item_complete"
expected_semantic finalize_collection = some "collection_finalize"
expected_semantic _ = none

-- `decision_subject.source_node_keys` is needed to finalize a collection.
unfoldable pub names_sources : Action → Fields → Bool
names_sources finalize_collection subject = is_full_list (get subject "source_node_keys")
names_sources _ subject = true

unfoldable pub cancel_task : CapabilityContext → Result CapabilityResult
cancel_task context = ok (record {
  capability_key = "human_task";
  outcome = called_off;
  engine_state = terminated;
  business_state = cancelled;
  result = end;
  diagnostics = end;
  side_effects = "terminate_work_item" ∷ [];
})

unfoldable pub retry_task : CapabilityContext → Result CapabilityResult
retry_task context =
    if can_retry context.engine_state
    then ok (activate_task context)
    else raise (operation_error "HumanTask 只有 FAILED/SUSPENDED 状态可以重试。")

module _ (show : Value → String) where
  unfoldable pub validate_task : Fields → List String
  unfolding get text_of semantic_named semantic_value
  validate_task config = elim (get config "decision_semantic") [
    | null ↦ []
    | raw ↦ elim (semantic_named (text_of show raw)) [
      | none ↦
          text_append "HumanTask 使用了未知 decision_semantic=" (text_append (text_of show raw) "。") ∷ []
      | some work_item_complete ↦ []
      | some collection_finalize ↦ []
      | some semantic ↦
          text_append "HumanTask 不支持 decision_semantic=" (text_append (semantic_value semantic) "。")
          ∷ []
    ]
  ]

  unfoldable pub actor_contributed : Value → List String → Bool
  actor_contributed null contributors = false
  actor_contributed actor contributors = elem (text_of show actor) contributors

  unfoldable pub task_completion : String → Fields → CapabilityResult
  task_completion configured payload =
      let contributors = texts_of show (get payload "contributor_user_ids") in
      record {
        capability_key = "human_task";
        outcome = succeeded;
        engine_state = completed;
        business_state = done;
        result = payload;
        diagnostics = field "decision_semantic" (str configured) (
            field "decision_subject" (obj (object_of (get payload "decision_subject"))) (
              field "contributor_user_ids" (arr (texts contributors)) (
                field "contributor_resolution" (get payload "contributor_resolution") (
                  field "actor_is_contributor"
                    (bool (actor_contributed (get payload "actor_user_id") contributors)) end))));
        side_effects = [];
      }

  unfoldable pub command_task : CapabilityContext → Action → Fields → Result CapabilityResult
  command_task context action payload = elim (expected_semantic action) [
    | none ↦ raise (
        operation_error
          (text_append "HumanTask Handler 不支持命令：" (text_append (action_value action) "。")))
    | some expected ↦
        let configured =
          text_of show
            (or_value (get context.config "decision_semantic") (str "work_item_complete")) in
        if not (configured == expected)
        then raise (
            operation_error (
              text_append "HumanTask 命令 " (
                text_append (action_value action)
                  (text_append " 与 decision_semantic=" (text_append configured " 不匹配。")))))
        else if not (names_sources action (object_of (get payload "decision_subject")))
        then raise (operation_error "collection_finalize 必须显式提供 decision_subject.source_node_keys。")
        else ok (task_completion configured payload)
  ]

unfoldable pub human_task_handler : (Value → String) → Handler
human_task_handler show = record {
  capability_key = "human_task";
  node_type = task;
  interruptible = true;
  compensation = "terminate_work_item";
  declared_side_effects = "ensure_work_item" ∷ [];
  validate_definition = validate_task show;
  activate = activate_task;
  command = command_task show;
  cancel = cancel_task;
  retry = retry_task;
}
