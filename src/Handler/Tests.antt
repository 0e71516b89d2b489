-- ===== src/Handler/Tests.antt =====
-- The theorems on handlers at concrete nodes.
use filum_reforge.Base.{String, ◌≡◌, ◌≢◌, refl, ◌↔◌, ◌⊎◌, true, false, some, [], ◌∷◌}
use filum_reforge.Value.{
  Value, Fields, end, field, str, arr, cons, nil, get, truthy, texts_of, text_of,
}
use filum_reforge.Errors.{ok}
use filum_reforge.Handler.Defs.{
  approval, activated, assigned, suspended, business_approval, do_approve, CapabilityContext,
  CapabilityResult, Handler, semantic_named,
}
use filum_reforge.Handler.Policy.{evaluate_actor_overlap}
use filum_reforge.Handler.Policy.Correct.{MayDecide, evaluate_actor_overlap_iff}
use filum_reforge.Handler.HumanTask.{human_task_handler}
use filum_reforge.Handler.Notice.{notice_handler}
use filum_reforge.Handler.Approval.{
  approval_handler, command_approval, actor_of, is_supported, is_decision,
}
use filum_reforge.Handler.Outcomes.{
  command_approval_independent, handlers_consistent, GivesConsistent,
}

abbrev show : Value → String
show _ = ""

evaluate_actor_overlap_iff_example :
    ((evaluate_actor_overlap business_approval (some "ann") ("bob" ∷ []) ("ann" ∷ []) false).allowed
      ≡ true)
    ↔ MayDecide business_approval (some "ann") ("bob" ∷ []) ("ann" ∷ []) false
evaluate_actor_overlap_iff_example =
    evaluate_actor_overlap_iff business_approval (some "ann") ("bob" ∷ []) ("ann" ∷ []) false

abbrev context : CapabilityContext
context = record {
  node_type = approval;
  node_key = "sign";
  engine_state = activated;
  business_state = assigned;
  config = field "decision_semantic" (str "business_approval") end;
}

abbrev payload : Fields
payload = field "actor_user_id" (str "ann") (
    field "contributor_user_ids" (arr (cons (str "ann") nil))
      (field "decision_maker_user_ids" (arr (cons (str "ann") nil)) end))

command_approval_independent_example :
    (r : CapabilityResult) × (command_approval show context do_approve payload ≡ ok r)
    × ((r.engine_state ≢ suspended) ↔ (
        (truthy (get payload "legacy_management_override") ≡ true)
        ⊎ MayDecide business_approval
            (actor_of show (get payload "actor_user_id"))
            (texts_of show (get payload "contributor_user_ids"))
            (texts_of show (get payload "decision_maker_user_ids"))
            (truthy (get context.config "allow_contributor_cosign"))))
unfolding semantic_named text_of get is_supported is_decision
command_approval_independent_example =
    command_approval_independent show context do_approve payload business_approval refl refl refl

handlers_consistent_example :
    GivesConsistent (human_task_handler show)
    × GivesConsistent (approval_handler show)
    × GivesConsistent notice_handler
handlers_consistent_example = handlers_consistent show
