-- ===== src/Handler/Policy.antt =====
-- `evaluate_actor_overlap` (backend/app/services/workflow_decision_policy.py): who may decide on a
-- subject that they contributed to.
pub mod Correct
use filum_reforge.Base.{
  ℕ, String, Bool, true, false, not, ◌&&◌, Option, none, some, List, [], ◌∷◌, elem, minus, length,
  if◌then◌else◌,
}
use filum_reforge.Value.{
  Fields, Value, end, field, str, arr, texts, num, pos, bool, set_field, null, optional,
}
use filum_reforge.Handler.Defs.{
  Semantic, work_item_complete, collection_finalize, deliverable_acceptance, business_approval,
  cosign, semantic_value,
}

pub record PolicyResult : Type 0 where
  pub allowed : Bool
  pub code : String
  pub diagnostics : Fields

-- `list(dict.fromkeys(keys))`: the first of each, without those that are in `seen`.
unfoldable pub from_keys : List String → List String → List String
from_keys seen [] = []
from_keys seen (k ∷ ks) =
    let skip = from_keys seen ks in
    let keep = k ∷ from_keys (k ∷ seen) ks in if elem k seen then skip else keep

unfoldable pub actor_in : Option String → List String → Bool
actor_in none users = false
actor_in (some user) users = elem user users

unfoldable pub is_empty : List String → Bool
is_empty [] = true
is_empty (x ∷ xs) = false

-- The answer for an actor who is a decision maker. `others` says whether a decision maker is no
-- contributor.
unfoldable pub judge_overlap : Semantic → Bool → Bool → Bool → Bool × String
judge_overlap deliverable_acceptance contributed others allow_contributor_cosign =
    if contributed && not others
    then (false, "submitter_cannot_be_only_acceptor")
    else (true, "deliverable_acceptance_allowed")
judge_overlap business_approval contributed others allow_contributor_cosign =
    if contributed
    then (false, "contributor_cannot_approve_business_subject")
    else (true, "business_approval_allowed")
judge_overlap cosign contributed others allow_contributor_cosign =
    if contributed && not allow_contributor_cosign
    then (false, "contributor_cosign_not_enabled")
    else if contributed && not others
    then (false, "contributor_cannot_be_only_cosign_decider")
    else (true, "cosign_allowed")
judge_overlap work_item_complete contributed others allow_contributor_cosign =
    (true, "overlap_not_restricted")
judge_overlap collection_finalize contributed others allow_contributor_cosign =
    (true, "overlap_not_restricted")

unfoldable pub judge_actor :
    Semantic → Option String → List String → List String → Bool → Bool × String
judge_actor semantic none contributors decision_makers allow = (false, "missing_actor")
judge_actor semantic (some actor) contributors decision_makers allow =
    if is_empty decision_makers
    then (false, "no_eligible_decision_maker")
    else if not (elem actor decision_makers)
    then (false, "actor_not_decision_maker")
    else judge_overlap semantic (elem actor contributors)
        (not (is_empty (minus decision_makers contributors))) allow

unfoldable pub evaluate_actor_overlap :
    Semantic → Option String → List String → List String → Bool → PolicyResult
evaluate_actor_overlap semantic actor contributor_user_ids decision_maker_user_ids allow =
    let contributors = from_keys [] contributor_user_ids in
    let decision_makers = from_keys [] decision_maker_user_ids in
    let (allowed, code) = judge_actor semantic actor contributors decision_makers allow in
    record {
      allowed = allowed;
      code = code;
      diagnostics = field "decision_semantic" (str (semantic_value semantic)) (
          field "actor_user_id" (optional actor) (
            field "contributor_user_ids" (arr (texts contributors)) (
              field "decision_maker_user_ids" (arr (texts decision_makers)) (
                field "actor_is_contributor" (bool (actor_in actor contributors)) (
                  field "non_contributor_decision_maker_count"
                    (num (pos (length (minus decision_makers contributors))))
                    (field "policy_code" (str code) end))))));
    }
