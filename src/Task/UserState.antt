-- ===== src/Task/UserState.antt =====
-- backend/app/services/task_user_facing_state.py: the state of a task as the task center shows it.
pub mod Meaning
use Prim.Native.String.{[] as empty_text, ◌∷◌ as text_cons}
use filum_reforge.Base.{
  String, Bool, true, false, not, ◌&&◌, ◌||◌, Option, none, some, ◌==◌, if◌then◌else◌,
}
use filum_reforge.Value.{Value, str, Fields, get, text_starts}
use filum_reforge.Text.{strip}
use filum_reforge.Handler.Defs.{
  BusinessState, assigned, accepted, rejected, pending_review, returned_for_rework,
}
use filum_reforge.Capability.Task.{TaskCapability}
use filum_reforge.Capability.Task.Sources.{read_task_capability}
use filum_reforge.Text.{or_text}
use filum_reforge.Task.Defs.{Task, TaskStatus, todo, doing, review, blocked, done, same_status}

-- What follows the last " / ", if there is one.
unfoldable pub after_last : String → Option String
unfolding text_starts
after_last empty_text = none
after_last (text_cons c s) =
    let rest = after_last s in
    elim rest [
      | some suffix ↦ some suffix
      | none ↦ if text_starts (text_cons c s) " / " then some (drop_three (text_cons c s)) else none
    ]
  where
    drop_three : String → String
    drop_three (text_cons a (text_cons b (text_cons d rest))) = rest
    drop_three short = short

-- The text without white space around it, if anything is left.
unfoldable pub filled : String → Option String
unfolding strip
filled s = if strip s == "" then none else some (strip s)

unfoldable pub or_next {ℓ} : {A : Type ℓ} → Option A → Option A → Option A
or_next (some x) other = some x
or_next none other = other

unfoldable pub resolve_task_run_label : String → Fields → Option String → Option String
unfolding or_next get filled after_last
resolve_task_run_label title metadata graph_run_label =
    or_next (elim (get metadata "run_label") [ str s ↦ filled s | _ ↦ none ])
      (or_next (elim graph_run_label [ some s ↦ filled s | none ↦ none ])
        (elim (after_last title) [ some s ↦ filled s | none ↦ none ]))

-- A text that passes the test.
unfoldable pub text_passes : (String → Bool) → Value → Bool
text_passes test (str s) = test s
text_passes test _ = false

-- `_has_rework_signal`
unfoldable pub has_rework_signal : Fields → Bool
unfolding get strip text_passes
has_rework_signal metadata =
    text_passes (λ s. s == "rejected" || s == "returned") (get metadata "latest_capture_state")
    || (text_passes (λ s. not (strip s == "")) (get metadata "latest_rework_reason")
        && not (text_passes (λ s. s == "assigned") (get metadata "latest_handshake_action")))

-- The states that the task center shows, texts in the code.
pub data TaskUserFacingState : Type 0 where
  shown_pending shown_in_progress shown_awaiting_confirm shown_completed shown_blocked
        shown_returned :
      TaskUserFacingState

unfoldable pub user_facing_value : TaskUserFacingState → String
user_facing_value shown_pending = "pending"
user_facing_value shown_in_progress = "in_progress"
user_facing_value shown_awaiting_confirm = "awaiting_confirm"
user_facing_value shown_completed = "completed"
user_facing_value shown_blocked = "blocked"
user_facing_value shown_returned = "returned"

unfoldable pub map_status_fallback : TaskStatus → TaskUserFacingState
map_status_fallback done = shown_completed
map_status_fallback blocked = shown_blocked
map_status_fallback review = shown_awaiting_confirm
map_status_fallback doing = shown_in_progress
map_status_fallback todo = shown_pending

-- The business state is known and says that the node was sent back.
unfoldable pub is_returned : Option BusinessState → Bool
is_returned (some returned_for_rework) = true
is_returned (some rejected) = true
is_returned _ = false

unfoldable pub is_pending_review : Option BusinessState → Bool
is_pending_review (some pending_review) = true
is_pending_review _ = false

unfoldable pub is_handed_over : Option BusinessState → Bool
is_handed_over (some assigned) = true
is_handed_over (some accepted) = true
is_handed_over _ = false

-- `capability.get("state_policy") or "default"` and `capability.get("surface") or ""`.
unfoldable pub state_policy_of : Option TaskCapability → String
state_policy_of none = "default"
state_policy_of (some c) = or_text c.state_policy "default"

unfoldable pub surface_of : Option TaskCapability → String
surface_of none = ""
surface_of (some c) = c.surface

-- The states that the policy of the capability gives by the status of the task; `none` where it leaves
-- them to the status alone.
unfoldable pub policy_state_by_status : String → TaskStatus → Option TaskUserFacingState
unfolding same_status
policy_state_by_status state_policy status =
    let is_delivery = state_policy == "deliverable" || state_policy == "review" in
    let is_open = same_status status todo || same_status status doing in
    if (state_policy == "submission" || state_policy == "collection") && is_open
    then some shown_pending
    else if state_policy == "collection" && same_status status review
    then some shown_pending
    else if state_policy == "submission" && same_status status review
    then some shown_completed
    else if is_delivery && same_status status review
    then some shown_awaiting_confirm
    else if is_delivery && is_open
    then some shown_pending
    else none

-- Before that, what it gives by the state of the node.
unfoldable pub policy_state :
    String → String → TaskStatus → Option BusinessState → Option TaskUserFacingState
unfolding is_pending_review is_handed_over policy_state_by_status
policy_state state_policy surface status business_state =
    if is_pending_review business_state
      && (state_policy == "deliverable" || state_policy == "review")
    then some shown_awaiting_confirm
    else if is_pending_review business_state && state_policy == "collection"
    then some shown_pending
    else if is_pending_review business_state && state_policy == "submission"
    then some shown_completed
    else if is_handed_over business_state && surface == "manual"
    then some shown_pending
    else if state_policy == "run_active"
    then some shown_in_progress
    else policy_state_by_status state_policy status

-- The order in which the signs are read: the node was sent back, the metadata say so, and what the
-- policy gives.
unfoldable pub state_by_signs :
    Bool → Bool → Option TaskUserFacingState → TaskStatus → TaskUserFacingState
unfolding same_status map_status_fallback
state_by_signs node_returned has_signal by_policy status =
    if same_status status blocked
    then shown_blocked
    else if node_returned && not (same_status status done)
    then shown_returned
    else if has_signal && not (same_status status done)
    then shown_returned
    else if same_status status done
    then shown_completed
    else elim by_policy [ some state ↦ state | none ↦ map_status_fallback status ]

unfoldable pub resolve_task_user_facing_state :
    (Value → String) → Task → TaskStatus → Option BusinessState → TaskUserFacingState
unfolding is_returned has_rework_signal read_task_capability state_policy_of surface_of policy_state
    state_by_signs
resolve_task_user_facing_state show task status business_state =
    let capability = read_task_capability show task.extra_metadata in
    state_by_signs (is_returned business_state) (has_rework_signal task.extra_metadata)
      (policy_state (state_policy_of capability) (surface_of capability) status business_state)
      status
