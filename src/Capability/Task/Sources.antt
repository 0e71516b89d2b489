-- ===== src/Capability/Task/Sources.antt =====
-- Where a task's capability comes from: what is written, the older profiles, and what the config of
-- a node or of a run implies.
use filum_reforge.Base.{String, Bool, true, false, Option, none, some, ◌==◌, if◌then◌else◌}
use filum_reforge.Value.{Value, bool, str, obj, Fields, end, field, get, is_true, or_value, text_of}
use filum_reforge.Text.{strip}
use filum_reforge.Capability.{legacy_kind}
use filum_reforge.Capability.Task.{TaskCapability, normalize_task_capability}

abbrev pub form_of : String → Fields
form_of variant = field "surface" (str "structured_form") (
    field "submit_mode" (str "form")
      (field "state_policy" (str "submission") (field "variant" (str variant) end)))

abbrev pub deliverable_of : String → Fields
deliverable_of variant = field "surface" (str "deliverable") (
    field "submit_mode" (str "file")
      (field "state_policy" (str "deliverable") (field "variant" (str variant) end)))

abbrev pub collection_fields : Fields
collection_fields = field "surface" (str "collection") (
    field "state_policy" (str "collection") (
      field "features"
        (obj (field "capture_progress" (bool true) (field "aggregate" (bool true) end))) end))

-- The table of `_legacy_profile_task_capability`.
unfoldable pub legacy_profile : String → Option Fields
legacy_profile profile =
    if profile == "video_batch_root"
    then some (
        field "surface" (str "run_overview") (
          field "state_policy" (str "run_active") (
            field "features"
              (obj (field "tracking" (bool true) (field "run_dashboard" (bool true) end)))
              (field "root_visibility" (str "overview") end))))
    else if profile == "video_production_root"
    then some (
        field "surface" (str "run_overview") (
          field "state_policy" (str "run_active")
            (field "root_visibility" (str "hidden_for_non_management") end)))
    else if profile == "video_n1_capture"
    then some (form_of "capture")
    else if profile == "video_capture_assign"
    then some (form_of "assignment")
    else if profile == "video_capture_schedule"
    then some (form_of "schedule")
    else if profile == "video_n2_aggregate"
    then some collection_fields
    else if profile == "video_production_step"
    then some (deliverable_of "single")
    else if profile == "video_production_multi"
    then some (deliverable_of "multi")
    else if profile == "video_production_platform"
    then some (deliverable_of "platform")
    else if profile == "graph_manual"
    then some (field "surface" (str "manual") (field "state_policy" (str "default") end))
    else none

unfoldable pub first_of {ℓ} : {A : Type ℓ} → Option A → Option A → Option A
first_of (some x) other = some x
first_of none other = other

unfoldable pub is_mapping : Value → Bool
is_mapping (obj fields) = true
is_mapping _ = false

module _ (show : Value → String) where
  unfoldable pub legacy_profile_task_capability : String → Option TaskCapability
  unfolding legacy_profile normalize_task_capability
  legacy_profile_task_capability profile = elim (legacy_profile profile) [
    | some fields ↦ normalize_task_capability show (obj fields)
    | none ↦ none
  ]

  -- The profile that `ui_profile` names.
  unfoldable pub profile_capability : Fields → Option TaskCapability
  unfolding get strip legacy_profile_task_capability
  profile_capability payload = elim (get payload "ui_profile") [
    | str s ↦ legacy_profile_task_capability (strip s)
    | _ ↦ none
  ]

  unfoldable pub policy_capability : String → Option TaskCapability
  unfolding normalize_task_capability
  policy_capability completion_policy =
      if completion_policy == "on_submit_deliverable"
      then normalize_task_capability show (
          obj (
            field "surface" (str "deliverable")
              (field "submit_mode" (str "file") (field "state_policy" (str "deliverable") end))))
      else if completion_policy == "on_review_approved"
      then normalize_task_capability show (
          obj (
            field "surface" (str "review")
              (field "submit_mode" (str "review") (field "state_policy" (str "review") end))))
      else none

  unfoldable pub schema_capability : Fields → Option TaskCapability
  unfolding get is_mapping normalize_task_capability policy_capability text_of or_value
  schema_capability payload =
      if is_mapping (get payload "aggregate_schema")
      then normalize_task_capability show (obj collection_fields)
      else if is_mapping (get payload "capture_schema")
      then normalize_task_capability show (
          obj (
            field "surface" (str "structured_form")
              (field "submit_mode" (str "form") (field "state_policy" (str "submission") end))))
      else policy_capability (text_of show (or_value (get payload "completion_policy") (str "")))

  unfoldable pub resolve_node_task_capability : Fields → Option TaskCapability
  unfolding first_of normalize_task_capability get profile_capability schema_capability
  resolve_node_task_capability payload =
      first_of (normalize_task_capability show (get payload "task_capability"))
        (first_of (profile_capability payload) (schema_capability payload))

  -- The older kinds of a run.
  unfoldable pub kind_capability : String → Option TaskCapability
  unfolding legacy_profile_task_capability
  kind_capability run_kind =
      if run_kind == "batch"
      then legacy_profile_task_capability "video_batch_root"
      else if run_kind == "production"
      then legacy_profile_task_capability "video_production_root"
      else none

  unfoldable pub resolve_root_task_capability : Fields → Option TaskCapability
  unfolding first_of normalize_task_capability get kind_capability legacy_kind
  resolve_root_task_capability payload =
      first_of (normalize_task_capability show (get payload "root_task_capability")) (
        first_of (kind_capability (legacy_kind payload)) (
          normalize_task_capability show (
            obj (
              field "surface" (str "run_overview") (field "state_policy" (str "run_active") end)))))

  unfoldable pub read_task_capability : Fields → Option TaskCapability
  unfolding first_of normalize_task_capability get profile_capability is_true
      resolve_root_task_capability
  read_task_capability payload =
      first_of (normalize_task_capability show (get payload "task_capability")) (
        first_of (profile_capability payload) (
          if is_true (get payload "workflow_graph_root_task")
          then resolve_root_task_capability payload
          else none))

  unfoldable pub resolve_task_root_visibility : Fields → String
  unfolding read_task_capability
  resolve_task_root_visibility metadata = elim (read_task_capability metadata) [
    | none ↦ "normal"
    | some c ↦ if c.root_visibility == "" then "normal" else c.root_visibility
  ]
