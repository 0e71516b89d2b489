-- ===== src/Capability.antt =====
-- backend/app/services/workflow_template_capability_contract.py: what a template can do, and what a task
-- of it shows, read from its config.
pub mod Task
pub mod Stored
pub mod Tests
use filum_reforge.Base.{
  String, Bool, true, false, not, ◌||◌, ◌&&◌, Option, none, some, List, [], ◌∷◌, elem, add, ◌==◌,
  if◌then◌else◌,
}
use filum_reforge.Value.{
  is_true, Value, null, bool, num, pos, str, obj, arr, Fields, end, field, field_of, get, Items,
  nil, cons, texts, truthy, or_value, text_of, object_of, value_eq,
}
use filum_reforge.Text.{strip, sorted}

abbrev pub known_capabilities : List String
known_capabilities =
    "structured_form_submission" ∷ "collection_finalize" ∷ "aggregate_confirmation"
    ∷ "child_run_dispatch" ∷ "deliverable_submission" ∷ "deliverable_acceptance"
    ∷ "return_for_rework" ∷ []

-- `_legacy_kind`
unfoldable pub legacy_kind : Fields → String
unfolding get strip
legacy_kind payload = elim (get payload "run_kind") [ str s ↦ strip s | _ ↦ "" ]

unfoldable pub legacy_root_ui_profile : Fields → Option String
unfolding legacy_kind get strip
legacy_root_ui_profile payload =
    let kind = legacy_kind payload in
    let fallback =
      if kind == "batch"
      then some "video_batch_root"
      else if kind == "production"
      then some "video_production_root"
      else none in
    elim (get payload "root_ui_profile") [
      | str s ↦ if strip s == "" then fallback else some (strip s)
      | _ ↦ fallback
    ]

unfoldable pub resolve_template_category : Fields → String → String
unfolding legacy_kind get strip
resolve_template_category payload fallback =
    let kind = legacy_kind payload in
    let otherwise = if kind == "" then fallback else kind in
    elim (get payload "category") [
      | str s ↦ if strip s == "" then otherwise else strip s
      | _ ↦ otherwise
    ]

pub record InstanceRuntimePolicy : Type 0 where
  pub notify_on_node_activation : Bool
  pub archive_on_completion : Bool
  pub archive_on_cancel : Bool

-- The dict that `_legacy_template_defaults` gives.
pub record TemplateDefaults : Type 0 where
  pub capabilities : List String
  pub runtime : InstanceRuntimePolicy
  pub instantiation_mode : String
  pub source : String

unfoldable pub legacy_template_defaults : Fields → TemplateDefaults
unfolding legacy_kind
legacy_template_defaults config =
    let kind = legacy_kind config in
    if kind == "batch"
    then record {
      capabilities =
          "structured_form_submission" ∷ "collection_finalize" ∷ "aggregate_confirmation"
          ∷ "child_run_dispatch" ∷ [];
      runtime = record {
        notify_on_node_activation = true;
        archive_on_completion = false;
        archive_on_cancel = false;
      };
      instantiation_mode = "direct";
      source = "legacy_run_kind";
    }
    else if kind == "production"
    then record {
      capabilities = "deliverable_submission" ∷ "deliverable_acceptance" ∷ "return_for_rework" ∷ [];
      runtime = record {
        notify_on_node_activation = true;
        archive_on_completion = true;
        archive_on_cancel = true;
      };
      instantiation_mode = "child_only";
      source = "legacy_run_kind";
    }
    else record {
      capabilities = [];
      runtime = record {
        notify_on_node_activation = false;
        archive_on_completion = false;
        archive_on_cancel = false;
      };
      instantiation_mode = "direct";
      source = "default";
    }

-- `bool(explicit.get(key, default))`
unfoldable pub flag : Fields → String → Bool → Bool
unfolding field_of truthy
flag explicit key default = elim (field_of key explicit) [ some v ↦ truthy v | none ↦ default ]

-- `str(v)` with its white space cut off.
unfoldable pub stripped_text : (Value → String) → Value → String
unfolding text_of strip
stripped_text show v = strip (text_of show v)

-- The known capabilities among the items, each once.
unfoldable pub known_among : (Value → String) → Items → List String
unfolding stripped_text elem add
known_among show nil = []
known_among show (cons item items) =
    let rest = known_among show items in
    let name = stripped_text show item in
    if elem name known_capabilities then add name rest else rest

-- The snapshot, a dict of these keys with `schema_version` 1.
pub record Snapshot : Type 0 where
  pub capabilities : List String
  pub runtime : InstanceRuntimePolicy
  pub instantiation_mode : String
  pub source : String

unfoldable pub mode_of : String → String
mode_of mode = if mode == "direct" || mode == "child_only" then mode else "direct"

unfoldable pub build_template_capability_snapshot : (Value → String) → Fields → Snapshot
unfolding legacy_template_defaults get known_among sorted texts object_of flag or_value
    stripped_text mode_of
build_template_capability_snapshot show config =
    let legacy = legacy_template_defaults config in
    let explicit = object_of (get config "runtime_policy") in
    let raw = get config "workflow_capabilities" in
    record {
      capabilities =
          sorted
            (known_among show (elim raw [ arr items ↦ items | _ ↦ texts legacy.capabilities ]));
      runtime = record {
        notify_on_node_activation =
            flag explicit "notify_on_node_activation" legacy.runtime.notify_on_node_activation;
        archive_on_completion =
            flag explicit "archive_on_completion" legacy.runtime.archive_on_completion;
        archive_on_cancel = flag explicit "archive_on_cancel" legacy.runtime.archive_on_cancel;
      };
      instantiation_mode = mode_of (
          stripped_text show
            (or_value (get config "instantiation_mode") (str legacy.instantiation_mode)));
      source = elim raw [ arr items ↦ "explicit" | _ ↦ legacy.source ];
    }

-- The snapshot as it is stored in the context of a run.
unfoldable pub snapshot_fields : Snapshot → Fields
unfolding texts
snapshot_fields snapshot = field "schema_version" (num (pos 1)) (
    field "capabilities" (arr (texts snapshot.capabilities)) (
      field "runtime"
        (obj (
          field "notify_on_node_activation" (bool snapshot.runtime.notify_on_node_activation) (
            field "archive_on_completion" (bool snapshot.runtime.archive_on_completion)
              (field "archive_on_cancel" (bool snapshot.runtime.archive_on_cancel) end))))
        (field "instantiation_mode" (str snapshot.instantiation_mode)
          (field "source" (str snapshot.source) end))))

-- What a snapshot is told by: an object whose `schema_version` equals 1.
unfoldable pub stored_snapshot : Value → Option Fields
unfolding get value_eq
stored_snapshot (obj fields) =
    if value_eq (get fields "schema_version") (num (pos 1)) then some fields else none
stored_snapshot _ = none

unfoldable pub read_instance_capability_snapshot : (Value → String) → Fields → Fields
unfolding stored_snapshot get snapshot_fields build_template_capability_snapshot
read_instance_capability_snapshot show context =
    elim (stored_snapshot (get context "capability_snapshot")) [
      | some fields ↦ fields
      | none ↦ snapshot_fields (build_template_capability_snapshot show context)
    ]

unfoldable pub resolve_instance_runtime_policy : (Value → String) → Fields → InstanceRuntimePolicy
unfolding read_instance_capability_snapshot object_of get is_true
resolve_instance_runtime_policy show context =
    let runtime = object_of (get (read_instance_capability_snapshot show context) "runtime") in
    record {
      notify_on_node_activation = is_true (get runtime "notify_on_node_activation");
      archive_on_completion = is_true (get runtime "archive_on_completion");
      archive_on_cancel = is_true (get runtime "archive_on_cancel");
    }

-- `capability in set(items)`
unfoldable pub holds_text : String → Value → Bool
unfolding value_eq
holds_text capability (arr nil) = false
holds_text capability (arr (cons v vs)) =
    value_eq v (str capability) || holds_text capability (arr vs)
holds_text capability _ = false

unfoldable pub instance_supports_capability : (Value → String) → Fields → String → Bool
unfolding read_instance_capability_snapshot holds_text get
instance_supports_capability show context capability =
    holds_text capability (get (read_instance_capability_snapshot show context) "capabilities")

unfoldable pub resolve_template_instantiation_mode : (Value → String) → Fields → String
unfolding build_template_capability_snapshot
resolve_template_instantiation_mode show config =
    let mode = (build_template_capability_snapshot show config).instantiation_mode in
    if mode == "" then "direct" else mode
