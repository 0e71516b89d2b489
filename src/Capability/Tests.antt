-- ===== src/Capability/Tests.antt =====
-- A capability with white space around its words, and a snapshot kept in a context.
use filum_reforge.Base.{String, true, false, some, [], ◌∷◌, ◌≡◌, refl, elem}
use filum_reforge.Value.{Value, str, obj, bool, Fields, end, field}
use filum_reforge.Capability.{
  Snapshot, resolve_instance_runtime_policy, instance_supports_capability,
}
use filum_reforge.Capability.Task.{TaskCapability, normalize_task_capability, capability_fields}
use filum_reforge.Capability.Task.Normal.{normalize-capability_fields}
use filum_reforge.Capability.Stored.{kept, capability_snapshot-kept}

abbrev show : Value → String
show v = "?"

abbrev raw : Value
raw = obj (
    field "surface" (str " deliverable ") (
      field "submit_mode" (str "file") (
        field "variant" (str " multi ") (
          field "features" (obj (field "tracking" (bool true) (field "odd" (str "yes") end)))
            end))))

abbrev capability : TaskCapability
capability = record {
  surface = "deliverable";
  submit_mode = some "file";
  state_policy = "default";
  variant = some "multi";
  features = field "tracking" (bool true) (field "odd" (bool false) end);
  root_visibility = "normal";
}

raw_read : normalize_task_capability show raw ≡ some capability
unfolding normalize_task_capability
raw_read = refl

normalize-capability_fields_example :
    normalize_task_capability show (obj (capability_fields capability)) ≡ some capability
normalize-capability_fields_example = normalize-capability_fields show raw capability raw_read

abbrev snapshot : Snapshot
snapshot = record {
  capabilities = "aggregate_confirmation" ∷ [];
  runtime = record {
    notify_on_node_activation = true;
    archive_on_completion = false;
    archive_on_cancel = false;
  };
  instantiation_mode = "direct";
  source = "explicit";
}

-- The rest of the context would say something else.
abbrev context : Fields
context = field "run_kind" (str "production") end

capability_snapshot-kept_example :
    (resolve_instance_runtime_policy show (kept show snapshot context) ≡ snapshot.runtime)
    × ((capability : String)
        → instance_supports_capability show (kept show snapshot context) capability
          ≡ elem capability snapshot.capabilities)
capability_snapshot-kept_example = capability_snapshot-kept show snapshot context
