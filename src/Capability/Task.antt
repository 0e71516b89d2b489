-- ===== src/Capability/Task.antt =====
-- The task part of backend/app/services/workflow_template_capability_contract.py: what a task shows and
-- how its state is read.
pub mod Sources
pub mod Normal
use filum_reforge.Base.{
  String, Bool, true, false, Option, none, some, List, [], ◌∷◌, elem, ◌==◌, if◌then◌else◌,
}
use filum_reforge.Value.{
  is_true, Value, null, bool, num, pos, str, obj, Fields, end, field, field_of, get, or_value,
  object_of, optional,
}
use filum_reforge.Text.{strip}
use filum_reforge.Capability.{stripped_text}

abbrev pub task_surfaces : List String
task_surfaces =
    "run_overview" ∷ "structured_form" ∷ "collection" ∷ "deliverable" ∷ "review" ∷ "manual" ∷ []

abbrev pub submit_modes : List String
submit_modes = "form" ∷ "file" ∷ "form+file" ∷ "review" ∷ []

abbrev pub state_policies : List String
state_policies =
    "default" ∷ "run_active" ∷ "submission" ∷ "collection" ∷ "deliverable" ∷ "review" ∷ []

abbrev pub root_visibilities : List String
root_visibilities = "normal" ∷ "overview" ∷ "hidden_for_non_management" ∷ []

-- `{key: value is True for key, value in features.items()}`
unfoldable pub true_features : Fields → Fields
unfolding is_true
true_features end = end
true_features (field k v rest) = field k (bool (is_true v)) (true_features rest)

-- The value if it is one of the known ones.
unfoldable pub known_or : List String → String → String → String
unfolding elem
known_or known default s = if elem s known then s else default

unfoldable pub submit_mode_of : (Value → String) → Value → Option String
unfolding stripped_text elem
submit_mode_of show null = none
submit_mode_of show v =
    if elem (stripped_text show v) submit_modes then some (stripped_text show v) else none

unfoldable pub variant_of : Value → Option String
unfolding strip
variant_of (str s) = some (strip s)
variant_of _ = none

-- The dict of a capability, which a task's metadata keep.
pub record TaskCapability : Type 0 where
  pub surface : String
  pub submit_mode : Option String
  pub state_policy : String
  pub variant : Option String
  pub features : Fields
  pub root_visibility : String

unfoldable pub capability_fields : TaskCapability → Fields
unfolding optional
capability_fields c = field "schema_version" (num (pos 1)) (
    field "surface" (str c.surface) (
      field "submit_mode" (optional c.submit_mode) (
        field "state_policy" (str c.state_policy) (
          field "variant" (optional c.variant) (
            field "features" (obj c.features)
              (field "root_visibility" (str c.root_visibility) end))))))

-- The dict that `_normalize_task_capability` builds.
unfoldable pub normalized_of : (Value → String) → Fields → TaskCapability
unfolding get or_value stripped_text submit_mode_of known_or variant_of true_features object_of
normalized_of show payload = record {
  surface = stripped_text show (or_value (get payload "surface") (str ""));
  submit_mode = submit_mode_of show (get payload "submit_mode");
  state_policy =
      known_or state_policies "default"
        (stripped_text show (or_value (get payload "state_policy") (str "default")));
  variant = variant_of (get payload "variant");
  features = true_features (object_of (get payload "features"));
  root_visibility =
      known_or root_visibilities "normal"
        (stripped_text show (or_value (get payload "root_visibility") (str "normal")));
}

-- `_normalize_task_capability`
unfoldable pub normalize_task_capability : (Value → String) → Value → Option TaskCapability
unfolding object_of normalized_of elem
normalize_task_capability show raw =
    let c = normalized_of show (object_of raw) in
    if elem c.surface task_surfaces then some c else none
