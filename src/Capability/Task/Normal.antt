-- ===== src/Capability/Task/Normal.antt =====
-- What is kept of a task's capability is read back as it was kept.
use filum_reforge.Base.{
  All, Bool-cases, subst, sym, String, Bool, true, ◌||◌, none, some, List, [], ◌∷◌, elem, ◌≡◌, refl,
  arith, eq_iff, ◌==◌, ap, ◌∙◌, if◌then◌else◌, inl, inr,
}
use filum_reforge.Value.{
  object_of, field_of, Value, str, null, bool, obj, Fields, end, field, is_true, or_value, optional,
  get,
}
use filum_reforge.Text.{strip}
use filum_reforge.Text.Strip.{strip-strip}
use filum_reforge.Capability.{field_of, object_of, stripped_text}
use filum_reforge.Capability.Task.{
  normalized_of, task_surfaces, submit_modes, state_policies, root_visibilities, TaskCapability,
  normalize_task_capability, capability_fields, true_features, known_or, submit_mode_of, variant_of,
}

true_features-true_features : (fs : Fields) → true_features (true_features fs) ≡ true_features fs
unfolding true_features is_true
true_features-true_features end = refl
true_features-true_features (field k v rest) =
    ap (λ r. field k (bool (is_true v)) r) (true_features-true_features rest)

-- A property of each known name holds of a text that is one of them.
of_known :
    (P : String → Type 0) (known : List String) (s : String)
    → All P known
    → elem s known ≡ true
    → P s
unfolding elem
of_known P [] s h k = absurd (ground arith)
of_known P (x ∷ xs) s h k = elim (Bool-cases (x == s)) [
  | inl e ↦ subst P ((eq_iff x s).0 e) h.0
  | inr e ↦ of_known P xs s h.1 (ap (λ b. b || elem s xs) (sym e) ∙ k)
]

-- A name that is not empty and has no white space at its ends is read as it is.
abbrev Reads : (Value → String) → String → Type 0
Reads show s = (default : Value) → stripped_text show (or_value (str s) default) ≡ s

surfaces_read : (show : Value → String) → All (Reads show) task_surfaces
unfolding stripped_text or_value strip
surfaces_read show =
    (λ _. refl, (λ _. refl, (λ _. refl, (λ _. refl, (λ _. refl, (λ _. refl, tt))))))

policies_read : (show : Value → String) → All (Reads show) state_policies
unfolding stripped_text or_value strip
policies_read show =
    (λ _. refl, (λ _. refl, (λ _. refl, (λ _. refl, (λ _. refl, (λ _. refl, tt))))))

visibilities_read : (show : Value → String) → All (Reads show) root_visibilities
unfolding stripped_text or_value strip
visibilities_read show = (λ _. refl, (λ _. refl, (λ _. refl, tt)))

modes_read : (show : Value → String) → All (λ m. submit_mode_of show (str m) ≡ some m) submit_modes
unfolding submit_mode_of stripped_text strip elem
modes_read show = (refl, (refl, (refl, (refl, tt))))

-- A setting that falls back to a known name.
elem-known_or :
    (known : List String) (default s : String)
    → elem default known ≡ true
    → elem (known_or known default s) known ≡ true
unfolding known_or
elem-known_or known default s h = ground arith

known_or-known :
    (known : List String) (default s : String) → elem s known ≡ true → known_or known default s ≡ s
unfolding known_or
known_or-known known default s h = ground arith

keeps_known :
    (show : Value → String) (known : List String) (default s : String)
    → All (Reads show) known
    → elem s known ≡ true
    → known_or known default (stripped_text show (or_value (str s) (str default))) ≡ s
keeps_known show known default s reads h =
    ap (known_or known default) (of_known (Reads show) known s reads h (str default))
    ∙ known_or-known known default s h

keeps_variant : (v : Value) → variant_of (optional (variant_of v)) ≡ variant_of v
unfolding variant_of optional
keeps_variant (str s) = ap some (strip-strip s)
keeps_variant v = refl

is_known_policy : elem "default" state_policies ≡ true
unfolding elem
is_known_policy = refl

is_known_visibility : elem "normal" root_visibilities ≡ true
unfolding elem
is_known_visibility = refl

if_some {ℓ} :
    {A : Type ℓ} (b : Bool) (x y : A) → (if b then some x else none) ≡ some y → (b ≡ true) × (x ≡ y)
if_some b x y h = ground arith

mode_kept :
    (show : Value → String) (s : String)
    → submit_mode_of show (optional (if elem s submit_modes then some s else none))
      ≡ (if elem s submit_modes then some s else none)
unfolding submit_mode_of optional
mode_kept show s = elim (Bool-cases (elem s submit_modes)) [
  | inl e ↦
      subst
        (λ b.
          submit_mode_of show (optional (if b then some s else none))
          ≡ (if b then some s else none))
        (sym e)
        (of_known (λ m. submit_mode_of show (str m) ≡ some m) submit_modes s (modes_read show) e)
  | inr e ↦
      subst
        (λ b.
          submit_mode_of show (optional (if b then some s else none))
          ≡ (if b then some s else none))
        (sym e) refl
]

keeps_mode :
    (show : Value → String) (v : Value)
    → submit_mode_of show (optional (submit_mode_of show v)) ≡ submit_mode_of show v
unfolding submit_mode_of optional stripped_text
keeps_mode show null = refl
keeps_mode show v = mode_kept show (stripped_text show v)

-- A capability of which every part is as reading it gives it.
record IsNormal (show : Value → String) (c : TaskCapability) : Type 0 where
  surface : elem c.surface task_surfaces ≡ true
  submit_mode : submit_mode_of show (optional c.submit_mode) ≡ c.submit_mode
  state_policy : elem c.state_policy state_policies ≡ true
  variant : variant_of (optional c.variant) ≡ c.variant
  features : true_features c.features ≡ c.features
  root_visibility : elem c.root_visibility root_visibilities ≡ true

normalize_parts :
    (show : Value → String) (raw : Value) (c : TaskCapability)
    → normalize_task_capability show raw ≡ some c
    → (elem (normalized_of show (object_of raw)).surface task_surfaces ≡ true)
      × (normalized_of show (object_of raw) ≡ c)
unfolding normalize_task_capability
normalize_parts show raw c h =
    if_some (elem (normalized_of show (object_of raw)).surface task_surfaces)
      (normalized_of show (object_of raw)) c h

normalized_of-IsNormal :
    (show : Value → String) (payload : Fields)
    → elem (normalized_of show payload).surface task_surfaces ≡ true
    → IsNormal show (normalized_of show payload)
unfolding normalized_of
normalized_of-IsNormal show payload h = record {
  surface = h;
  submit_mode = keeps_mode show (get payload "submit_mode");
  state_policy =
      elem-known_or state_policies "default"
        (stripped_text show (or_value (get payload "state_policy") (str "default")))
        is_known_policy;
  variant = keeps_variant (get payload "variant");
  features = true_features-true_features (object_of (get payload "features"));
  root_visibility =
      elem-known_or root_visibilities "normal"
        (stripped_text show (or_value (get payload "root_visibility") (str "normal")))
        is_known_visibility;
}

-- The dict of a normal capability is read as that capability.
IsNormal-reads :
    (show : Value → String) (c : TaskCapability)
    → IsNormal show c
    → normalize_task_capability show (obj (capability_fields c)) ≡ some c
unfolding normalize_task_capability normalized_of capability_fields object_of get field_of
IsNormal-reads show c n =
    rw
      (
        of_known (Reads show) task_surfaces c.surface (surfaces_read show) n.surface (str ""),
        n.surface,
        n.submit_mode,
        keeps_known show state_policies "default" c.state_policy (policies_read show)
            n.state_policy,
        n.variant,
        n.features,
        keeps_known show root_visibilities "normal" c.root_visibility (visibilities_read show)
            n.root_visibility,
      )
      refl

-- A task's capability, as it is read from any value and kept in the metadata as a dict, is read back
-- from that dict as it was.
pub normalize-capability_fields :
    (show : Value → String) (raw : Value) (c : TaskCapability)
    → normalize_task_capability show raw ≡ some c
    → normalize_task_capability show (obj (capability_fields c)) ≡ some c
normalize-capability_fields show raw c h =
    let (known, same) = normalize_parts show raw c h in
    IsNormal-reads show c
      (subst (IsNormal show) same (normalized_of-IsNormal show (object_of raw) known))
