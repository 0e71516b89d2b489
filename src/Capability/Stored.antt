-- ===== src/Capability/Stored.antt =====
-- A run goes by the snapshot that is kept in its context.
use filum_reforge.Base.{arith, String, true, ◌≡◌, refl, ap, ◌||◌, List, [], ◌∷◌, elem, ◌==◌}
use filum_reforge.Value.{
  num, pos, Value, obj, arr, Fields, get, set_field, texts, value_eq, object_of, field_of, is_true,
}
use filum_reforge.Value.Lookup.{get-set_field}
use filum_reforge.Capability.{
  Snapshot, snapshot_fields, stored_snapshot, read_instance_capability_snapshot, holds_text,
  resolve_instance_runtime_policy, instance_supports_capability,
}

holds_text-texts :
    (capability : String) (xs : List String)
    → holds_text capability (arr (texts xs)) ≡ elem capability xs
unfolding holds_text texts value_eq elem
holds_text-texts capability [] = refl
holds_text-texts capability (x ∷ xs) =
    ap (λ b. x == capability || b) (holds_text-texts capability xs)

read_stored :
    (show : Value → String) (context fields : Fields)
    → get context "capability_snapshot" ≡ obj fields
    → value_eq (get fields "schema_version") (num (pos 1)) ≡ true
    → read_instance_capability_snapshot show context ≡ fields
unfolding read_instance_capability_snapshot stored_snapshot
read_stored show context fields h e = ground (arith, h, e)

module _ (show : Value → String) (snapshot : Snapshot) (context : Fields) where
  -- The context of a run in which the snapshot is kept.
  abbrev pub kept : Fields
  kept = set_field "capability_snapshot" (obj (snapshot_fields snapshot)) context

  read_kept : read_instance_capability_snapshot show kept ≡ snapshot_fields snapshot
  unfolding snapshot_fields get field_of value_eq
  read_kept =
      read_stored show kept (snapshot_fields snapshot)
        (get-set_field "capability_snapshot" "capability_snapshot" (obj (snapshot_fields snapshot))
          context)
        refl

  -- A run whose context keeps a snapshot has the policy of the snapshot and the capabilities of the
  -- snapshot and no others, whatever else its context holds.
  pub capability_snapshot-kept :
      (resolve_instance_runtime_policy show kept ≡ snapshot.runtime)
      × ((capability : String)
          → instance_supports_capability show kept capability
            ≡ elem capability snapshot.capabilities)
  unfolding resolve_instance_runtime_policy instance_supports_capability snapshot_fields get
      field_of object_of is_true
  capability_snapshot-kept = (
    rw read_kept refl,
    λ capability. rw read_kept (holds_text-texts capability snapshot.capabilities),
  )
