-- ===== src/Chain/Trigger.antt =====
-- `maybe_trigger_template_chain`: a run that completes starts the next template, once.
pub mod Once
use filum_reforge.Base.{
  ℕ, String, Bool, true, false, not, ◌||◌, ◌&&◌, Option, none, some, List, [], ◌∷◌, ltb, ◌==◌,
  if◌then◌else◌, ◌≡◌, refl, ◌≢◌, arith, eq_iff, ◌∙◌, ap, ◌↔◌,
}
use filum_reforge.Value.{
  Value, bool, str, obj, arr, Fields, end, field, get, set_field, truthy, Items, nil, cons,
  value_in, value_eq,
}
use filum_reforge.Value.Lookup.{get-set_field}
use filum_reforge.Errors.{Failure, Result, ok, raise, ◌>>=◌}
use filum_reforge.Chain.{
  Validate, ChainTemplate, OnComplete, source_code, parse_on_complete_config, is_chain_target,
}

-- `list(context.get(key) or [])`, where a list is expected.
unfoldable pub ancestor_codes : Fields → Items
unfolding get
ancestor_codes context = elim (get context "template_chain_ancestor_codes") [
  | arr items ↦ items
  | _ ↦ nil
]

unfoldable pub append_item : Items → Value → Items
append_item nil v = cons v nil
append_item (cons w rest) v = cons w (append_item rest v)

-- The parent's code is added once.
unfoldable pub with_parent : String → Items → Items
unfolding value_in append_item
with_parent code items = if value_in (str code) items then items else append_item items (str code)

-- `_build_chained_context`
unfoldable pub build_chained_context : String → Fields → String → OnComplete → Fields
unfolding ancestor_codes with_parent get
build_chained_context parent_id parent_context parent_code on_complete =
    let inputs = elim (get parent_context "inputs") as (λ _. Fields) [
      | obj fields ↦ field "inputs" (obj fields) end
      | _ ↦ end
    ] in
    field "template_chain_ancestor_codes"
      (arr (with_parent parent_code (ancestor_codes parent_context)))
      (field "chained_from_instance_id" (str parent_id) (
        field "chained_from_template_code" (str parent_code)
          (if on_complete.carry_inputs then inputs else end)))

-- The active template of the code with the highest version; the first of them in the table.
unfoldable pub resolve_next_active_template : List ChainTemplate → String → Option ChainTemplate
unfolding is_chain_target
resolve_next_active_template [] code = none
resolve_next_active_template (template ∷ rest) code =
    let later = resolve_next_active_template rest code in
    let better = elim later as (λ _. Option ChainTemplate) [
      | none ↦ some template
      | some other ↦ if ltb template.version other.version then some other else some template
    ] in
    if is_chain_target code template then better else later

-- The run that completed: its template, as its definition snapshot or the table gives it, and whether the
-- account that started it is still there.
pub record CompletedRun : Type 0 where
  pub id : String
  pub template : Option ChainTemplate
  pub context : Fields
  pub has_initiator : Bool

-- What is started.
pub record ChainStart : Type 0 where
  pub template : ChainTemplate
  pub context : Fields

unfoldable pub marked : String → Fields → Fields
unfolding set_field
marked code context =
    set_field "chained_to_template_code" (str code)
      (set_field "on_complete_triggered" (bool true) context)

-- The chain comes back to a template that it went through.
unfoldable pub is_ancestor : String → String → Fields → Bool
unfolding value_in ancestor_codes
is_ancestor next parent_code context =
    value_in (str next) (ancestor_codes context) || next == parent_code

unfoldable pub start_next :
    List ChainTemplate
    → CompletedRun
    → ChainTemplate
    → OnComplete
    → CompletedRun × Option ChainStart
unfolding source_code is_ancestor resolve_next_active_template build_chained_context marked get
    truthy
start_next templates run parent on_complete =
    let next = on_complete.next_template_code in
    let code = source_code parent in
    let start =
      elim (resolve_next_active_template templates next)
        as (λ _. CompletedRun × Option ChainStart) [
          | none ↦ (run, none)
          | some template ↦
              if run.has_initiator
              then (
                record run { context = marked next run.context },
                some (record {
                  template = template;
                  context = build_chained_context run.id run.context code on_complete;
                }),
              )
              else (run, none)
        ] in
    if truthy (get run.context "on_complete_triggered") || is_ancestor next code run.context
    then (run, none)
    else start

-- `maybe_trigger_template_chain`, up to the creation of the new run from what it gives.
unfoldable pub maybe_trigger_template_chain :
    Validate → List ChainTemplate → CompletedRun → CompletedRun × Option ChainStart
unfolding parse_on_complete_config start_next
maybe_trigger_template_chain validate templates run = elim run.template [
  | none ↦ (run, none)
  | some parent ↦ elim (parse_on_complete_config validate parent.config) [
    | none ↦ (run, none)
    | some on_complete ↦ start_next templates run parent on_complete
  ]
]
