-- ===== src/Condition/Tests.antt =====
-- Runs of conditions and routing rules, and their theorems at concrete inputs.
use filum_reforge.Base.{
  String, ◌≡◌, ◌↔◌, ◌⊎◌, refl, true, false, not, some, none, List, [], ◌∷◌, elem, Any,
}
use filum_reforge.Value.{
  Value, Fields, end, field, null, str, bool, num, obj, arr, nil, cons, pos, value_order, Order,
}
use filum_reforge.Condition.{
  evaluate_condition, apply_operator, greater, greater_eq, less, less_eq, is_else_condition,
}
use filum_reforge.Condition.Rules.{evaluate_routing_rules}
use filum_reforge.Condition.Holds.{Holds}
use filum_reforge.Condition.Operators.{apply_operator-order}
use filum_reforge.Condition.Routing.{IsMatched, IsElse, SomeMatch, evaluate_routing_rules-selects}

abbrev context : Fields
context = field "amount" (num (pos 12000)) (field "owner" (obj (field "role" (str "hr") end)) end)

abbrev test : String → String → Value → Fields
test name op value = field "field" (str name) (field "operator" (str op) (field "value" value end))

abbrev large : Fields
large = test "amount" "GT" (num (pos 10000))

abbrev both : Fields
both =
    field "all"
      (arr (
        cons (obj large)
          (cons null (cons (obj (test "owner.role" "in" (arr (cons (str "hr") nil)))) nil))))
      end

evaluates :
    (evaluate_condition both context ≡ true)
    × (evaluate_condition (test "amount" "gt" (str "x")) context ≡ false)
unfolding evaluate_condition
evaluates = (refl, refl)

abbrev rules : List Value
rules =
    obj (
      field "condition" (obj (test "amount" "lt" (num (pos 5))))
        (field "target_step_key" (str "small") end))
    ∷ obj (field "else" (bool true) (field "target_step_key" (str "other") end))
    ∷ []

routes : evaluate_routing_rules rules context ≡ some ("other" ∷ [])
unfolding evaluate_routing_rules evaluate_condition elem is_else_condition
routes = refl

selects_example : (elem "other" ("other" ∷ []) ≡ true) ↔ (
    Any (IsMatched context "other") rules
    ⊎ (¬ SomeMatch context rules) × Any (IsElse context "other") rules)
selects_example = evaluate_routing_rules-selects rules context ("other" ∷ []) "other" routes

order_example :
    (((o : Order) → value_order o (num (pos 3)) (str "x") ≡ none)
      × (apply_operator greater (num (pos 3)) (str "x") ≡ false)
      × (apply_operator greater_eq (num (pos 3)) (str "x") ≡ false)
      × (apply_operator less (num (pos 3)) (str "x") ≡ false)
      × (apply_operator less_eq (num (pos 3)) (str "x") ≡ false))
    ⊎ ((apply_operator greater (num (pos 3)) (str "x")
          ≡ not (apply_operator less_eq (num (pos 3)) (str "x")))
        × (apply_operator greater_eq (num (pos 3)) (str "x")
            ≡ not (apply_operator less (num (pos 3)) (str "x"))))
order_example = apply_operator-order (num (pos 3)) (str "x")
