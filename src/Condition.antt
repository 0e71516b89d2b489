-- ===== src/Condition.antt =====
-- Conditions on workflow edges and routing rules (backend/app/services/condition_evaluator.py).
-- A condition and a context are JSON objects. A sub-condition is evaluated where it stands in its
-- object, so the recursion is structural and needs no fuel.
pub mod Holds
pub mod Routing
pub mod Operators
pub mod Choose
pub mod Rules
mod Tests
use Prim.Native.Char.{code}
use Prim.Native.String.{[] as empty_text, ◌∷◌ as text_cons}
use filum_reforge.Base.{
  ℕ, ◌+◌, String, Bool, true, false, not, ◌&&◌, ◌||◌, Option, none, some, List, [], ◌∷◌, leb,
  nat_eq, if◌then◌else◌, ◌==◌, elem, add,
}
use filum_reforge.Text.{lower_is}
use filum_reforge.Value.{
  is_true, Value, null, bool, num, str, arr, obj, Items, nil, cons, Fields, end, field, field_of,
  get, value_eq, value_order, Order, gt, gte, lt, lte, truthy, value_in, text_in,
}

-- `v == "text"`
unfoldable pub is_text : String → Value → Bool
is_text t (str s) = s == t
is_text t _ = false

unfoldable pub is_else_condition : Fields → Bool
unfolding is_true is_text get
is_else_condition condition =
    is_true (get condition "else") || is_text "else" (get condition "type")

-- `path.split(".")`: the part read so far in front.
unfoldable pub split_path : String → List String
split_path empty_text = "" ∷ []
split_path (text_cons c s) =
    let parts = split_path s in
    if nat_eq (code c) b'.'
    then "" ∷ parts
    else elim parts [ [] ↦ text_cons c empty_text ∷ [] | p ∷ ps ↦ text_cons c p ∷ ps ]

-- The loop of `_resolve_context_value`.
unfoldable pub walk_path : Value → List String → Value
unfolding field_of
walk_path value [] = value
walk_path (obj fs) (part ∷ parts) = elim (field_of part fs) [
  | some v ↦ walk_path v parts
  | none ↦ null
]
walk_path _ (part ∷ parts) = null

unfoldable pub resolve_context_value : Fields → String → Value
unfolding walk_path split_path
resolve_context_value context field_path = walk_path (obj context) (split_path field_path)

-- A `TypeError` counts as false.
unfoldable pub safe_compare : Order → Value → Value → Bool
unfolding value_order
safe_compare op actual expected = elim (value_order op actual expected) [
  | some b ↦ b
  | none ↦ false
]

pub data Operator : Type 0 where
  eq neq greater greater_eq less less_eq in_list not_in contains exists unknown : Operator

unfoldable pub operator_named : String → Operator
unfolding lower_is
operator_named s =
    if lower_is s "eq"
    then eq
    else if lower_is s "neq"
    then neq
    else if lower_is s "gt"
    then greater
    else if lower_is s "gte"
    then greater_eq
    else if lower_is s "lt"
    then less
    else if lower_is s "lte"
    then less_eq
    else if lower_is s "in"
    then in_list
    else if lower_is s "not_in"
    then not_in
    else if lower_is s "contains"
    then contains
    else if lower_is s "exists"
    then exists
    else unknown

-- `str(condition.get("operator") or "eq").lower()`. The text of a value that is no text is never
-- the name of an operator.
unfoldable pub operator_of : Value → Operator
unfolding truthy operator_named
operator_of (str s) = if s == "" then eq else operator_named s
operator_of v = if truthy v then unknown else eq

unfoldable pub contains_test : Value → Value → Bool
unfolding value_in text_in
contains_test (arr xs) expected = value_in expected xs
contains_test (str s) (str t) = text_in t s
contains_test _ _ = false

unfoldable pub in_test : Value → Value → Bool
unfolding value_in
in_test actual (arr xs) = value_in actual xs
in_test actual _ = false

unfoldable pub not_in_test : Value → Value → Bool
unfolding value_in
not_in_test actual (arr xs) = not (value_in actual xs)
not_in_test actual _ = false

unfoldable pub exists_test : Value → Bool
exists_test null = false
exists_test _ = true

unfoldable pub apply_operator : Operator → Value → Value → Bool
unfolding value_eq safe_compare in_test not_in_test contains_test exists_test
apply_operator eq actual expected = value_eq actual expected
apply_operator neq actual expected = not (value_eq actual expected)
apply_operator greater actual expected = safe_compare gt actual expected
apply_operator greater_eq actual expected = safe_compare gte actual expected
apply_operator less actual expected = safe_compare lt actual expected
apply_operator less_eq actual expected = safe_compare lte actual expected
apply_operator in_list actual expected = in_test actual expected
apply_operator not_in actual expected = not_in_test actual expected
apply_operator contains actual expected = contains_test actual expected
apply_operator exists actual expected = exists_test actual
apply_operator unknown actual expected = false

unfoldable pub test_field : Fields → Fields → Value → Bool
unfolding resolve_context_value apply_operator operator_of get
test_field context condition (str name) =
    if name == ""
    then false
    else apply_operator (operator_of (get condition "operator"))
        (resolve_context_value context name) (get condition "value")
test_field context condition _ = false

-- A condition with neither list: the part of `evaluate_condition` after the composite cases.
unfoldable pub evaluate_leaf : Fields → Fields → Bool
unfolding test_field get
evaluate_leaf context condition = test_field context condition (get condition "field")

-- `evaluate_condition`, given what its "all" list and its "any" list come to (`none`: no such list).
unfoldable pub choose : Fields → Fields → Option Bool → Option Bool → Bool
unfolding evaluate_leaf
choose context end of_all of_any = true
choose context condition (some b) of_any = b
choose context condition none (some b) = b
choose context condition none none = evaluate_leaf context condition

module _ (context : Fields) where
  unfoldable mutual
    unfolding choose

    -- The "all" entry of a condition, evaluated, where it is a list.
    pub all_entry : Fields → Option Bool
    all_entry end = none
    all_entry (field k v fs) = elim (k == "all") [ true ↦ all_list v | false ↦ all_entry fs ]

    pub any_entry : Fields → Option Bool
    any_entry end = none
    any_entry (field k v fs) = elim (k == "any") [ true ↦ any_list v | false ↦ any_entry fs ]

    pub all_list : Value → Option Bool
    all_list (arr xs) = some (all_items xs)
    all_list _ = none

    pub any_list : Value → Option Bool
    any_list (arr xs) = some (any_items xs)
    any_list _ = none

    -- Entries that are no objects are left out.
    pub all_items : Items → Bool
    all_items nil = true
    all_items (cons (obj fs) xs) = choose context fs (all_entry fs) (any_entry fs) && all_items xs
    all_items (cons _ xs) = all_items xs

    pub any_items : Items → Bool
    any_items nil = false
    any_items (cons (obj fs) xs) = choose context fs (all_entry fs) (any_entry fs) || any_items xs
    any_items (cons _ xs) = any_items xs

-- The arguments in the source's order.
unfoldable pub evaluate_condition : Fields → Fields → Bool
unfolding choose all_entry
evaluate_condition condition context =
    choose context condition (all_entry context condition) (any_entry context condition)
