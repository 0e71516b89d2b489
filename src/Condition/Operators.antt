-- ===== src/Condition/Operators.antt =====
-- The comparison operators of a condition, and how they relate
-- (backend/app/services/condition_evaluator.py).
use filum_reforge.Base.{
  ◌≡◌, refl, ◌⊎◌, inl, inr, Bool, true, false, not, Option, none, some, arith, Option-cases,
}
use filum_reforge.Value.{
  Value, bool, num, str, arr, Items, nil, cons, Order, gt, gte, lt, lte, value_order, items_order,
  order_test,
}
use filum_reforge.Condition.{apply_operator, greater, greater_eq, less, less_eq}

-- The opposite order test.
abbrev pub opposite : Order → Order
opposite gt = lte
opposite gte = lt
opposite lt = gte
opposite lte = gt

abbrev negated : Option Bool → Option Bool
negated none = none
negated (some b) = some (not b)

order_test-opposite :
    (op : Order) (l m : Bool) → order_test (opposite op) l m ≡ not (order_test op l m)
unfolding order_test
order_test-opposite gt l m = ground arith
order_test-opposite gte l m = ground arith
order_test-opposite lt l m = ground arith
order_test-opposite lte l m = ground arith

mutual
  unfolding value_order

  value_order-opposite :
      (op : Order) (a b : Value) → value_order (opposite op) a b ≡ negated (value_order op a b)
  value_order-opposite op (bool a) (bool b) = rw order_test-opposite
  value_order-opposite op (bool a) (num b) = rw order_test-opposite
  value_order-opposite op (num a) (bool b) = rw order_test-opposite
  value_order-opposite op (num a) (num b) = rw order_test-opposite
  value_order-opposite op (str a) (str b) = rw order_test-opposite
  value_order-opposite op (arr xs) (arr ys) = items_order-opposite op xs ys
  value_order-opposite op _ _ = refl

  items_order-opposite :
      (op : Order) (xs ys : Items)
      → items_order (opposite op) xs ys ≡ negated (items_order op xs ys)
  items_order-opposite op nil nil = rw order_test-opposite
  items_order-opposite op nil (cons y ys) = rw order_test-opposite
  items_order-opposite op (cons x xs) nil = rw order_test-opposite
  items_order-opposite op (cons x xs) (cons y ys) =
      ground (arith, items_order-opposite op xs ys, value_order-opposite op x y)

abbrev is_defined : Option Bool → Bool
is_defined none = false
is_defined (some b) = true

-- Whether a comparison raises does not depend on its operator.
mutual
  unfolding value_order

  value_order-defined :
      (o p : Order) (a b : Value) → is_defined (value_order o a b) ≡ is_defined (value_order p a b)
  value_order-defined o p (arr xs) (arr ys) = items_order-defined o p xs ys
  value_order-defined o p (bool a) (bool b) = refl
  value_order-defined o p (bool a) (num b) = refl
  value_order-defined o p (num a) (bool b) = refl
  value_order-defined o p (num a) (num b) = refl
  value_order-defined o p (str a) (str b) = refl
  value_order-defined o p _ _ = refl

  items_order-defined :
      (o p : Order) (xs ys : Items)
      → is_defined (items_order o xs ys) ≡ is_defined (items_order p xs ys)
  items_order-defined o p nil nil = refl
  items_order-defined o p nil (cons y ys) = refl
  items_order-defined o p (cons x xs) nil = refl
  items_order-defined o p (cons x xs) (cons y ys) =
      ground (arith, items_order-defined o p xs ys, value_order-defined o p x y)

-- The four order operators on two values: either Python cannot order them, and all four are false,
-- or it can, and "gt" is the negation of "lte" and "gte" that of "lt".
pub apply_operator-order :
    (a b : Value)
    → (((o : Order) → value_order o a b ≡ none)
        × (apply_operator greater a b ≡ false)
        × (apply_operator greater_eq a b ≡ false)
        × (apply_operator less a b ≡ false)
        × (apply_operator less_eq a b ≡ false))
      ⊎ ((apply_operator greater a b ≡ not (apply_operator less_eq a b))
          × (apply_operator greater_eq a b ≡ not (apply_operator less a b)))
unfolding apply_operator
apply_operator-order a b = elim (Option-cases (value_order gt a b)) [
  | inl e ↦ inl (
    λ o. ground (arith, value_order-defined o gt a b),
    ground arith,
    ground (arith, value_order-defined gte gt a b),
    ground (arith, value_order-defined lt gt a b),
    ground (arith, value_order-defined lte gt a b),
  )
  | inr (r, e) ↦ inr (
    ground (arith, value_order-opposite gt a b),
    ground (arith, value_order-opposite gte a b, value_order-defined gte gt a b),
  )
]
