-- ===== src/Value.antt =====
-- The values that JSON columns hold, with Python's `==`, ordering, truth test and `in`
-- (what backend/app/services/condition_evaluator.py uses of the language). A dict keeps its keys in
-- order and once each; numbers are integers.
pub mod Lookup
use Prim.Native.Char.{code}
use Prim.Native.String.{[] as empty_text, ◌∷◌ as text_cons}
use filum_reforge.Base.{
  ℕ, suc, String, Bool, true, false, not, ◌&&◌, ◌||◌, Option, none, some, ltb, nat_eq,
  if◌then◌else◌, ◌==◌, List, [], ◌∷◌,
}

-- `negsuc n` is -(n + 1).
pub data ℤ : Type 0 where
  pos : ℕ → ℤ
  negsuc : ℕ → ℤ

mutual
  pub data Value : Type 0 where
    null : Value
    bool : Bool → Value
    num : ℤ → Value
    str : String → Value
    obj : Fields → Value
    arr : Items → Value

  pub data Fields : Type 0 where
    end : Fields
    field : String → Value → Fields → Fields

  pub data Items : Type 0 where
    nil : Items
    cons : Value → Items → Items

unfoldable pub int_eq : ℤ → ℤ → Bool
int_eq (pos a) (pos b) = nat_eq a b
int_eq (negsuc a) (negsuc b) = nat_eq a b
int_eq _ _ = false

unfoldable pub int_lt : ℤ → ℤ → Bool
int_lt (pos a) (pos b) = ltb a b
int_lt (pos a) (negsuc b) = false
int_lt (negsuc a) (pos b) = true
int_lt (negsuc a) (negsuc b) = ltb b a

-- `True` is the number 1.
abbrev pub bool_int : Bool → ℤ
bool_int true = pos 1
bool_int false = pos 0

unfoldable pub field_of : String → Fields → Option Value
field_of k end = none
field_of k (field j v fs) = if j == k then some v else field_of k fs

-- `d.get(k)`, which is `None` on a missing key.
unfoldable pub get : Fields → String → Value
unfolding field_of
get fs k = elim (field_of k fs) [ some v ↦ v | none ↦ null ]

unfoldable pub field_count : Fields → ℕ
field_count end = 0
field_count (field k v fs) = suc (field_count fs)

-- `a == b`
unfoldable mutual
  unfolding int_eq field_of field_count

  pub value_eq : Value → Value → Bool
  value_eq null null = true
  value_eq (bool a) (bool b) = int_eq (bool_int a) (bool_int b)
  value_eq (bool a) (num b) = int_eq (bool_int a) b
  value_eq (num a) (bool b) = int_eq a (bool_int b)
  value_eq (num a) (num b) = int_eq a b
  value_eq (str a) (str b) = a == b
  value_eq (arr xs) (arr ys) = items_eq xs ys
  value_eq (obj fs) (obj gs) = nat_eq (field_count fs) (field_count gs) && fields_in fs gs
  value_eq _ _ = false

  pub items_eq : Items → Items → Bool
  items_eq nil nil = true
  items_eq (cons x xs) (cons y ys) = value_eq x y && items_eq xs ys
  items_eq _ _ = false

  pub fields_in : Fields → Fields → Bool
  fields_in end gs = true
  fields_in (field k v fs) gs =
      elim (field_of k gs) [ some w ↦ value_eq v w | none ↦ false ] && fields_in fs gs

-- Texts are ordered by their code points.
unfoldable pub text_lt : String → String → Bool
text_lt _ empty_text = false
text_lt empty_text (text_cons d t) = true
text_lt (text_cons c s) (text_cons d t) =
    ltb (code c) (code d) || (nat_eq (code c) (code d) && text_lt s t)

pub data Order : Type 0 where
  gt gte lt lte : Order

-- An order test from `<` both ways round.
unfoldable pub order_test : Order → (less more : Bool) → Bool
order_test gt less more = more
order_test gte less more = not less
order_test lt less more = less
order_test lte less more = not more

-- `a > b` and so on; `none` is a `TypeError`. Of two lists the first items that differ decide, and
-- with none that differ the lengths.
unfoldable mutual
  unfolding value_eq int_lt text_lt order_test

  pub value_order : Order → Value → Value → Option Bool
  value_order op (bool a) (bool b) =
      some (order_test op (int_lt (bool_int a) (bool_int b)) (int_lt (bool_int b) (bool_int a)))
  value_order op (bool a) (num b) =
      some (order_test op (int_lt (bool_int a) b) (int_lt b (bool_int a)))
  value_order op (num a) (bool b) =
      some (order_test op (int_lt a (bool_int b)) (int_lt (bool_int b) a))
  value_order op (num a) (num b) = some (order_test op (int_lt a b) (int_lt b a))
  value_order op (str a) (str b) = some (order_test op (text_lt a b) (text_lt b a))
  value_order op (arr xs) (arr ys) = items_order op xs ys
  value_order op _ _ = none

  pub items_order : Order → Items → Items → Option Bool
  items_order op nil nil = some (order_test op false false)
  items_order op nil (cons y ys) = some (order_test op true false)
  items_order op (cons x xs) nil = some (order_test op false true)
  items_order op (cons x xs) (cons y ys) = elim (value_eq x y) [
    | true ↦ items_order op xs ys
    | false ↦ value_order op x y
  ]

-- `bool(v)`
unfoldable pub truthy : Value → Bool
unfolding int_eq
truthy null = false
truthy (bool b) = b
truthy (num n) = not (int_eq n (pos 0))
truthy (str s) = not (s == "")
truthy (arr nil) = false
truthy (arr (cons x xs)) = true
truthy (obj end) = false
truthy (obj (field k v fs)) = true

-- `v in xs`
unfoldable pub value_in : Value → Items → Bool
unfolding value_eq
value_in v nil = false
value_in v (cons x xs) = value_eq x v || value_in v xs

unfoldable pub text_starts : String → String → Bool
text_starts _ empty_text = true
text_starts empty_text (text_cons d t) = false
text_starts (text_cons c s) (text_cons d t) = nat_eq (code c) (code d) && text_starts s t

-- `t in s`
unfoldable pub text_in : String → String → Bool
unfolding text_starts
text_in t empty_text = text_starts empty_text t
text_in t (text_cons c s) = text_starts (text_cons c s) t || text_in t s

-- `d[k] = v`
unfoldable pub set_field : String → Value → Fields → Fields
set_field k v end = field k v end
set_field k v (field j w fs) = if j == k then field k v fs else field j w (set_field k v fs)

-- `{**old, **new}`
unfoldable pub merge_fields : Fields → Fields → Fields
merge_fields old end = old
merge_fields old (field k v fs) = merge_fields (set_field k v old) fs

-- A text or `None` in a JSON object.
unfoldable pub optional : Option String → Value
optional none = null
optional (some s) = str s

-- A JSON list of texts.
unfoldable pub texts : List String → Items
texts [] = nil
texts (t ∷ ts) = cons (str t) (texts ts)

-- `dict(v) if isinstance(v, dict) else {}`
unfoldable pub object_of : Value → Fields
object_of (obj fields) = fields
object_of _ = end

-- `str(v)`. What Python prints for a value that is neither a text nor `None` is an argument.
unfoldable pub text_of : (Value → String) → Value → String
text_of show (str s) = s
text_of show null = "None"
text_of show v = show v

-- `v or default`
unfoldable pub or_value : Value → Value → Value
unfolding truthy
or_value v default = if truthy v then v else default

unfoldable pub item_texts : (Value → String) → Items → List String
unfolding text_of
item_texts show nil = []
item_texts show (cons v vs) = text_of show v ∷ item_texts show vs

-- `[str(v) for v in value] if isinstance(value, list) else []`
unfoldable pub texts_of : (Value → String) → Value → List String
unfolding item_texts
texts_of show (arr items) = item_texts show items
texts_of show _ = []

-- `v is True`
unfoldable pub is_true : Value → Bool
is_true (bool b) = b
is_true _ = false
