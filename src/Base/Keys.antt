-- ===== src/Base/Keys.antt =====
-- Sets of keys as lists of texts, and dictionaries with text keys as association lists.
use Prim.Native.String.{String}
use mathlib.Core.Path.{◌≡◌, refl}
use mathlib.Core.Logic.{◌↔◌}
use mathlib.Core.Bool.{Bool, true, false, ◌||◌}
use mathlib.Core.Option.{Option, none, some}
use mathlib.Core.List.{List, [], ◌∷◌, ◌++◌}
use native.Mathlib.Omega.{arith}
use text.Mathlib.Text.{◌==◌}
use text.Mathlib.TextEquality.{eq_iff}
use filum_reforge.Base.Tests.{if◌then◌else◌}

-- `k in keys`
unfoldable pub elem : String → List String → Bool
elem k [] = false
elem k (x ∷ xs) = x == k || elem k xs

-- `keys.add(k)`: a set keeps one copy.
unfoldable pub add : String → List String → List String
unfolding elem
add k xs = if elem k xs then xs else k ∷ xs

-- `keys.remove(k)`
unfoldable pub remove : String → List String → List String
remove k [] = []
remove k (x ∷ xs) = if x == k then xs else x ∷ remove k xs

-- `a - b`
unfoldable pub minus : List String → List String → List String
unfolding elem
minus [] ys = []
minus (x ∷ xs) ys = let rest = minus xs ys in if elem x ys then rest else x ∷ rest

pub elem-append : (k : String) (xs ys : List String) → elem k (xs ++ ys) ≡ (elem k xs || elem k ys)
unfolding elem
elem-append k [] ys = refl
elem-append k (x ∷ xs) ys = ground (arith, elem-append k xs ys)

pub elem-add : (k j : String) (xs : List String) → elem j (add k xs) ≡ (k == j || elem j xs)
unfolding add
elem-add k j xs = ground (arith, eq_iff k j)

pub elem-minus :
    (k : String) (xs ys : List String)
    → (elem k (minus xs ys) ≡ true) ↔ ((elem k xs ≡ true) × (elem k ys ≡ false))
unfolding minus elem
elem-minus k [] ys = ground arith
elem-minus k (x ∷ xs) ys = ground (arith, eq_iff x k, elem-minus k xs ys)

-- Each key stands once; a new key goes to the end, as in a Python dict.
abbrev pub Dict {ℓ} : Type ℓ → Type ℓ
Dict V = List (String × V)

module _ {ℓ} {V : Type ℓ} where
  unfoldable pub lookup : String → Dict V → Option V
  lookup key [] = none
  lookup key (entry ∷ rest) = if entry.0 == key then some entry.1 else lookup key rest

  unfoldable pub insert : String → V → Dict V → Dict V
  insert key value [] = (key, value) ∷ []
  insert key value (entry ∷ rest) =
      if entry.0 == key then (key, value) ∷ rest else entry ∷ insert key value rest

  unfoldable pub keys : Dict V → List String
  keys [] = []
  keys (entry ∷ rest) = entry.0 ∷ keys rest

  pub lookup-insert :
      (key : String) (value : V) (other : String) (dict : Dict V)
      → lookup other (insert key value dict)
        ≡ (if key == other then some value else lookup other dict)
  unfolding lookup insert
  lookup-insert key value other [] = refl
  lookup-insert key value other (entry ∷ rest) = ground (
    arith,
    lookup-insert key value other rest,
    eq_iff entry.0 key,
    eq_iff entry.0 other,
    eq_iff key other,
  )

  pub lookup-eq-none :
      (key : String) (dict : Dict V) → elem key (keys dict) ≡ false → lookup key dict ≡ none
  unfolding lookup keys elem
  lookup-eq-none key [] h = refl
  lookup-eq-none key (entry ∷ rest) h = ground (arith, lookup-eq-none key rest)
