-- ===== src/Base/Lists.antt =====
-- Lists measured by native numbers, searched by Boolean tests, and the predicates `All` and `Any`.
use Prim.Native.Nat.{ℕ, zero, suc, ◌+◌, ◌≤◌}
use mathlib.Core.Path.{◌≡◌, refl, ap, sym, ◌∙◌}
use mathlib.Core.Logic.{◌⊎◌, inl, inr, ◌↔◌}
use mathlib.Core.Bool.{Bool, true, false, ◌&&◌, ◌||◌}
use mathlib.Core.List.{List, [], ◌∷◌, ◌++◌}
use native.Mathlib.Omega.{arith}

module _ {ℓ} {A : Type ℓ} where
  abbrev pub length : List A → ℕ
  length [] = 0
  length (x ∷ xs) = suc (length xs)

  abbrev pub take : ℕ → List A → List A
  take zero xs = []
  take (suc n) [] = []
  take (suc n) (x ∷ xs) = x ∷ take n xs

  -- Python's `any` and `all` over a generator of tests.
  abbrev pub any : (A → Bool) → List A → Bool
  any p [] = false
  any p (x ∷ xs) = p x || any p xs

  abbrev pub all : (A → Bool) → List A → Bool
  all p [] = true
  all p (x ∷ xs) = p x && all p xs

  -- A list comprehension with an `if`.
  abbrev pub select_if : (A → Bool) → List A → List A
  select_if p [] = []
  select_if p (x ∷ xs) = let rest = select_if p xs in elim (p x) [ true ↦ x ∷ rest | false ↦ rest ]

  pub length-append : (xs ys : List A) → length (xs ++ ys) ≡ length xs + length ys
  length-append [] ys = omega arith
  length-append (x ∷ xs) ys = omega (arith, length-append xs ys)

  pub length-select_if : (p : A → Bool) (xs : List A) → length (select_if p xs) ≤ length xs
  length-select_if p [] = omega arith
  length-select_if p (x ∷ xs) = ground (arith, length-select_if p xs)

module _ {ℓ} {A : Type ℓ} where
  -- Every entry has the property.
  abbrev pub All : (A → Type 0) → List A → Type 0
  All P [] = Unit
  All P (x ∷ xs) = P x × All P xs

  -- Some entry has it, and its place is kept.
  abbrev pub Any : (A → Type 0) → List A → Type 0
  Any P [] = ⊥
  Any P (x ∷ xs) = P x ⊎ Any P xs

  pub Any-append : (P : A → Type 0) (xs ys : List A) → Any P (xs ++ ys) ↔ (Any P xs ⊎ Any P ys)
  Any-append P [] ys = (inr, λ h. elim h [ inl x ↦ elim x [ ] | inr y ↦ y ])
  Any-append P (x ∷ xs) ys = ground (arith, Any-append P xs ys)

module _ {A : Type 0} where
  -- The entry stands in the list.
  abbrev pub In : A → List A → Type 0
  In x xs = Any (λ y. y ≡ x) xs

  pub In-select_if :
      (p : A → Bool) (x : A) (xs : List A) → In x (select_if p xs) ↔ (In x xs × (p x ≡ true))
  In-select_if p x [] = ((λ h. elim h [ ]), (λ (h, e). elim h [ ]))
  In-select_if p x (y ∷ ys) =
      let same : y ≡ x → p y ≡ p x = λ e. ap p e in ground (arith, In-select_if p x ys, same)

  pub In-take_one : (x : A) (xs : List A) → In x (take 1 xs) → In x xs
  In-take_one x [] h = h
  In-take_one x (y ∷ ys) h = elim h [ inl e ↦ inl e | inr f ↦ elim f [ ] ]

  pub select_if-nil :
      (p : A → Bool) (xs : List A) → (select_if p xs ≡ []) ↔ ((x : A) → In x xs → p x ≡ false)
  select_if-nil p [] = ((λ e x h. elim h [ ]), (λ h. refl))
  select_if-nil p (y ∷ ys) = (
    λ e x h. elim h [
      | inl same ↦ ap p (sym same) ∙ ground arith
      | inr later ↦ (select_if-nil p ys).0 (ground arith) x later
    ],
    λ h. ground (arith, h y (inl refl), (select_if-nil p ys).1 (λ x m. h x (inr m))),
  )
