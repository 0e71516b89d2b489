-- ===== src/Condition/Choose.antt =====
-- The entries of a condition and the choice between its lists and its operator
-- (`evaluate_condition` of backend/app/services/condition_evaluator.py).
use filum_reforge.Base.{
  String, ◌≡◌, refl, ◌≢◌, ◌⊎◌, inl, inr, Bool, true, false, ◌&&◌, Option, none, some, arith, ◌==◌,
}
use filum_reforge.Value.{Value, arr, Items, Fields, end, field, get, field_of}
use filum_reforge.Condition.{
  evaluate_leaf, choose, all_entry, any_entry, all_list, any_list, all_items, any_items,
}

abbrev pub is_list : Value → Bool
is_list (arr xs) = true
is_list _ = false

pub get-here : (k j : String) (v : Value) (fs : Fields) → (k == j) ≡ true → get (field k v fs) j ≡ v
unfolding get field_of
get-here k j v fs p = ground arith

pub get-later :
    (k j : String) (v : Value) (fs : Fields) → (k == j) ≡ false → get (field k v fs) j ≡ get fs j
unfolding get field_of
get-later k j v fs p = ground arith

get-end : (k : String) (xs : Items) → get end k ≢ arr xs
unfolding get
get-end k xs h = cc

pub list_cases : (v : Value) → ((xs : Items) × (v ≡ arr xs)) ⊎ (is_list v ≡ false)
list_cases (arr xs) = inl (xs, refl)
list_cases _ = inr refl

pub and_parts : (a b : Bool) → (a && b) ≡ true → (a ≡ true) × (b ≡ true)
and_parts a b h = ground arith

pub arr-injective : (ys xs : Items) → arr ys ≡ arr xs → ys ≡ xs
arr-injective ys xs e = cc

module _ (context : Fields) where
  pub all_entry-eq : (c : Fields) → all_entry context c ≡ all_list context (get c "all")
  unfolding all_entry get field_of
  all_entry-eq end = refl
  all_entry-eq (field k v fs) = ground (arith, all_entry-eq fs)

  pub any_entry-eq : (c : Fields) → any_entry context c ≡ any_list context (get c "any")
  unfolding any_entry get field_of
  any_entry-eq end = refl
  any_entry-eq (field k v fs) = ground (arith, any_entry-eq fs)

  pub all_list-eq-none : (v : Value) → is_list v ≡ false → all_list context v ≡ none
  unfolding all_list
  all_list-eq-none (arr xs) h = cc
  all_list-eq-none _ h = refl

  pub any_list-eq-none : (v : Value) → is_list v ≡ false → any_list context v ≡ none
  unfolding any_list
  any_list-eq-none (arr xs) h = cc
  any_list-eq-none _ h = refl

  pub choose-some : (c : Fields) (o : Option Bool) → choose context c (some true) o ≡ true
  unfolding choose
  choose-some end o = refl
  choose-some (field k v fs) o = refl

  pub choose-none-some : (c : Fields) → choose context c none (some true) ≡ true
  unfolding choose
  choose-none-some end = refl
  choose-none-some (field k v fs) = refl

  pub choose-none-none :
      (c : Fields) → evaluate_leaf context c ≡ true → choose context c none none ≡ true
  unfolding choose
  choose-none-none end h = refl
  choose-none-none (field k v fs) h = h

  abbrev pub Evaluates : Fields → Type 0
  Evaluates c = choose context c (all_entry context c) (any_entry context c) ≡ true

  pub choose-of_all :
      (c : Fields) (xs : Items) (o : Option Bool)
      → get c "all" ≡ arr xs
      → choose context c (all_entry context c) o ≡ true
      → all_items context xs ≡ true
  unfolding choose all_list
  choose-of_all end xs o e h = absurd (get-end "all" xs e)
  choose-of_all (field k v fs) xs o e h = rw (all_entry-eq (field k v fs), e) at h

  pub choose-of_any :
      (c : Fields) (xs : Items)
      → get c "any" ≡ arr xs
      → choose context c none (any_entry context c) ≡ true
      → any_items context xs ≡ true
  unfolding choose any_list
  choose-of_any end xs e h = absurd (get-end "any" xs e)
  choose-of_any (field k v fs) xs e h = rw (any_entry-eq (field k v fs), e) at h
