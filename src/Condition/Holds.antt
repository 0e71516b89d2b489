-- ===== src/Condition/Holds.antt =====
-- The condition schema as a relation, and `evaluate_condition` as its decision
-- (backend/app/services/condition_evaluator.py).
use filum_reforge.Base.{
  ◌≡◌, refl, sym, subst, ◌≢◌, inl, inr, Bool, true, false, none, arith, ◌==◌, Bool-cases, ◌∙◌,
}
use filum_reforge.Value.{
  Value, null, bool, num, str, arr, obj, Items, nil, cons, Fields, end, field, get, field_of,
}
use filum_reforge.Condition.Choose.{
  is_list, get-here, get-later, all_entry-eq, any_entry-eq, all_list-eq-none, any_list-eq-none,
  choose-some, choose-none-some, choose-none-none, Evaluates, list_cases, choose-of_all,
  choose-of_any, and_parts, arr-injective,
}
use filum_reforge.Condition.{evaluate_leaf, choose, all_entry, any_entry, all_items, any_items}

abbrev pub is_object : Value → Bool
is_object (obj fs) = true
is_object _ = false

-- An "all" list comes before an "any" list, and a list before the operator. An empty condition
-- holds. In a list only the objects count.
mutual
  pub data Holds (context : Fields) : Fields → Type 0 where
    unconditional : {c : Fields} → c ≡ end → Holds context c
    all_of : {c : Fields} (xs : Items) → get c "all" ≡ arr xs → AllHold context xs → Holds context c
    any_of :
        {c : Fields} (xs : Items)
        → is_list (get c "all") ≡ false
        → get c "any" ≡ arr xs
        → SomeHolds context xs
        → Holds context c
    operator :
        {c : Fields}
        → c ≢ end
        → is_list (get c "all") ≡ false
        → is_list (get c "any") ≡ false
        → evaluate_leaf context c ≡ true
        → Holds context c

  pub data AllHold (context : Fields) : Items → Type 0 where
    all_nil : AllHold context nil
    all_cons :
        {c : Fields} {xs : Items}
        → Holds context c
        → AllHold context xs
        → AllHold context (cons (obj c) xs)
    all_skip :
        {v : Value} {xs : Items}
        → is_object v ≡ false
        → AllHold context xs
        → AllHold context (cons v xs)

  pub data SomeHolds (context : Fields) : Items → Type 0 where
    some_here : {c : Fields} {xs : Items} → Holds context c → SomeHolds context (cons (obj c) xs)
    some_later : {v : Value} {xs : Items} → SomeHolds context xs → SomeHolds context (cons v xs)

module _ (context : Fields) where
  mutual
    unfolding all_entry

    Holds-Evaluates : {c : Fields} → Holds context c → Evaluates context c
    Holds-Evaluates {c} (unconditional e) = rw (e, choose) refl
    Holds-Evaluates {c} (all_of xs e h) =
        rw (all_entry-eq context c, e, AllHold-true h) (choose-some context c (any_entry context c))
    Holds-Evaluates {c} (any_of xs no_all e h) =
        rw
          (
            all_entry-eq context c,
            all_list-eq-none context (get c "all") no_all,
            any_entry-eq context c,
            e,
            SomeHolds-true h,
          )
          (choose-none-some context c)
    Holds-Evaluates {c} (operator ne no_all no_any h) =
        rw
          (
            all_entry-eq context c,
            all_list-eq-none context (get c "all") no_all,
            any_entry-eq context c,
            any_list-eq-none context (get c "any") no_any,
          )
          (choose-none-none context c h)

    AllHold-true : {xs : Items} → AllHold context xs → all_items context xs ≡ true
    AllHold-true all_nil = refl
    AllHold-true (all_cons h hs) = rw (Holds-Evaluates h) (AllHold-true hs)
    AllHold-true (all_skip {v = obj fs} e hs) = cc
    AllHold-true (all_skip {v = null} e hs) = AllHold-true hs
    AllHold-true (all_skip {v = bool b} e hs) = AllHold-true hs
    AllHold-true (all_skip {v = num n} e hs) = AllHold-true hs
    AllHold-true (all_skip {v = str t} e hs) = AllHold-true hs
    AllHold-true (all_skip {v = arr ys} e hs) = AllHold-true hs

    SomeHolds-true : {xs : Items} → SomeHolds context xs → any_items context xs ≡ true
    SomeHolds-true (some_here h) = rw (Holds-Evaluates h) refl
    SomeHolds-true (some_later {v = obj fs} hs) = ground (arith, SomeHolds-true hs)
    SomeHolds-true (some_later {v = null} hs) = SomeHolds-true hs
    SomeHolds-true (some_later {v = bool b} hs) = SomeHolds-true hs
    SomeHolds-true (some_later {v = num n} hs) = SomeHolds-true hs
    SomeHolds-true (some_later {v = str t} hs) = SomeHolds-true hs
    SomeHolds-true (some_later {v = arr ys} hs) = SomeHolds-true hs

  leaf_intro :
      (c : Fields)
      → is_list (get c "all") ≡ false
      → is_list (get c "any") ≡ false
      → choose context c none none ≡ true
      → Holds context c
  unfolding choose
  leaf_intro end na ny h = unconditional refl
  leaf_intro (field k v fs) na ny h = operator (λ e. cc) na ny h

  -- From the value of a condition to a derivation, given derivations for its lists.
  Holds-intro :
      (c : Fields)
      → ((xs : Items) → get c "all" ≡ arr xs → all_items context xs ≡ true → AllHold context xs)
      → ((xs : Items) → get c "any" ≡ arr xs → any_items context xs ≡ true → SomeHolds context xs)
      → Evaluates context c
      → Holds context c
  Holds-intro c of_all of_any h = elim (list_cases (get c "all")) [
    | inl (xs, e) ↦ all_of xs e (of_all xs e (choose-of_all context c xs (any_entry context c) e h))
    | inr na ↦
        let h' = rw (all_entry-eq context c, all_list-eq-none context (get c "all") na) at h in
        elim (list_cases (get c "any")) [
          | inl (ys, e) ↦ any_of ys na e (of_any ys e (choose-of_any context c ys e h'))
          | inr ny ↦
              leaf_intro c na ny
                (rw (any_entry-eq context c, any_list-eq-none context (get c "any") ny) at h')
        ]
  ]

  mutual
    unfolding all_entry get field_of

    all_sound : (xs : Items) → all_items context xs ≡ true → AllHold context xs
    all_sound nil h = all_nil
    all_sound (cons (obj fs) xs) h =
        let both =
          and_parts (choose context fs (all_entry context fs) (any_entry context fs))
            (all_items context xs) h in
        all_cons (Holds-intro fs (entry_all fs) (entry_any fs) both.0) (all_sound xs both.1)
    all_sound (cons null xs) h = all_skip refl (all_sound xs h)
    all_sound (cons (bool b) xs) h = all_skip refl (all_sound xs h)
    all_sound (cons (num n) xs) h = all_skip refl (all_sound xs h)
    all_sound (cons (str t) xs) h = all_skip refl (all_sound xs h)
    all_sound (cons (arr ys) xs) h = all_skip refl (all_sound xs h)

    some_sound : (xs : Items) → any_items context xs ≡ true → SomeHolds context xs
    some_sound nil h = cc
    some_sound (cons (obj fs) xs) h =
        elim (Bool-cases (choose context fs (all_entry context fs) (any_entry context fs))) [
          | inl e ↦ some_here (Holds-intro fs (entry_all fs) (entry_any fs) e)
          | inr e ↦ some_later (some_sound xs (rw e at h))
        ]
    some_sound (cons null xs) h = some_later (some_sound xs h)
    some_sound (cons (bool b) xs) h = some_later (some_sound xs h)
    some_sound (cons (num n) xs) h = some_later (some_sound xs h)
    some_sound (cons (str t) xs) h = some_later (some_sound xs h)
    some_sound (cons (arr ys) xs) h = some_later (some_sound xs h)

    entry_all :
        (fs : Fields) (xs : Items)
        → get fs "all" ≡ arr xs
        → all_items context xs ≡ true
        → AllHold context xs
    entry_all end xs e h = cc
    entry_all (field k v fs) xs e h = elim (Bool-cases (k == "all")) [
      | inl p ↦ list_all v xs (sym (get-here k "all" v fs p) ∙ e) h
      | inr p ↦ entry_all fs xs (sym (get-later k "all" v fs p) ∙ e) h
    ]

    entry_any :
        (fs : Fields) (xs : Items)
        → get fs "any" ≡ arr xs
        → any_items context xs ≡ true
        → SomeHolds context xs
    entry_any end xs e h = cc
    entry_any (field k v fs) xs e h = elim (Bool-cases (k == "any")) [
      | inl p ↦ list_any v xs (sym (get-here k "any" v fs p) ∙ e) h
      | inr p ↦ entry_any fs xs (sym (get-later k "any" v fs p) ∙ e) h
    ]

    list_all :
        (v : Value) (xs : Items) → v ≡ arr xs → all_items context xs ≡ true → AllHold context xs
    list_all (arr ys) xs e h =
        let p = arr-injective ys xs e in subst (AllHold context) p (all_sound ys (rw p h))
    list_all null xs e h = cc
    list_all (bool b) xs e h = cc
    list_all (num n) xs e h = cc
    list_all (str t) xs e h = cc
    list_all (obj fs) xs e h = cc

    list_any :
        (v : Value) (xs : Items) → v ≡ arr xs → any_items context xs ≡ true → SomeHolds context xs
    list_any (arr ys) xs e h =
        let p = arr-injective ys xs e in subst (SomeHolds context) p (some_sound ys (rw p h))
    list_any null xs e h = cc
    list_any (bool b) xs e h = cc
    list_any (num n) xs e h = cc
    list_any (str t) xs e h = cc
    list_any (obj fs) xs e h = cc
