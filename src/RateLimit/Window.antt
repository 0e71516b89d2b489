-- ===== src/RateLimit/Window.antt =====
-- The window in memory keeps exactly the hits that were allowed within the last window.
use filum_reforge.Base.{
  ℕ, ◌+◌, ◌≤◌, ◌≡◌, refl, sym, ◌∙◌, ap, Bool, true, false, not, List, [], ◌∷◌, ◌++◌, arith,
  Bool-cases, inl, inr, length, length-append, length-select_if, leb, ltb, select_if, All,
}
use filum_reforge.RateLimit.{drop_old, check_bucket}

-- The hit is less than a window ago.
unfoldable pub within : ℕ → ℕ → ℕ → Bool
within window now hit = not (leb (hit + window) now)

-- Later hits stand further right.
unfoldable pub IsOrdered : List ℕ → Type 0
IsOrdered [] = Unit
IsOrdered (hit ∷ hits) = All (λ later. hit ≤ later) hits × IsOrdered hits

select_if-of_ordered :
    (window now hit : ℕ) (hits : List ℕ)
    → All (λ later. hit ≤ later) hits
    → within window now hit ≡ true
    → select_if (within window now) hits ≡ hits
unfolding within
select_if-of_ordered window now hit [] h w = refl
select_if-of_ordered window now hit (later ∷ hits) (l, h) w =
    ground (arith, select_if-of_ordered window now hit hits h w)

-- Popping from the left is the same as keeping what lies in the window.
drop_old-select_if :
    (window now : ℕ) (hits : List ℕ)
    → IsOrdered hits
    → drop_old window now hits ≡ select_if (within window now) hits
unfolding drop_old within IsOrdered
drop_old-select_if window now [] h = refl
drop_old-select_if window now (hit ∷ hits) (first, rest) =
    ground (
      arith,
      drop_old-select_if window now hits rest,
      select_if-of_ordered window now hit hits first,
    )

-- The bucket at time `last` against the times of all requests that were allowed so far.
pub record Tracks (limit window last : ℕ) (bucket history : List ℕ) : Type 0 where
  pub ordered : IsOrdered bucket
  pub past : All (λ hit. hit ≤ last) bucket
  pub bounded : length bucket ≤ limit
  pub agree :
      (now : ℕ)
      → last ≤ now
      → select_if (within window now) bucket ≡ select_if (within window now) history

All-kept :
    (P : ℕ → Type 0) (keep : Bool) (hit : ℕ) (hits : List ℕ)
    → P hit
    → All P hits
    → All P (elim keep [ true ↦ hit ∷ hits | false ↦ hits ])
All-kept P true hit hits h k = (h, k)
All-kept P false hit hits h k = k

IsOrdered-kept :
    (keep : Bool) (hit : ℕ) (hits : List ℕ)
    → All (λ later. hit ≤ later) hits
    → IsOrdered hits
    → IsOrdered (elim keep [ true ↦ hit ∷ hits | false ↦ hits ])
unfolding IsOrdered
IsOrdered-kept true hit hits h k = (h, k)
IsOrdered-kept false hit hits h k = k

module _ (window now : ℕ) where
  All-select_if :
      (P : ℕ → Type 0) (hits : List ℕ) → All P hits → All P (select_if (within window now) hits)
  All-select_if P [] h = tt
  All-select_if P (hit ∷ hits) (first, rest) =
      All-kept P (within window now hit) hit (select_if (within window now) hits) first
        (All-select_if P hits rest)

  IsOrdered-select_if :
      (hits : List ℕ) → IsOrdered hits → IsOrdered (select_if (within window now) hits)
  unfolding IsOrdered
  IsOrdered-select_if [] h = tt
  IsOrdered-select_if (hit ∷ hits) (first, rest) =
      IsOrdered-kept (within window now hit) hit (select_if (within window now) hits)
        (All-select_if (λ later. hit ≤ later) hits first) (IsOrdered-select_if hits rest)

  select_if-append :
      (xs ys : List ℕ)
      → select_if (within window now) (xs ++ ys)
        ≡ select_if (within window now) xs ++ select_if (within window now) ys
  select_if-append [] ys = refl
  select_if-append (x ∷ xs) ys = ground (arith, select_if-append xs ys)

  -- What is outside a window stays outside all later ones.
  select_if-twice :
      (later : ℕ) (hits : List ℕ)
      → now ≤ later
      → select_if (within window later) (select_if (within window now) hits)
        ≡ select_if (within window later) hits
  unfolding within
  select_if-twice later [] h = refl
  select_if-twice later (hit ∷ hits) h = ground (arith, select_if-twice later hits h)

All-append_one :
    (P : ℕ → Type 0) (hits : List ℕ) (hit : ℕ) → All P hits → P hit → All P (hits ++ (hit ∷ []))
All-append_one P [] hit h k = (k, tt)
All-append_one P (x ∷ xs) hit (first, rest) k = (first, All-append_one P xs hit rest k)

IsOrdered-append :
    (hits : List ℕ) (hit : ℕ)
    → IsOrdered hits
    → All (λ x. x ≤ hit) hits
    → IsOrdered (hits ++ (hit ∷ []))
unfolding IsOrdered
IsOrdered-append [] hit h k = (tt, tt)
IsOrdered-append (x ∷ xs) hit (first, rest) (f, r) =
    (All-append_one (λ later. x ≤ later) xs hit first f, IsOrdered-append xs hit rest r)

All-later :
    (last now : ℕ) (hits : List ℕ)
    → last ≤ now
    → All (λ hit. hit ≤ last) hits
    → All (λ hit. hit ≤ now) hits
All-later last now [] h k = tt
All-later last now (hit ∷ hits) h (first, rest) = (omega arith, All-later last now hits h rest)

-- The time is added to the history if the request is allowed.
unfoldable pub note_allowed : Bool → ℕ → List ℕ → List ℕ
note_allowed true now history = history ++ (now ∷ [])
note_allowed false now history = history

-- A request is allowed exactly when fewer than `limit` requests were allowed within the last window,
-- and the bucket goes on to track the requests that were allowed.
pub check_bucket_correct :
    (limit window last now : ℕ) (bucket history : List ℕ)
    → Tracks limit window last bucket history
    → last ≤ now
    → ((check_bucket limit window now bucket).0.allowed
        ≡ ltb (length (select_if (within window now) history)) limit)
      × Tracks limit window now
          (check_bucket limit window now bucket).1
          (note_allowed (check_bucket limit window now bucket).0.allowed now history)
unfolding check_bucket note_allowed
check_bucket_correct limit window last now bucket history tracks later =
    let recent = select_if (within window now) bucket in
    let dropped = drop_old-select_if window now bucket tracks.ordered in
    let same = tracks.agree now later in
    let sorted_recent = IsOrdered-select_if window now bucket tracks.ordered in
    let past_recent =
      All-select_if window now (λ hit. hit ≤ now) bucket
        (All-later last now bucket later tracks.past) in
    elim (Bool-cases (leb limit (length recent))) [
      | inl full ↦
          rw (dropped, full, check_bucket)
            (
              ground (arith, ap length same),
              record {
                ordered = sorted_recent;
                past = past_recent;
                bounded =
                    omega (arith, length-select_if (within window now) bucket, tracks.bounded);
                agree =
                    λ t le. select_if-twice window now t bucket le ∙ tracks.agree t (omega arith);
              },
            )
      | inr free ↦
          rw (dropped, free, check_bucket)
            (
              ground (arith, ap length same),
              record {
                ordered = IsOrdered-append recent now sorted_recent past_recent;
                past = All-append_one (λ hit. hit ≤ now) recent now past_recent (omega arith);
                bounded = ground (arith, length-append recent (now ∷ []));
                agree = λ t le.
                    select_if-append window t recent (now ∷ [])
                    ∙ ap (λ xs. xs ++ select_if (within window t) (now ∷ []))
                        (select_if-twice window now t bucket le ∙ tracks.agree t (omega arith))
                    ∙ sym (select_if-append window t history (now ∷ []));
              },
            )
    ]
