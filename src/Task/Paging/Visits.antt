-- ===== src/Task/Paging/Visits.antt =====
-- A client that follows the cursors of the task center sees every entry once, in order.
use mathlib.Core.List.{append_assoc, append-nil}
use filum_reforge.Base.{
  inl, inr, Bool-cases, subst, inr, subst, inl, Bool-cases, ℕ, zero, suc, ◌≤◌, ◌<◌, String, true,
  false, ltb, Option, none, some, List, [], ◌∷◌, ◌++◌, map, elem, length, take, All, ◌≡◌, refl, sym,
  ap, ◌∙◌, arith, eq_iff,
}
use filum_reforge.Task.Paging.{after_entry, sliced, last_id, paginate, fetch_pages}

module _ {A : Type 0} where
  abbrev pub drop : ℕ → List A → List A
  drop zero xs = xs
  drop (suc n) [] = []
  drop (suc n) (x ∷ xs) = drop n xs

  abbrev pub concat : List (List A) → List A
  concat [] = []
  concat (xs ∷ rest) = xs ++ concat rest

  -- No two entries have the same id.
  unfoldable pub IsDistinct : (A → String) → List A → Type 0
  unfolding elem
  IsDistinct id_of [] = Unit
  IsDistinct id_of (x ∷ xs) = (elem (id_of x) (map id_of xs) ≡ false) × IsDistinct id_of xs

  -- What fetching the pages comes to.
  pub record Visit (limit : ℕ) (rest : List A) (fetched : Option (List (List A))) : Type 0 where
    pub pages : List (List A)
    pub ends : fetched ≡ some pages
    pub whole : concat pages ≡ rest
    pub sized : All (λ page. length page ≤ limit) pages

  take-drop : (n : ℕ) (xs : List A) → take n xs ++ drop n xs ≡ xs
  take-drop zero xs = refl
  take-drop (suc n) [] = refl
  take-drop (suc n) (x ∷ xs) = ap (λ ys. x ∷ ys) (take-drop n xs)

  length-take-le : (n : ℕ) (xs : List A) → length (take n xs) ≤ n
  length-take-le zero xs = omega arith
  length-take-le (suc n) [] = omega arith
  length-take-le (suc n) (x ∷ xs) = omega (arith, length-take-le n xs)

  take-all : (n : ℕ) (xs : List A) → length xs ≤ n → take n xs ≡ xs
  take-all zero [] h = refl
  take-all zero (x ∷ xs) h = absurd (omega arith)
  take-all (suc n) [] h = refl
  take-all (suc n) (x ∷ xs) h = ap (λ ys. x ∷ ys) (take-all n xs (omega arith))

  length-drop-lt : (n : ℕ) (xs : List A) → n < length xs → length (drop (suc n) xs) < length xs
  length-drop-lt zero [] h = absurd (omega arith)
  length-drop-lt zero (x ∷ xs) h = omega arith
  length-drop-lt (suc n) [] h = absurd (omega arith)
  length-drop-lt (suc n) (x ∷ xs) h = omega (arith, length-drop-lt n xs (omega arith))

  -- The last entry of a page that is full.
  last_of_take :
      (id_of : A → String) (n : ℕ) (xs : List A)
      → n < length xs
      → (init : List A) × (x : A) × (xs ≡ init ++ x ∷ drop (suc n) xs)
        × (last_id id_of (take (suc n) xs) ≡ some (id_of x))
  unfolding last_id
  last_of_take id_of n [] h = absurd (omega arith)
  last_of_take id_of zero (x ∷ xs) h = ([], x, refl, refl)
  last_of_take id_of (suc n) (x ∷ []) h = absurd (omega arith)
  last_of_take id_of (suc n) (x ∷ y ∷ xs) h =
      let (init, z, split, last) = last_of_take id_of n (y ∷ xs) (omega arith) in
      (x ∷ init, z, ap (λ ys. x ∷ ys) split, last)

  elem-middle :
      (id_of : A → String) (pre : List A) (x : A) (rest : List A)
      → elem (id_of x) (map id_of (pre ++ x ∷ rest)) ≡ true
  unfolding elem
  elem-middle id_of [] x rest = ground (arith, eq_iff (id_of x) (id_of x))
  elem-middle id_of (p ∷ pre) x rest = ground (arith, elem-middle id_of pre x rest)

  after_entry-middle :
      (id_of : A → String) (pre : List A) (x : A) (rest : List A)
      → IsDistinct id_of (pre ++ x ∷ rest)
      → after_entry id_of (id_of x) (pre ++ x ∷ rest) ≡ some rest
  unfolding after_entry IsDistinct
  after_entry-middle id_of [] x rest h = ground (arith, eq_iff (id_of x) (id_of x))
  after_entry-middle id_of (p ∷ pre) x rest h = ground (
    arith,
    h.0,
    eq_iff (id_of p) (id_of x),
    elem-middle id_of pre x rest,
    after_entry-middle id_of pre x rest h.1,
  )

  sliced_after :
      (id_of : A → String) (pre : List A) (x : A) (rest : List A)
      → IsDistinct id_of (pre ++ x ∷ rest)
      → sliced id_of (some (id_of x)) (pre ++ x ∷ rest) ≡ rest
  unfolding sliced
  sliced_after id_of pre x rest h = ground (arith, after_entry-middle id_of pre x rest h)

  module _ (id_of : A → String) (limit : ℕ) (cursor : Option String) (entries : List A) where
    fetch_last :
        (fuel : ℕ)
        → ltb limit (length (sliced id_of cursor entries)) ≡ false
        → fetch_pages id_of limit (suc fuel) cursor entries
          ≡ some (take limit (sliced id_of cursor entries) ∷ [])
    unfolding fetch_pages paginate
    fetch_last fuel h = ground arith

    fetch_more :
        (fuel : ℕ) (key : String) (pages : List (List A))
        → ltb limit (length (sliced id_of cursor entries)) ≡ true
        → last_id id_of (take limit (sliced id_of cursor entries)) ≡ some key
        → fetch_pages id_of limit fuel (some key) entries ≡ some pages
        → fetch_pages id_of limit (suc fuel) cursor entries
          ≡ some (take limit (sliced id_of cursor entries) ∷ pages)
    unfolding fetch_pages paginate
    fetch_more fuel key pages more last rest = ground arith

  module _ (id_of : A → String) (n : ℕ) (entries : List A)
      (distinct : IsDistinct id_of entries) where
    Visit-rest :
        (fuel : ℕ) (cursor : Option String) (pre rest : List A)
        → entries ≡ pre ++ rest
        → sliced id_of cursor entries ≡ rest
        → length rest < fuel
        → Visit (suc n) rest (fetch_pages id_of (suc n) fuel cursor entries)
    Visit-rest zero cursor pre rest split here h = absurd (omega arith)
    Visit-rest (suc fuel) cursor pre rest split here h =
        elim (Bool-cases (ltb (suc n) (length (sliced id_of cursor entries)))) [
          | inl more ↦
              let longer : suc n < length rest =
                subst (λ xs. suc n < length xs) here (ground arith) in
              let (init, x, parts, last) = last_of_take id_of n rest (omega arith) in
              let whole : entries ≡ (pre ++ init) ++ x ∷ drop (suc n) rest =
                split ∙ ap (λ ys. pre ++ ys) parts ∙ sym (append_assoc pre init _) in
              let found : sliced id_of (some (id_of x)) entries ≡ drop (suc n) rest =
                ap (sliced id_of (some (id_of x))) whole
                ∙ sliced_after id_of (pre ++ init) x (drop (suc n) rest)
                    (subst (IsDistinct id_of) whole distinct) in
              let later =
                Visit-rest fuel (some (id_of x)) ((pre ++ init) ++ x ∷ []) (drop (suc n) rest)
                  (whole ∙ sym (append_assoc (pre ++ init) (x ∷ []) _)) found
                  (omega (arith, length-drop-lt n rest (omega arith))) in
              record {
                pages = take (suc n) (sliced id_of cursor entries) ∷ later.pages;
                ends =
                    fetch_more id_of (suc n) cursor entries fuel (id_of x) later.pages more
                      (ap (λ ys. last_id id_of (take (suc n) ys)) here ∙ last) later.ends;
                whole =
                    ap (λ ys. take (suc n) ys ++ concat later.pages) here
                    ∙ ap (λ ys. take (suc n) rest ++ ys) later.whole
                    ∙ take-drop (suc n) rest;
                sized = (length-take-le (suc n) _, later.sized);
              }
          | inr last ↦ record {
            pages = take (suc n) (sliced id_of cursor entries) ∷ [];
            ends = fetch_last id_of (suc n) cursor entries fuel last;
            whole = append-nil _ ∙ take-all (suc n) _ (ground arith) ∙ here;
            sized = (length-take-le (suc n) _, tt);
          }
        ]

  -- With distinct ids and a limit that is not 0, a client that starts without a cursor and asks on
  -- while it gets one stops within as many requests as there are entries, and one. The pages are at
  -- most as long as the limit, and joined they are the list.
  pub fetch_pages-Visit :
      (id_of : A → String) (limit : ℕ) (entries : List A)
      → 0 < limit
      → IsDistinct id_of entries
      → Visit limit entries (fetch_pages id_of limit (suc (length entries)) none entries)
  unfolding sliced
  fetch_pages-Visit id_of zero entries h distinct = absurd (omega arith)
  fetch_pages-Visit id_of (suc n) entries h distinct =
      Visit-rest id_of n entries distinct (suc (length entries)) none [] entries refl refl
        (omega arith)
