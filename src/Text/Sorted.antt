-- ===== src/Text/Sorted.antt =====
-- `sorted` keeps the keys.
use filum_reforge.Base.{suc, String, ◌≡◌, refl, ◌||◌, List, [], ◌∷◌, arith, ◌==◌, elem, length}
use filum_reforge.Text.{sorted, insert_sorted}

elem-insert_sorted :
    (k j : String) (xs : List String) → elem j (insert_sorted k xs) ≡ (k == j || elem j xs)
unfolding insert_sorted elem
elem-insert_sorted k j [] = refl
elem-insert_sorted k j (x ∷ xs) = ground (arith, elem-insert_sorted k j xs)

pub elem-sorted : (j : String) (xs : List String) → elem j (sorted xs) ≡ elem j xs
unfolding sorted elem
elem-sorted j [] = refl
elem-sorted j (k ∷ ks) = ground (arith, elem-insert_sorted k j (sorted ks), elem-sorted j ks)

length-insert_sorted :
    (k : String) (xs : List String) → length (insert_sorted k xs) ≡ suc (length xs)
unfolding insert_sorted
length-insert_sorted k [] = refl
length-insert_sorted k (x ∷ xs) = ground (arith, length-insert_sorted k xs)

pub length-sorted : (xs : List String) → length (sorted xs) ≡ length xs
unfolding sorted
length-sorted [] = refl
length-sorted (k ∷ ks) = ground (arith, length-insert_sorted k (sorted ks), length-sorted ks)
