-- ===== src/Text.antt =====
-- Python's methods of `str` that the services use, over code points, and `sorted` on texts.
pub mod Sorted
pub mod Strip
use Prim.Native.Char.{Char, code}
use Prim.Native.String.{[] as empty_text, ◌∷◌ as text_cons}
use filum_reforge.Base.{
  zero, suc, ℕ, ◌+◌, String, Bool, true, false, ◌&&◌, ◌||◌, List, [], ◌∷◌, leb, nat_eq,
  if◌then◌else◌, ◌==◌, elem,
}
use filum_reforge.Value.{text_lt}

-- `s.lower() == name` for a name in small ASCII letters.
unfoldable pub lower_is : String → String → Bool
lower_is empty_text empty_text = true
lower_is (text_cons c s) (text_cons d t) =
    (nat_eq (code c) (code d)
      || (leb b'A' (code c) && leb (code c) b'Z' && nat_eq (code c + 32) (code d)))
    && lower_is s t
lower_is _ _ = false

-- The character of the second text at the place where the first has `c`.
unfoldable pub translate : String → String → Char → Char
translate (text_cons a from) (text_cons b to) c =
    if nat_eq (code a) (code c) then b else translate from to c
translate _ _ c = c

-- `s.lower()`, on ASCII letters.
unfoldable pub lower : String → String
unfolding translate
lower empty_text = empty_text
lower (text_cons c s) =
    text_cons (translate "ABCDEFGHIJKLMNOPQRSTUVWXYZ" "abcdefghijklmnopqrstuvwxyz" c) (lower s)

-- `len(s)`
unfoldable pub char_count : String → ℕ
char_count empty_text = 0
char_count (text_cons c s) = suc (char_count s)

-- `s[:n]`
unfoldable pub prefix : ℕ → String → String
prefix zero s = empty_text
prefix (suc n) empty_text = empty_text
prefix (suc n) (text_cons c s) = text_cons c (prefix n s)

-- Unicode white space.
unfoldable pub is_space : ℕ → Bool
is_space c =
    (leb 9 c && leb c 13)
    || (leb 28 c && leb c 32)
    || nat_eq c 133
    || nat_eq c 160
    || nat_eq c 5760
    || (leb 8192 c && leb c 8202)
    || nat_eq c 8232
    || nat_eq c 8233
    || nat_eq c 8239
    || nat_eq c 8287
    || nat_eq c 12288

unfoldable pub strip_left : String → String
unfolding is_space
strip_left empty_text = empty_text
strip_left (text_cons c s) = if is_space (code c) then strip_left s else text_cons c s

unfoldable pub strip_right : String → String
unfolding is_space
strip_right empty_text = empty_text
strip_right (text_cons c s) =
    let rest = strip_right s in
    if is_space (code c) && rest == "" then empty_text else text_cons c rest

-- `s.strip()`
unfoldable pub strip : String → String
unfolding strip_left strip_right
strip s = strip_right (strip_left s)

-- `(s or default)`
unfoldable pub or_text : String → String → String
or_text s default = if s == "" then default else s

-- Whether the keys of a set are in the list is all that matters to most callers.
unfoldable pub insert_sorted : String → List String → List String
unfolding text_lt
insert_sorted k [] = k ∷ []
insert_sorted k (x ∷ xs) = if text_lt x k then x ∷ insert_sorted k xs else k ∷ x ∷ xs

-- `sorted(keys)`
unfoldable pub sorted : List String → List String
unfolding insert_sorted
sorted [] = []
sorted (k ∷ ks) = insert_sorted k (sorted ks)
