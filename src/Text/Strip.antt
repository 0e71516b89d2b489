-- ===== src/Text/Strip.antt =====
-- Cutting off white space a second time changes nothing.
use Prim.Native.Char.{Char, code}
use Prim.Native.String.{[] as empty_text, ◌∷◌ as text_cons}
use filum_reforge.Base.{
  String, Bool, true, false, not, ◌≡◌, refl, arith, ap, ◌∙◌, ◌==◌, if◌then◌else◌, ◌&&◌,
}
use filum_reforge.Text.{strip, strip_left, strip_right, is_space}

-- The text does not begin with white space.
unfoldable is_solid : String → Bool
is_solid empty_text = true
is_solid (text_cons c s) = not (is_space (code c))

is_solid-strip_left : (s : String) → is_solid (strip_left s) ≡ true
unfolding strip_left is_solid
is_solid-strip_left empty_text = refl
is_solid-strip_left (text_cons c s) = ground (arith, is_solid-strip_left s)

strip_left-solid : (s : String) → is_solid s ≡ true → strip_left s ≡ s
unfolding strip_left is_solid
strip_left-solid empty_text h = refl
strip_left-solid (text_cons c s) h = ground arith

is_solid-strip_right : (s : String) → is_solid s ≡ true → is_solid (strip_right s) ≡ true
unfolding strip_right is_solid
is_solid-strip_right empty_text h = refl
is_solid-strip_right (text_cons c s) h = ground arith

strip_right-kept :
    (b : Bool) (c : Char) (r : String)
    → strip_right r ≡ r
    → (is_space (code c) && r == "") ≡ b
    → strip_right (if b then empty_text else text_cons c r)
      ≡ (if b then empty_text else text_cons c r)
unfolding strip_right
strip_right-kept true c r h e = refl
strip_right-kept false c r h e =
    ap (λ t. if is_space (code c) && t == "" then empty_text else text_cons c t) h
    ∙ ap (λ b. if b then empty_text else text_cons c r) e

strip_right-strip_right : (s : String) → strip_right (strip_right s) ≡ strip_right s
unfolding strip_right
strip_right-strip_right empty_text = refl
strip_right-strip_right (text_cons c s) =
    strip_right-kept _ c (strip_right s) (strip_right-strip_right s) refl

pub strip-strip : (s : String) → strip (strip s) ≡ strip s
unfolding strip
strip-strip s =
    ap strip_right (
      strip_left-solid (strip_right (strip_left s))
        (is_solid-strip_right (strip_left s) (is_solid-strip_left s)))
    ∙ strip_right-strip_right (strip_left s)
