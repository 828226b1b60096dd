-- ===== src/Prelude/Strings.antt =====
-- Python's `str` as the list of its code points.
use Prim.Native.Nat.{ℕ}
use mathlib.Core.Path.{◌≡◌, refl}
use mathlib.Core.List.{List, [], ◌∷◌, reverse}
use native.Mathlib.Omega.{arith}
use mathlib.Core.Bool.{Bool, true, false, ◌&&◌}
use music_room_bot.Prelude.Tests.{◌==◌, if◌then◌else◌}

abbrev pub Text : Type 0
Text = List ℕ

abbrev pub text_eq : Text → Text → Bool
text_eq [] [] = true
text_eq [] (d ∷ t) = false
text_eq (c ∷ s) [] = false
text_eq (c ∷ s) (d ∷ t) = c == d && text_eq s t

abbrev pub is_empty : Text → Bool
is_empty [] = true
is_empty (_ ∷ _) = false

-- `str.lstrip`, `str.strip` and `str.removeprefix` of one character, for a given `str.isspace`.
unfoldable pub strip_left : (ℕ → Bool) → Text → Text
strip_left is_space [] = []
strip_left is_space (c ∷ s) = if is_space c then strip_left is_space s else c ∷ s

unfoldable pub strip : (ℕ → Bool) → Text → Text
unfolding strip_left
strip is_space s = reverse (strip_left is_space (reverse (strip_left is_space s)))

unfoldable pub remove_prefix : ℕ → Text → Text
remove_prefix p [] = []
remove_prefix p (c ∷ s) = if c == p then s else c ∷ s

pub text_eq_refl : (t : Text) → text_eq t t ≡ true
text_eq_refl [] = refl
text_eq_refl (c ∷ t) = ground (arith, text_eq_refl t)
