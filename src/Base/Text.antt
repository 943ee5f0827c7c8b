-- ===== src/Base/Text.antt =====
-- Go strings as lists of bytes, with `==`, `len` and `strings.TrimSpace`.
use Prim.Native.Nat.{ℕ, zero, suc}
use Prim.Native.Char.{code}
use Prim.Native.String.{String}
use mathlib.Core.Path.{◌≡◌, refl}
use mathlib.Core.Logic.{◌↔◌}
use mathlib.Core.Bool.{Bool, true, false, ◌&&◌, ◌||◌}
use mathlib.Core.List.{List, [], ◌∷◌, reverse}
use native.Mathlib.Omega.{arith}
use awesome_zero_platform.Base.Tests.{leb, ◌==◌, if◌then◌else◌}

abbrev pub Text : Type 0
Text = List ℕ

-- The bytes of an ASCII literal.
abbrev pub codes : String → Text
codes String.[] = []
codes (String.◌∷◌ c s) = code c ∷ codes s

unfoldable pub text_eq : Text → Text → Bool
text_eq [] [] = true
text_eq [] (b ∷ bs) = false
text_eq (a ∷ as') [] = false
text_eq (a ∷ as') (b ∷ bs) = a == b && text_eq as' bs

pub text_eq→eq : (s t : Text) → text_eq s t ≡ true → s ≡ t
unfolding text_eq
text_eq→eq [] [] h = refl
text_eq→eq [] (b ∷ bs) h = ground arith
text_eq→eq (a ∷ as') [] h = ground arith
text_eq→eq (a ∷ as') (b ∷ bs) h = ground (arith, text_eq→eq as' bs)

pub text_eq_refl : (s : Text) → text_eq s s ≡ true
unfolding text_eq
text_eq_refl [] = refl
text_eq_refl (a ∷ as') = ground (arith, text_eq_refl as')

pub eq→text_eq : (s t : Text) → s ≡ t → text_eq s t ≡ true
eq→text_eq s t e = ground (arith, text_eq_refl s)

pub text_eq_iff : (s t : Text) → (text_eq s t ≡ true) ↔ (s ≡ t)
text_eq_iff s t = (text_eq→eq s t, eq→text_eq s t)

abbrev pub is_empty : Text → Bool
is_empty [] = true
is_empty (b ∷ bs) = false

-- The bytes of the white space that a text begins with: 1 for ASCII, 2 for U+0085 and U+00A0,
-- 3 for U+1680, U+2000 to U+200A, U+2028, U+2029, U+202F, U+205F and U+3000.
ascii_space : ℕ → Bool
ascii_space a = (leb 9 a && leb a 13) || a == 32

space_width3 : ℕ → ℕ → ℕ → Bool
space_width3 a b c =
    (a == 0xe1 && b == 0x9a && c == 0x80)
    || (a == 0xe2
        && ((b == 0x80 && (leb c 0x8a && leb 0x80 c || c == 0xa8 || c == 0xa9 || c == 0xaf))
            || (b == 0x81 && c == 0x9f)))
    || (a == 0xe3 && b == 0x80 && c == 0x80)

space_width2 : ℕ → ℕ → Bool
space_width2 a b = a == 0xc2 && (b == 0x85 || b == 0xa0)

-- How many further bytes belong to the white space character, or none at all.
pub data Space : Type 0 where
  no_space : Space
  space_of : ℕ → Space

space_left : Text → Space
unfolding ascii_space space_width2 space_width3
space_left [] = no_space
space_left (a ∷ []) = if ascii_space a then space_of 0 else no_space
space_left (a ∷ b ∷ []) =
    if ascii_space a then space_of 0 else if space_width2 a b then space_of 1 else no_space
space_left (a ∷ b ∷ c ∷ bs) =
    if ascii_space a
    then space_of 0
    else if space_width2 a b
    then space_of 1
    else if space_width3 a b c
    then space_of 2
    else no_space

-- The same at the end of a text, which is given from its last byte on.
space_right : Text → Space
unfolding ascii_space space_width2 space_width3
space_right [] = no_space
space_right (a ∷ []) = if ascii_space a then space_of 0 else no_space
space_right (a ∷ b ∷ []) =
    if ascii_space a then space_of 0 else if space_width2 b a then space_of 1 else no_space
space_right (a ∷ b ∷ c ∷ bs) =
    if ascii_space a
    then space_of 0
    else if space_width2 b a
    then space_of 1
    else if space_width3 c b a
    then space_of 2
    else no_space

trim_with : (Text → Space) → ℕ → Text → Text
trim_with space skip [] = []
trim_with space (suc skip) (b ∷ bs) = trim_with space skip bs
trim_with space zero (b ∷ bs) = elim (space (b ∷ bs)) [
  | no_space ↦ b ∷ bs
  | space_of more ↦ trim_with space more bs
]

-- `strings.TrimSpace`.
unfoldable pub trim_space : Text → Text
unfolding trim_with space_left space_right
trim_space s = reverse (trim_with space_right 0 (reverse (trim_with space_left 0 s)))

trim_space_test : trim_space (codes "  a b ") ≡ codes "a b"
unfolding trim_space
trim_space_test = refl
