-- ===== src/Base/Trim.antt =====
-- `str::trim` of the standard library, on the bytes of UTF-8: the characters with the property
-- `White_Space` are dropped at both ends.
use Prim.Native.Nat.{ℕ, zero, suc}
use mathlib.Core.Bool.{Bool, ◌&&◌, ◌||◌}
use mathlib.Core.List.{[], ◌∷◌, reverse}
use passport_passwords.Base.Tests.{◌==◌, leb, if◌then◌else◌}
use passport_passwords.Base.Texts.{Text}
use passport_passwords.Base.Lists.{drop, length}

abbrev is_white_1 : ℕ → Bool
is_white_1 a = (leb 9 a && leb a 13) || a == 32

-- U+0085, U+00A0
abbrev is_white_2 : ℕ → ℕ → Bool
is_white_2 a b = a == 0xc2 && (b == 0x85 || b == 0xa0)

-- U+1680, U+2000 to U+200A, U+2028, U+2029, U+202F, U+205F, U+3000
abbrev is_white_3 : ℕ → ℕ → ℕ → Bool
is_white_3 a b c =
    (a == 0xe1 && b == 0x9a && c == 0x80)
    || (a == 0xe2
        && b == 0x80
        && ((leb 0x80 c && leb c 0x8a) || c == 0xa8 || c == 0xa9 || c == 0xaf))
    || (a == 0xe2 && b == 0x81 && c == 0x9f)
    || (a == 0xe3 && b == 0x80 && c == 0x80)

-- The number of bytes of the white space that a text starts with: 0, if it starts with none.
white_at_start : Text → ℕ
white_at_start [] = 0
white_at_start (a ∷ []) = if is_white_1 a then 1 else 0
white_at_start (a ∷ b ∷ []) = if is_white_1 a then 1 else if is_white_2 a b then 2 else 0
white_at_start (a ∷ b ∷ c ∷ s) =
    if is_white_1 a then 1 else if is_white_2 a b then 2 else if is_white_3 a b c then 3 else 0

-- The same for the end of a text that is given in reverse.
white_at_end : Text → ℕ
white_at_end [] = 0
white_at_end (c ∷ []) = if is_white_1 c then 1 else 0
white_at_end (c ∷ b ∷ []) = if is_white_1 c then 1 else if is_white_2 b c then 2 else 0
white_at_end (c ∷ b ∷ a ∷ s) =
    if is_white_1 c then 1 else if is_white_2 b c then 2 else if is_white_3 a b c then 3 else 0

-- Drop white space as long as there is some; there are no more of it than bytes.
strip : (Text → ℕ) → ℕ → Text → Text
strip white zero s = s
strip white (suc fuel) s = elim (white s) [ zero ↦ s | suc n ↦ strip white fuel (drop (suc n) s) ]

unfoldable pub trim : Text → Text
unfolding strip white_at_start white_at_end
trim s =
    let front = strip white_at_start (length s) s in
    reverse (strip white_at_end (length front) (reverse front))
