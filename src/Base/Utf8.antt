-- ===== src/Base/Utf8.antt =====
-- `String::from_utf8` of the standard library: which bytes are UTF-8.
use Prim.Native.Nat.{ℕ}
use mathlib.Core.Bool.{Bool, true, false, ◌&&◌, ◌||◌}
use mathlib.Core.Option.{Option, none, some}
use mathlib.Core.List.{List, [], ◌∷◌}
use passport_passwords.Base.Tests.{◌==◌, leb, ltb, if◌then◌else◌}
use passport_passwords.Base.Texts.{Text}

abbrev within : ℕ → ℕ → ℕ → Bool
within lo hi b = leb lo b && leb b hi

-- The ranges of the bytes that must follow a first byte.
lead : ℕ → Option (List (ℕ × ℕ))
lead b =
    let tail : List (ℕ × ℕ) = (0x80, 0xbf) ∷ [] in
    let tails : List (ℕ × ℕ) = (0x80, 0xbf) ∷ (0x80, 0xbf) ∷ [] in
    if ltb b 0x80
    then some []
    else if within 0xc2 0xdf b
    then some tail
    else if b == 0xe0
    then some ((0xa0, 0xbf) ∷ tail)
    else if within 0xe1 0xec b || within 0xee 0xef b
    then some tails
    else if b == 0xed
    then some ((0x80, 0x9f) ∷ tail)
    else if b == 0xf0
    then some ((0x90, 0xbf) ∷ tails)
    else if within 0xf1 0xf3 b
    then some ((0x80, 0xbf) ∷ tails)
    else if b == 0xf4
    then some ((0x80, 0x8f) ∷ tails)
    else none

utf8_from : List (ℕ × ℕ) → Text → Bool
utf8_from [] [] = true
utf8_from (_ ∷ _) [] = false
utf8_from [] (b ∷ s) = elim (lead b) [ none ↦ false | some ranges ↦ utf8_from ranges s ]
utf8_from ((lo, hi) ∷ ranges) (b ∷ s) = within lo hi b && utf8_from ranges s

unfoldable pub valid_utf8 : Text → Bool
unfolding lead utf8_from
valid_utf8 = utf8_from []
