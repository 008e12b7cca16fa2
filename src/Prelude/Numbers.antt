-- ===== src/Prelude/Numbers.antt =====
-- strconv.Atoi, which is strconv.ParseInt(s, 10, 64) on a 64-bit machine, and strings.TrimSpace.
pub mod Printed
use Prim.Native.Nat.{ℕ, zero, suc, ◌+◌, ◌-◌, ◌*◌, ◌/◌, ◌%◌, ◌^◌}
use mathlib.Core.Bool.{Bool, true, false, ◌&&◌, ◌||◌}
use mathlib.Core.Option.{Option, none, some}
use mathlib.Core.List.{[], ◌∷◌, ◌++◌, reverse}
use go_feather_route.Prelude.Tests.{◌==◌, ltb, leb, if◌then◌else◌}
use go_feather_route.Prelude.Strings.{Bytes}
use go_feather_route.Prelude.Int.{ℤ, pos, negsuc}

unfoldable pub digits : ℕ → Bytes → Option ℕ
digits n [] = some n
digits n (c ∷ s) = if leb b'0' c && leb c b'9' then digits (n * 10 + (c - b'0')) s else none

unfoldable pub number : Bytes → Option ℕ
unfolding digits
number [] = none
number (c ∷ s) = digits 0 (c ∷ s)

abbrev pub in_range_pos : Option ℕ → Option ℤ
in_range_pos none = none
in_range_pos (some n) = if ltb n (2 ^ 63) then some (pos n) else none

abbrev pub in_range_neg : Option ℕ → Option ℤ
in_range_neg none = none
in_range_neg (some zero) = some (pos 0)
in_range_neg (some (suc n)) = if ltb n (2 ^ 63) then some (negsuc n) else none

unfoldable pub atoi : Bytes → Option ℤ
unfolding number
atoi [] = none
atoi (c ∷ s) =
    if c == b'-'
    then in_range_neg (number s)
    else if c == b'+'
    then in_range_pos (number s)
    else in_range_pos (number (c ∷ s))

-- The white space of ASCII.
unfoldable pub is_space : ℕ → Bool
is_space c = (c == 32) || (leb 9 c && leb c 13)

-- The second and the third byte of the white space outside of ASCII that takes three bytes: U+1680, U+2000
-- to U+200A, U+2028, U+2029, U+202F, U+205F and U+3000.
unfoldable pub is_wide_space : ℕ → ℕ → ℕ → Bool
is_wide_space a b c =
    (a == 0xE1) && (b == 0x9A) && (c == 0x80)
    || (a == 0xE2)
      && (b == 0x80)
      && (leb 0x80 c && leb c 0x8A || (c == 0xA8) || (c == 0xA9) || (c == 0xAF))
    || (a == 0xE2) && (b == 0x81) && (c == 0x9F)
    || (a == 0xE3) && (b == 0x80) && (c == 0x80)

-- How many bytes the white space takes that a text begins with, in UTF-8. U+0085 and U+00A0 take two.
unfoldable pub space_width : Bytes → ℕ
unfolding is_space is_wide_space
space_width [] = 0
space_width (a ∷ []) = if is_space a then 1 else 0
space_width (a ∷ b ∷ []) =
    if is_space a then 1 else if (a == 0xC2) && ((b == 0x85) || (b == 0xA0)) then 2 else 0
space_width (a ∷ b ∷ c ∷ s) =
    if is_space a
    then 1
    else if (a == 0xC2) && ((b == 0x85) || (b == 0xA0))
    then 2
    else if is_wide_space a b c
    then 3
    else 0

-- The same of the white space that a text ends with, for the text in reverse.
unfoldable pub space_width_back : Bytes → ℕ
unfolding is_space is_wide_space
space_width_back [] = 0
space_width_back (a ∷ []) = if is_space a then 1 else 0
space_width_back (b ∷ a ∷ []) =
    if is_space b then 1 else if (a == 0xC2) && ((b == 0x85) || (b == 0xA0)) then 2 else 0
space_width_back (c ∷ b ∷ a ∷ s) =
    if is_space c
    then 1
    else if (b == 0xC2) && ((c == 0x85) || (c == 0xA0))
    then 2
    else if is_wide_space a b c
    then 3
    else 0

-- The text without the white space at its start, as `width` measures it; the first bytes, as many as are
-- given, belong to it.
unfoldable pub trim_with : (Bytes → ℕ) → ℕ → Bytes → Bytes
trim_with width skip [] = []
trim_with width (suc skip) (c ∷ s) = trim_with width skip s
trim_with width zero (c ∷ s) = elim (width (c ∷ s)) [
  | zero ↦ c ∷ s
  | suc rest ↦ trim_with width rest s
]

-- strings.TrimSpace, with the white space of package unicode.
unfoldable pub trim_space : Bytes → Bytes
unfolding trim_with space_width space_width_back
trim_space s = reverse (trim_with space_width_back 0 (reverse (trim_with space_width 0 s)))

-- A number in decimal, as fmt prints it with %d. A number is more than its tenth, so that as much
-- fuel as the number itself is enough.
unfoldable pub print_digits : ℕ → ℕ → Bytes
print_digits zero n = []
print_digits (suc fuel) n = elim (ltb n 10) [
  | true ↦ (b'0' + n) ∷ []
  | false ↦ print_digits fuel (n / 10) ++ ((b'0' + n % 10) ∷ [])
]

unfoldable pub print_nat : ℕ → Bytes
unfolding print_digits
print_nat n = print_digits (suc n) n

unfoldable pub print_int : ℤ → Bytes
unfolding print_nat
print_int (pos n) = print_nat n
print_int (negsuc n) = b'-' ∷ print_nat (suc n)
