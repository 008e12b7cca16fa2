-- ===== src/Prelude/Numbers/Printed.antt =====
-- Numbers that are printed and read back.
use Prim.Native.Nat.{ℕ, zero, suc, ◌+◌, ◌-◌, ◌*◌, ◌/◌, ◌%◌, ◌<◌, ◌≤◌}
use mathlib.Core.Path.{◌≡◌, ◌∙◌, ap}
use mathlib.Core.Logic.{◌≢◌, inl, inr}
use mathlib.Core.Bool.{false, ◌&&◌}
use mathlib.Core.Option.{Option, none, some}
use mathlib.Core.List.{[], ◌∷◌, ◌++◌}
use native.Mathlib.Omega.{arith}
use go_feather_route.Prelude.Tests.{ltb, leb, ◌==◌, Bool-cases, if◌then◌else◌}
use go_feather_route.Prelude.Strings.{Bytes}
use go_feather_route.Prelude.Lists.{length, length-append, All, All-append}
use go_feather_route.Prelude.Int.{ℤ, pos, negsuc}
use go_feather_route.Prelude.Numbers.{digits, number, print_digits, print_nat, print_int}

-- The digits read so far, after one more text of digits.
digits-append : (n : ℕ) (s t : Bytes) (m : ℕ) → digits n s ≡ some m → digits n (s ++ t) ≡ digits m t
unfolding digits
digits-append n [] t m h = ap (λ k. digits k t) cc
digits-append n (c ∷ s) t m h = elim (Bool-cases (leb b'0' c && leb c b'9')) [
  | inl digit ↦ rw digit (digits-append (n * 10 + (c - b'0')) s t m (rw digit at h))
  | inr strange ↦ absurd (cc (rw strange at h))
]

digits-single : (n d : ℕ) → d < 10 → digits n ((b'0' + d) ∷ []) ≡ some (n * 10 + d)
unfolding digits
digits-single n d h = ground arith

digits-print_digits : (fuel n : ℕ) → n < fuel → digits 0 (print_digits fuel n) ≡ some n
unfolding print_digits
digits-print_digits zero n h = absurd (omega arith)
digits-print_digits (suc fuel) n h = elim (Bool-cases (ltb n 10)) [
  | inl small ↦ rw (small, print_digits) (digits-single 0 n (ground arith) ∙ ap some (omega arith))
  | inr large ↦
      rw (large, print_digits)
        (digits-append 0 (print_digits fuel (n / 10)) ((b'0' + n % 10) ∷ []) (n / 10)
            (digits-print_digits fuel (n / 10) (ground arith))
          ∙ digits-single (n / 10) (n % 10) (omega arith)
          ∙ ap some (omega arith))
]

number_lem : (s : Bytes) (n : ℕ) → 1 ≤ length s → digits 0 s ≡ some n → number s ≡ some n
unfolding number
number_lem [] n h e = absurd (omega arith)
number_lem (c ∷ s) n h e = e

print_nat_nonempty : (n : ℕ) → 1 ≤ length (print_nat n)
unfolding print_nat print_digits
print_nat_nonempty n = elim (Bool-cases (ltb n 10)) [
  | inl small ↦ rw (small, length) (omega arith)
  | inr large ↦
      rw (large, length)
        (omega (arith, length-append (print_digits n (n / 10)) ((b'0' + n % 10) ∷ [])))
]

digits-print_nat : (n : ℕ) → digits 0 (print_nat n) ≡ some n
unfolding print_nat
digits-print_nat n = digits-print_digits (suc n) n (omega arith)

pub number-print_nat : (n : ℕ) → number (print_nat n) ≡ some n
number-print_nat n = number_lem (print_nat n) n (print_nat_nonempty n) (digits-print_nat n)

-- Digits, which are neither a sign nor white space.
abbrev IsDigit : ℕ → Type 0
IsDigit c = (b'0' ≤ c) × (c ≤ b'9')

print_digits-IsDigit : (fuel n : ℕ) → All IsDigit (print_digits fuel n)
unfolding print_digits
print_digits-IsDigit zero n = tt
print_digits-IsDigit (suc fuel) n = elim (Bool-cases (ltb n 10)) [
  | inl small ↦ rw (small, print_digits) ((omega arith, ground arith), tt)
  | inr large ↦
      rw (large, print_digits)
        (All-append IsDigit (print_digits fuel (n / 10)) ((b'0' + n % 10) ∷ [])
          (print_digits-IsDigit fuel (n / 10)) ((omega arith, omega arith), tt))
]

-- A sign and digits, read without a bound.
abbrev pub negated : Option ℕ → Option ℤ
negated none = none
negated (some zero) = some (pos 0)
negated (some (suc n)) = some (negsuc n)

abbrev pub positive : Option ℕ → Option ℤ
positive none = none
positive (some n) = some (pos n)

unfoldable pub read_int : Bytes → Option ℤ
read_int [] = none
read_int (c ∷ s) = if c == b'-' then negated (number s) else positive (number (c ∷ s))

not_sign : (c : ℕ) → IsDigit c → (c == b'-') ≡ false
not_sign c (above, below) = ground arith

unsigned : (s : Bytes) (n : ℕ) → All IsDigit s → number s ≡ some n → read_int s ≡ some (pos n)
unfolding read_int number
unsigned [] n h e = absurd (cc e)
unsigned (c ∷ s) n (d, h) e = rw (not_sign c d) (ap positive e)

pub read_int-print_int : (z : ℤ) → read_int (print_int z) ≡ some z
unfolding print_int read_int print_nat
read_int-print_int (pos n) =
    unsigned (print_nat n) n (print_digits-IsDigit (suc n) n) (number-print_nat n)
read_int-print_int (negsuc n) = ap negated (number-print_nat (suc n))

-- What a printed number does not hold.
abbrev pub IsSolid : ℕ → Type 0
IsSolid c = (c ≢ 32) × (c ≢ 10)

digits-IsSolid : (s : Bytes) → All IsDigit s → All IsSolid s
digits-IsSolid [] h = tt
digits-IsSolid (c ∷ s) ((above, below), h) =
    ((λ e. omega arith, λ e. omega arith), digits-IsSolid s h)

pub print_int-IsSolid : (z : ℤ) → All IsSolid (print_int z)
unfolding print_int print_nat
print_int-IsSolid (pos n) = digits-IsSolid (print_nat n) (print_digits-IsDigit (suc n) n)
print_int-IsSolid (negsuc n) = (
  (λ e. omega arith, λ e. omega arith),
  digits-IsSolid (print_nat (suc n)) (print_digits-IsDigit (suc (suc n)) (suc n)),
)
