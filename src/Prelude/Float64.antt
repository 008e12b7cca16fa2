-- ===== src/Prelude/Float64.antt =====
-- float64 values and the arithmetic on them that the program does, rounded to nearest even.
pub mod Laws
mod Tests
use go_feather_route.Prelude.Tests.{ltb, ◌==◌, if◌then◌else◌}
use go_feather_route.Prelude.Int.{ℤ, pos, negsuc}
use Prim.Native.Nat.{ℕ, zero, suc, ◌+◌, ◌-◌, ◌*◌, ◌/◌, ◌%◌, ◌^◌}
use mathlib.Core.Bool.{Bool, true, false, not, ◌&&◌, ◌||◌}

-- A finite value is a sign, true for minus, and a number of units of 2 ^ -1074.
pub data Float64 : Type 0 where
  finite : Bool → ℕ → Float64
  infinite : Bool → Float64
  not_a_number : Float64

abbrev pub is_finite : Float64 → Bool
is_finite (finite _ _) = true
is_finite _ = false

-- x < 0, which neither -0 nor NaN is
abbrev pub is_below_zero : Float64 → Bool
is_below_zero (finite minus zero) = false
is_below_zero (finite minus (suc m)) = minus
is_below_zero (infinite minus) = minus
is_below_zero not_a_number = false

abbrev pub differ : Bool → Bool → Bool
differ a b = if a then not b else b

-- The units of the value 1, and those of the largest finite value.
abbrev pub one : ℕ
one = 2 ^ 1074

abbrev pub largest : ℕ
largest = (2 ^ 53 - 1) * 2 ^ 2045

-- The least doubling of `u` that leaves a quotient of 53 bits.
unfoldable pub quantum : ℕ → ℕ → ℕ → ℕ
quantum zero u q = u
quantum (suc fuel) u q = elim (ltb q (2 ^ 53)) [ true ↦ u | false ↦ quantum fuel (2 * u) (q / 2) ]

-- The multiple of `u` that is nearest to the quotient of two numbers, an even one of two.
unfoldable pub nearest : ℕ → ℕ → ℕ → ℕ
nearest p d u =
    let q = p / (d * u) in
    let rest = 2 * (p % (d * u)) in
    let up = ltb (d * u) rest || (rest == d * u) && (q % 2 == 1) in (if up then q + 1 else q) * u

-- The fuel is the number of bits of a product of two values.
unfoldable pub nearest_units : ℕ → ℕ → ℕ
nearest_units p d = nearest p d (quantum 4196 1 (p / d))

unfoldable pub or_infinite : Bool → ℕ → Float64
or_infinite minus m = if ltb largest m then infinite minus else finite minus m

-- A quotient of numbers as a float64.
unfoldable pub round : Bool → ℕ → ℕ → Float64
round minus p d = or_infinite minus (nearest_units p d)

-- float64(n)
unfoldable pub of_int : ℤ → Float64
unfolding round
of_int (pos n) = round false (n * one) 1
of_int (negsuc n) = round true ((n + 1) * one) 1

unfoldable pub multiply : Float64 → Float64 → Float64
unfolding round
multiply (finite s m) (finite t n) = round (differ s t) (m * n) one
multiply (finite s zero) (infinite t) = not_a_number
multiply (finite s (suc m)) (infinite t) = infinite (differ s t)
multiply (infinite s) (finite t zero) = not_a_number
multiply (infinite s) (finite t (suc n)) = infinite (differ s t)
multiply (infinite s) (infinite t) = infinite (differ s t)
multiply not_a_number y = not_a_number
multiply x not_a_number = not_a_number

-- x / n for a positive whole number n that is a float64
unfoldable pub divide : Float64 → ℕ → Float64
unfolding round
divide (finite s m) n = round s m n
divide x n = x

-- The sum of opposite values is +0.
abbrev pub sum_of_finite : Bool → ℕ → Bool → ℕ → Float64
sum_of_finite s m t n =
    if not (differ s t)
    then round s (m + n) 1
    else if m == n
    then finite false 0
    else if ltb m n
    then round t (n - m) 1
    else round s (m - n) 1

unfoldable pub add : Float64 → Float64 → Float64
unfolding round
add (finite s m) (finite t n) = sum_of_finite s m t n
add (finite s m) (infinite t) = infinite t
add (infinite s) (finite t n) = infinite s
add (infinite s) (infinite t) = if differ s t then not_a_number else infinite s
add not_a_number y = not_a_number
add x not_a_number = not_a_number
