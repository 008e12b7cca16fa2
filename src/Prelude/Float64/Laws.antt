-- ===== src/Prelude/Float64/Laws.antt =====
-- Signs and finiteness of the float64 arithmetic, and the fuel of its rounding.
use go_feather_route.Prelude.Tests.{ltb, ltb→lt, Bool-cases}
use go_feather_route.Prelude.Int.{pos}
use go_feather_route.Prelude.Float64.{
  Float64, finite, infinite, not_a_number, is_finite, is_below_zero, one, largest, quantum, nearest,
  or_infinite, nearest_units, round, of_int, multiply, divide, add, sum_of_finite,
}
use Prim.Native.Nat.{ℕ, zero, suc, ◌+◌, ◌*◌, ◌/◌, ◌^◌, ◌<◌, ◌≤◌}
use mathlib.Core.Path.{◌≡◌, refl}
use mathlib.Core.Logic.{inl, inr}
use mathlib.Core.Bool.{Bool, true, false}
use native.Mathlib.Omega.{arith}
use native.Mathlib.Nat.{mul-le-mul_right, zero-div, zero-mod, mul-zero}

halved : (q u : ℕ) → (q + 1) * u ≤ (q / 2 + 1) * (2 * u)
halved q u = omega (arith, mul-le-mul_right {m = q + 1} {n = 2 * (q / 2 + 1)} u (omega arith))

-- With enough fuel the quotient that the quantum leaves has 53 bits.
pub quantum_fits :
    (fuel u q p : ℕ) → p < (q + 1) * u → q < 2 ^ 53 * 2 ^ fuel → p < 2 ^ 53 * quantum fuel u q
unfolding quantum
quantum_fits zero u q p below enough = let last : q + 1 ≤ 2 ^ 53 = omega arith in grind arith
quantum_fits (suc fuel) u q p below enough = elim (Bool-cases (ltb q (2 ^ 53))) [
  | inl small ↦ rw (small, quantum) (grind (arith, ltb→lt q (2 ^ 53)))
  | inr large ↦
      rw (large, quantum)
        (quantum_fits fuel (2 * u) (q / 2) p (omega (arith, halved q u)) (omega arith))
]

or_infinite_plus : (m : ℕ) → is_below_zero (or_infinite false m) ≡ false
unfolding or_infinite
or_infinite_plus m = elim (Bool-cases (ltb largest m)) [
  | inl over ↦ rw over refl
  | inr within ↦ rw within (plus m)
]
  where
    plus : (n : ℕ) → is_below_zero (finite false n) ≡ false
    plus zero = refl
    plus (suc n) = refl

nearest-zero : (d u : ℕ) → nearest 0 d u ≡ 0
unfolding nearest
nearest-zero d u = rw (zero-div (d * u), zero-mod (d * u)) (ground arith)

round_plus : (p d : ℕ) → is_below_zero (round false p d) ≡ false
unfolding round
round_plus p d = or_infinite_plus _

-- A zero keeps its sign.
round-zero : (s : Bool) (d : ℕ) → round s 0 d ≡ finite s 0
unfolding round nearest_units
round-zero s d = rw (nearest-zero d (quantum 4196 1 (0 / d))) (unfold or_infinite in refl)

-- The values that are not below zero are closed under the operations.
pub of_int_plus : (n : ℕ) → is_below_zero (of_int (pos n)) ≡ false
unfolding of_int round
of_int_plus n = or_infinite_plus _

pub divide_plus :
    (x : Float64) (n : ℕ) → is_below_zero x ≡ false → is_below_zero (divide x n) ≡ false
unfolding divide
divide_plus (finite false m) n h = round_plus _ _
divide_plus (finite true zero) n h = rw (round-zero true n) refl
divide_plus (finite true (suc m)) n h = cc
divide_plus (infinite s) n h = h
divide_plus not_a_number n h = refl

-- A product of a value that is not below zero and a positive one.
pub multiply_plus :
    (m : ℕ) (y : Float64)
    → is_below_zero y ≡ false
    → is_below_zero (multiply (finite false m) y) ≡ false
unfolding multiply
multiply_plus m (finite false n) h = round_plus _ _
multiply_plus m (finite true zero) h = rw (mul-zero m, round-zero true one) refl
multiply_plus m (finite true (suc n)) h = cc
multiply_plus zero (infinite t) h = refl
multiply_plus (suc m) (infinite t) h = h
multiply_plus m not_a_number h = refl

infinite_plus :
    (y : Float64) → is_below_zero y ≡ false → is_below_zero (multiply (infinite false) y) ≡ false
unfolding multiply
infinite_plus (finite t zero) h = refl
infinite_plus (finite t (suc n)) h = h
infinite_plus (infinite t) h = h
infinite_plus not_a_number h = refl

-- A product with a whole number that is not negative.
pub count_plus :
    (n : ℕ) (y : Float64)
    → is_below_zero y ≡ false
    → is_below_zero (multiply (of_int (pos n)) y) ≡ false
unfolding of_int round or_infinite
count_plus n y h = elim (Bool-cases (ltb largest (nearest_units (n * one) 1))) [
  | inl over ↦ rw over (infinite_plus y h)
  | inr within ↦ rw within (multiply_plus (nearest_units (n * one) 1) y h)
]

plus_zero : (m : ℕ) → is_below_zero (sum_of_finite false m true 0) ≡ false
plus_zero zero = refl
plus_zero (suc m) = ground (arith, round_plus (suc m) 1)

zero_plus : (n : ℕ) → is_below_zero (sum_of_finite true 0 false n) ≡ false
zero_plus zero = refl
zero_plus (suc n) = ground (arith, round_plus (suc n) 1)

pub add_plus :
    (x y : Float64)
    → is_below_zero x ≡ false
    → is_below_zero y ≡ false
    → is_below_zero (add x y) ≡ false
unfolding add
add_plus (finite false m) (finite false n) hx hy = round_plus _ _
add_plus (finite false m) (finite true zero) hx hy = plus_zero m
add_plus (finite true zero) (finite false n) hx hy = zero_plus n
add_plus (finite true zero) (finite true zero) hx hy = rw (round-zero true 1) refl
add_plus (finite true (suc m)) y hx hy = cc
add_plus (finite s m) (finite true (suc n)) hx hy = cc
add_plus (finite s m) (infinite t) hx hy = hy
add_plus (finite s m) not_a_number hx hy = refl
add_plus (infinite s) (finite t n) hx hy = hx
add_plus (infinite s) (infinite t) hx hy = rw (hx, hy) refl
add_plus (infinite s) not_a_number hx hy = refl
add_plus not_a_number y hx hy = refl

-- A finite result has finite operands.
pub add-is_finite :
    (x y : Float64) → is_finite (add x y) ≡ true → (is_finite x ≡ true) × (is_finite y ≡ true)
unfolding add
add-is_finite (finite s m) (finite t n) h = (refl, refl)
add-is_finite (finite s m) (infinite t) h = cc
add-is_finite (finite s m) not_a_number h = cc
add-is_finite (infinite s) (finite t n) h = cc
add-is_finite (infinite s) (infinite t) h = ground arith
add-is_finite (infinite s) not_a_number h = cc
add-is_finite not_a_number y h = cc

pub multiply-is_finite :
    (x y : Float64) → is_finite (multiply x y) ≡ true → (is_finite x ≡ true) × (is_finite y ≡ true)
unfolding multiply
multiply-is_finite (finite s m) (finite t n) h = (refl, refl)
multiply-is_finite (finite s zero) (infinite t) h = cc
multiply-is_finite (finite s (suc m)) (infinite t) h = cc
multiply-is_finite (finite s m) not_a_number h = cc
multiply-is_finite (infinite s) (finite t zero) h = cc
multiply-is_finite (infinite s) (finite t (suc n)) h = cc
multiply-is_finite (infinite s) (infinite t) h = ground arith
multiply-is_finite (infinite s) not_a_number h = cc
multiply-is_finite not_a_number y h = cc

pub divide-is_finite : (x : Float64) (n : ℕ) → is_finite (divide x n) ≡ true → is_finite x ≡ true
unfolding divide
divide-is_finite (finite s m) n h = refl
divide-is_finite (infinite s) n h = cc
divide-is_finite not_a_number n h = cc
