-- ===== src/Prelude/Float64/Tests.antt =====
-- Runs of the float64 arithmetic.
use go_feather_route.Prelude.Int.{pos}
use go_feather_route.Prelude.Float64.{
  Float64, finite, infinite, one, largest, quantum, nearest, nearest_units, or_infinite, round,
  of_int, multiply, divide,
}
use Prim.Native.Nat.{◌*◌, ◌^◌}
use mathlib.Core.Bool.{false}
use mathlib.Core.Path.{◌≡◌, refl}

abbrev tenth : Float64
tenth = finite false (3602879701896397 * 2 ^ 1019)

-- 3 * 0.1 is 0.30000000000000004.
three_tenths : multiply (of_int (pos 3)) tenth ≡ finite false (5404319552844596 * 2 ^ 1020)
unfolding multiply of_int round nearest_units or_infinite nearest quantum
three_tenths = refl

-- 1 / 1000000 is 1e-06.
micro : divide (finite false one) 1000000 ≡ finite false (4722366482869645 * 2 ^ 1002)
unfolding divide round nearest_units or_infinite nearest quantum
micro = refl

overflow : multiply (finite false largest) (of_int (pos 2)) ≡ infinite false
unfolding multiply of_int round nearest_units or_infinite nearest quantum
overflow = refl
