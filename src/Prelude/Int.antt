-- ===== src/Prelude/Int.antt =====
-- Signed integers over the native numbers, under the library's names (its ℤ stands on another ℕ).
use go_feather_route.Prelude.Tests.{ltb, if◌then◌else◌}
use Prim.Native.Nat.{ℕ, zero, suc, ◌+◌, ◌-◌, ◌%◌, ◌^◌, ◌<◌}
use mathlib.Core.Path.{◌≡◌}
use mathlib.Core.Bool.{Bool, true, false}
use native.Mathlib.Omega.{arith}

-- `negsuc n` is -(n + 1).
pub data ℤ : Type 0 where
  pos : ℕ → ℤ
  negsuc : ℕ → ℤ

-- x < 0
abbrev pub is_negative : ℤ → Bool
is_negative (pos n) = false
is_negative (negsuc n) = true

-- x <= 0
abbrev pub not_positive : ℤ → Bool
not_positive (pos zero) = true
not_positive (pos (suc n)) = false
not_positive (negsuc n) = true

-- The number of a signed integer that is not negative, and 0 of one that is.
abbrev pub to_nat : ℤ → ℕ
to_nat (pos n) = n
to_nat (negsuc n) = 0

-- The int64 that stands for a number modulo 2^64.
abbrev pub to_int64 : ℕ → ℤ
to_int64 n = let r = n % 2 ^ 64 in if ltb r (2 ^ 63) then pos r else negsuc (2 ^ 64 - 1 - r)

-- uint64 addition, and int64 addition on bit patterns.
unfoldable pub add64 : ℕ → ℕ → ℕ
add64 a b = (a + b) % 2 ^ 64

-- The bit pattern of the int64 -1.
abbrev pub minus_one : ℕ
minus_one = 2 ^ 64 - 1

-- A gauge that is raised by one and lowered by one has its old value.
pub add64-add64-minus_one : (a : ℕ) → a < 2 ^ 64 → add64 (add64 a 1) minus_one ≡ a
unfolding add64
add64-add64-minus_one a h = omega arith

pub add64_lt : (a b : ℕ) → add64 a b < 2 ^ 64
unfolding add64
add64_lt a b = omega arith

-- The bit pattern of an int64.
abbrev pub to_bits : ℤ → ℕ
to_bits (pos n) = n % 2 ^ 64
to_bits (negsuc n) = 2 ^ 64 - 1 - n % 2 ^ 64

-- int64 addition
unfoldable pub add_int64 : ℤ → ℤ → ℤ
add_int64 a b = to_int64 (to_bits a + to_bits b)
