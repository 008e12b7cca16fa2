-- ===== src/Provider/Delay.antt =====
-- How long a retry waits.
use go_feather_route.Prelude.{
  ℕ, ◌+◌, ◌*◌, ◌^◌, ◌≤◌, ◌<◌, ◌≡◌, true, some, [], ◌∷◌, Bytes, is_empty, Bool-cases, inl, inr,
  arith,
}
use go_feather_route.Prelude.Int.{ℤ, pos, negsuc, to_int64}
use go_feather_route.Prelude.Dict.{get_or}
use go_feather_route.Prelude.Numbers.{atoi}
use go_feather_route.Wire.{Headers}
use go_feather_route.Provider.{World, millisecond, second}
use go_feather_route.Provider.Wait.{
  clamp_delay, retry_after, requested_delay, wanted_delay, retry_delay,
}

clamp_delay_le : (d : ℤ) → clamp_delay d ≤ 500000000
clamp_delay_le (pos n) = ground arith
clamp_delay_le (negsuc n) = omega arith

-- Whatever the upstream's headers say, a retry waits at most half a second and the jitter.
pub retry_delay-le :
    (world : World) (headers : Headers) (attempt : ℕ)
    → retry_delay world headers attempt ≤ 500 * millisecond + get_or (world.jitter attempt) 0
unfolding retry_delay
retry_delay-le world headers attempt =
    omega (arith, clamp_delay_le (wanted_delay world headers attempt))

clamp_seconds :
    (n : ℕ) → 1 ≤ n → n * second < 2 ^ 63 → clamp_delay (to_int64 (n * second)) ≡ 500000000
clamp_seconds n h k = ground arith

clamp_seconds_wrapped :
    (n : ℕ) → 2 ^ 63 ≤ n * second → n * second < 2 ^ 64 → clamp_delay (to_int64 (n * second)) ≡ 0
clamp_seconds_wrapped n h k = ground arith

atoi-nil : (s : Bytes) {n : ℤ} → is_empty s ≡ true → atoi s ≡ some n → ⊥
unfolding atoi
atoi-nil [] h k = cc
atoi-nil (c ∷ s) h k = cc

wanted_delay-seconds :
    (world : World) (headers : Headers) (attempt n : ℕ)
    → atoi (retry_after headers) ≡ some (pos n)
    → wanted_delay world headers attempt ≡ to_int64 (n * second)
unfolding wanted_delay
wanted_delay-seconds world headers attempt n h =
    elim (Bool-cases (is_empty (retry_after headers))) [
      | inr given ↦ rw (given) (rw (h, requested_delay))
      | inl missing ↦ absurd (atoi-nil (retry_after headers) missing h)
    ]

-- A retry waits half a second and the jitter for every positive number of seconds that the upstream
-- asks for, while that number of nanoseconds fits an int64.
pub retry_delay-seconds :
    (world : World) (headers : Headers) (attempt n : ℕ)
    → atoi (retry_after headers) ≡ some (pos n)
    → 1 ≤ n
    → n * second < 2 ^ 63
    → retry_delay world headers attempt ≡ 500 * millisecond + get_or (world.jitter attempt) 0
unfolding retry_delay
retry_delay-seconds world headers attempt n h some_time fits =
    rw (wanted_delay-seconds world headers attempt n h) (rw (clamp_seconds n some_time fits))

-- Where that number of nanoseconds passes an int64 and stays below 2^64, it wraps to a negative
-- duration, and the retry waits for the jitter only.
pub retry_delay-wrapped :
    (world : World) (headers : Headers) (attempt n : ℕ)
    → atoi (retry_after headers) ≡ some (pos n)
    → 2 ^ 63 ≤ n * second
    → n * second < 2 ^ 64
    → retry_delay world headers attempt ≡ get_or (world.jitter attempt) 0
unfolding retry_delay
retry_delay-wrapped world headers attempt n h long below =
    rw (wanted_delay-seconds world headers attempt n h)
      (rw (clamp_seconds_wrapped n long below) (omega arith))
