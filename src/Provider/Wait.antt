-- ===== src/Provider/Wait.antt =====
-- How long a retry waits: `waitForRetry`.
use go_feather_route.Prelude.{
  ℕ, ◌+◌, ◌^◌, ◌*◌, Option, none, some, Bytes, codes, is_empty, ltb, if◌then◌else◌,
}
use go_feather_route.Prelude.Int.{ℤ, pos, negsuc, to_int64}
use go_feather_route.Prelude.Numbers.{atoi, trim_space}
use go_feather_route.Prelude.Dict.{get_or, bytes_eq}
use go_feather_route.Wire.{Headers, header_get, Cause}
use go_feather_route.Provider.{World, millisecond, second}

-- The delay that a Retry-After header asks for, in nanoseconds modulo 2^64.
unfoldable pub requested_delay : World → Bytes → ℤ
requested_delay world retry_after = elim (atoi retry_after) [
  | some (pos seconds) ↦ to_int64 (seconds * second)
  | _ ↦ elim (world.parse_time retry_after) [ some left ↦ left | none ↦ pos (100 * millisecond) ]
]

abbrev pub min_attempt : ℕ → ℕ
min_attempt attempt = if ltb attempt 4 then attempt else 4

-- A delay between nothing and half a second.
abbrev pub clamp_delay : ℤ → ℕ
clamp_delay (negsuc n) = 0
clamp_delay (pos n) = if ltb (500 * millisecond) n then 500 * millisecond else n

unfoldable pub retry_after : Headers → Bytes
retry_after headers = trim_space (header_get headers (codes "Retry-After"))

-- The delay before it is clamped.
unfoldable pub wanted_delay : World → Headers → ℕ → ℤ
unfolding requested_delay
wanted_delay world headers attempt =
    if is_empty (retry_after headers)
    then (if ltb 0 attempt
        then pos (100 * millisecond * 2 ^ min_attempt attempt)
        else pos (100 * millisecond))
    else requested_delay world (retry_after headers)

unfoldable pub retry_delay : World → Headers → ℕ → ℕ
unfolding wanted_delay
retry_delay world headers attempt =
    clamp_delay (wanted_delay world headers attempt) + get_or (world.jitter attempt) 0

unfoldable pub wait_for_retry : World → Headers → ℕ → Option Cause
unfolding retry_delay
wait_for_retry world headers attempt = world.wait attempt (retry_delay world headers attempt)
