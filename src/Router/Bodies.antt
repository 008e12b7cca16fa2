-- ===== src/Router/Bodies.antt =====
-- Bounded reads of an upstream body.
use go_feather_route.Prelude.{
  ℕ, zero, suc, ◌+◌, ◌-◌, ◌^◌, ◌<◌, ◌≡◌, Bool, false, not, ◌&&◌, ◌||◌, Option, none, some, [],
  Bytes, length, length-take, take, leb, refl, ltb, if◌then◌else◌, arith,
}
use go_feather_route.Prelude.Int.{ℤ, pos, negsuc, to_int64, not_positive, to_nat}
use go_feather_route.Wire.{Body, is_eof, content}

-- io.ReadAll(io.LimitReader(body, n)): the first n bytes with no error where the body has them, and
-- all of it with its error where it ends before. A limit that is not positive reads nothing.
unfoldable pub read_all_limited : Body → ℤ → Bytes × Bool
unfolding content
read_all_limited body limit =
    if leb (to_nat limit) (length (content body))
    then (take (to_nat limit) (content body), false)
    else (content body, not (is_eof body.cause))

-- The limit is an int64, and so is limit + 1. The flag is false where the Go function says so.
unfoldable pub read_bounded : Body → ℤ → Option Bytes
unfolding read_all_limited
read_bounded body limit =
    if not_positive limit
    then none
    else (let (data', failed) = read_all_limited body (to_int64 (to_nat limit + 1)) in
        if failed || ltb (to_nat limit) (length data') then none else some data')

length-take_lt :
    (limit : ℕ) (s : Bytes) → limit < length s → length (take (limit + 1) s) ≡ limit + 1
length-take_lt limit s h = omega (arith, length-take (limit + 1) s)

-- Below the largest int64, a bounded read gives the whole body exactly where the limit is positive and
-- the body ends without an error and is no longer than the limit, and nothing elsewhere: also an empty
-- body is refused where the limit is 0 or negative.
pub read_bounded-eq :
    (body : Body) (limit : ℕ)
    → limit + 1 < 2 ^ 63
    → (read_bounded body (pos limit) ≡ (
        if ltb 0 limit && is_eof body.cause && leb (length (content body)) limit
        then some (content body)
        else none))
      × (read_bounded body (negsuc limit) ≡ none)
unfolding read_bounded
read_bounded-eq body zero k = (refl, refl)
read_bounded-eq body (suc n) k = (ground (arith, length-take_lt (suc n) (content body)), refl)

-- At the largest int64 the limit of the reader wraps to a negative number, and every body, also one
-- that ends in an error, reads as empty.
pub read_bounded-max : (body : Body) → read_bounded body (pos (2 ^ 63 - 1)) ≡ some []
unfolding read_bounded
read_bounded-max body = ground arith
