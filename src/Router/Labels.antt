-- ===== src/Router/Labels.antt =====
-- The labels of metrics and log lines, and request IDs.
pub mod Bounds
use go_feather_route.Prelude.{
  ℕ, zero, suc, ◌+◌, ◌/◌, ◌%◌, ◌≤◌, ◌<◌, ◌≡◌, ◌↔◌, refl, Bool, true, false, not, ◌&&◌, ◌||◌, Option,
  none, some, List, [], ◌∷◌, ◌++◌, Bytes, codes, str_eq, is_empty, length, leb, ltb, ◌==◌,
  if◌then◌else◌, Bool-cases, inl, inr, arith, All, all, ap,
}

abbrev pub max_metric_label_length : ℕ
max_metric_label_length = 64

-- A byte of a label that is kept. A byte from 0x80 on belongs to a rune from U+0080 on, or to the
-- replacement rune of an invalid encoding, and neither is kept.
unfoldable pub is_label_byte : ℕ → Bool
is_label_byte c =
    (leb b'a' c && leb c b'z')
    || (leb b'A' c && leb c b'Z')
    || (leb b'0' c && leb c b'9')
    || (c == b'_')
    || (c == b'-')
    || (c == b'.')
    || (c == b':')

unfoldable pub bounded_metric_label : Bytes → Bytes
unfolding is_label_byte
bounded_metric_label value =
    if is_empty value || ltb max_metric_label_length (length value)
    then codes "other"
    else if all is_label_byte value
    then value
    else codes "other"

-- The replacements of escapeMetricLabel: the raw literals are two backslashes for four, a quote for
-- two backslashes and a quote, and a line feed for two backslashes and an n.
unfoldable pub escape_metric_label : Bytes → Bytes
escape_metric_label [] = []
escape_metric_label (c ∷ []) =
    if c == b'"' then codes "\\\\\"" else if c == 10 then codes "\\\\n" else c ∷ []
escape_metric_label (c ∷ d ∷ s) =
    let pair = escape_metric_label s in
    let rest = escape_metric_label (d ∷ s) in
    if (c == 92) && (d == 92)
    then codes "\\\\\\\\" ++ pair
    else if c == b'"'
    then codes "\\\\\"" ++ rest
    else if c == 10
    then codes "\\\\n" ++ rest
    else c ∷ rest

unfoldable pub is_safe_byte : ℕ → Bool
is_safe_byte c = leb 0x21 c && leb c 0x7e

unfoldable pub is_safe_request_id : Bytes → Bool
unfolding is_safe_byte
is_safe_request_id value =
    if is_empty value || ltb 128 (length value) then false else all is_safe_byte value

abbrev hex_digit : ℕ → ℕ
hex_digit n = if ltb n 10 then b'0' + n else 87 + n

-- hex.EncodeToString
unfoldable pub hex_encode : Bytes → Bytes
hex_encode [] = []
hex_encode (b ∷ s) = hex_digit (b / 16) ∷ hex_digit (b % 16) ∷ hex_encode s

-- A positive number in decimal, by as many digits as there is fuel for.
decimal : ℕ → ℕ → Bytes
decimal zero n = []
decimal (suc fuel) n =
    let more = decimal fuel (n / 10) in
    if ltb n 10 then (b'0' + n) ∷ [] else more ++ (b'0' + n % 10) ∷ []

-- The candidate, if it is safe; else 16 random bytes in hexadecimal, and the clock's nanoseconds
-- where the random source fails. An int64 has 19 digits at most.
unfoldable pub request_id : Bytes → Option Bytes → ℕ → Bytes
unfolding is_safe_request_id hex_encode decimal
request_id candidate random now =
    if is_safe_request_id candidate
    then candidate
    else elim random [ some value ↦ hex_encode value | none ↦ decimal 19 now ]
