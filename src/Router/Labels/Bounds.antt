-- ===== src/Router/Labels/Bounds.antt =====
-- The alphabets and lengths of labels and request IDs.
use go_feather_route.Prelude.{
  ℕ, zero, suc, ◌+◌, ◌*◌, ◌/◌, ◌%◌, ◌≤◌, ◌<◌, ◌≡◌, ◌≢◌, refl, Bool, true, Option, none, some, [],
  ◌∷◌, ◌++◌, Bytes, length, length-append, ltb, Bool-cases, inl, inr, arith, All, all,
}
use go_feather_route.Router.Labels.{
  is_label_byte, bounded_metric_label, escape_metric_label, is_safe_byte, is_safe_request_id,
  hex_encode, decimal, request_id,
}

-- A byte that no escape rule touches.
abbrev IsPlain : ℕ → Type 0
IsPlain c = (c ≢ 92) × (c ≢ b'"') × (c ≢ 10)

label_byte-IsPlain : (c : ℕ) → is_label_byte c ≡ true → IsPlain c
unfolding is_label_byte
label_byte-IsPlain c h = (ground arith, ground arith, ground arith)

all-IsPlain : (s : Bytes) → all is_label_byte s ≡ true → All IsPlain s
all-IsPlain [] h = tt
all-IsPlain (c ∷ s) h = (label_byte-IsPlain c (ground arith), all-IsPlain s (ground arith))

escape_plain : (s : Bytes) → All IsPlain s → escape_metric_label s ≡ s
unfolding escape_metric_label
escape_plain [] h = refl
escape_plain (c ∷ []) h = ground arith
escape_plain (c ∷ d ∷ s) (p, h) = ground (arith, escape_plain (d ∷ s) h)

-- A label is never empty and at most 64 bytes long.
pub length-bounded_metric_label :
    (value : Bytes)
    → (1 ≤ length (bounded_metric_label value)) × (length (bounded_metric_label value) ≤ 64)
unfolding bounded_metric_label
length-bounded_metric_label [] = (omega arith, omega arith)
length-bounded_metric_label (c ∷ s) = ground arith

bounded_label-IsPlain : (value : Bytes) → All IsPlain (bounded_metric_label value)
unfolding bounded_metric_label
bounded_label-IsPlain [] = omega arith
bounded_label-IsPlain (c ∷ s) = elim (Bool-cases (ltb 64 (length (c ∷ s)))) [
  | inl long ↦ rw long (omega arith)
  | inr short ↦ elim (Bool-cases (all is_label_byte (c ∷ s))) [
    | inl fine ↦ rw (short, fine) (all-IsPlain (c ∷ s) fine)
    | inr strange ↦ rw (short, strange) (omega arith)
  ]
]

-- Escaping leaves every bounded label as it is, so that the metrics endpoint prints each label byte
-- for byte.
pub escape-bounded_metric_label :
    (value : Bytes) → escape_metric_label (bounded_metric_label value) ≡ bounded_metric_label value
escape-bounded_metric_label value =
    escape_plain (bounded_metric_label value) (bounded_label-IsPlain value)

pub all-append :
    (p : ℕ → Bool) (s t : Bytes) → all p s ≡ true → all p t ≡ true → all p (s ++ t) ≡ true
all-append p [] t h k = k
all-append p (c ∷ s) t h k = ground (arith, all-append p s t (ground arith) k)

hex_encode_safe : (s : Bytes) → All (λ b. b < 256) s → all is_safe_byte (hex_encode s) ≡ true
unfolding hex_encode is_safe_byte
hex_encode_safe [] h = refl
hex_encode_safe (b ∷ s) (p, h) = ground (arith, hex_encode_safe s h)

length-hex_encode : (s : Bytes) → length (hex_encode s) ≡ 2 * length s
unfolding hex_encode
length-hex_encode [] = refl
length-hex_encode (b ∷ s) = omega (arith, length-hex_encode s)

decimal_safe : (fuel n : ℕ) → all is_safe_byte (decimal fuel n) ≡ true
unfolding decimal is_safe_byte
decimal_safe zero n = refl
decimal_safe (suc fuel) n = ground (
  arith,
  all-append is_safe_byte (decimal fuel (n / 10)) ((b'0' + n % 10) ∷ [])
      (decimal_safe fuel (n / 10)),
)

length-decimal : (fuel n : ℕ) → (length (decimal fuel n) ≤ fuel)
unfolding decimal
length-decimal zero n = omega arith
length-decimal (suc fuel) n = ground (
  arith,
  length-decimal fuel (n / 10),
  length-append (decimal fuel (n / 10)) ((b'0' + n % 10) ∷ []),
)

length-decimal_pos : (fuel n : ℕ) → 1 ≤ length (decimal (suc fuel) n)
unfolding decimal
length-decimal_pos fuel n =
    ground (arith, length-append (decimal fuel (n / 10)) ((b'0' + n % 10) ∷ []))

safe_of :
    (s : Bytes)
    → 1 ≤ length s
    → length s ≤ 128
    → all is_safe_byte s ≡ true
    → is_safe_request_id s ≡ true
unfolding is_safe_request_id
safe_of [] h k a = absurd (omega arith)
safe_of (c ∷ s) h k a = ground arith

-- The request ID that a request carries on is safe, whatever the client sent, where the random
-- source gives 16 bytes or fails: 1 to 128 visible ASCII characters.
pub request_id-is_safe :
    (candidate : Bytes) (random : Option Bytes) (now : ℕ)
    → ((value : Bytes) → random ≡ some value → (length value ≡ 16) × All (λ b. b < 256) value)
    → is_safe_request_id (request_id candidate random now) ≡ true
unfolding request_id
request_id-is_safe candidate none now h = elim (Bool-cases (is_safe_request_id candidate)) [
  | inl safe ↦ rw safe safe
  | inr unsafe ↦ rw unsafe (
      safe_of (decimal 19 now) (length-decimal_pos 18 now) (omega (arith, length-decimal 19 now))
        (decimal_safe 19 now))
]
request_id-is_safe candidate (some value) now h = elim (Bool-cases (is_safe_request_id candidate)) [
  | inl safe ↦ rw safe safe
  | inr unsafe ↦
      let (sixteen, bytes) = h value refl in
      rw unsafe (
        safe_of (hex_encode value) (omega (arith, length-hex_encode value))
          (omega (arith, length-hex_encode value)) (hex_encode_safe value bytes))
]
