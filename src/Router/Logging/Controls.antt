-- ===== src/Router/Logging/Controls.antt =====
-- The bytes that `safeLogValue` gives.
use go_feather_route.Prelude.{
  ℕ, zero, suc, ◌≤◌, ◌≡◌, ◌≢◌, inl, inr, true, ◌&&◌, ◌||◌, [], ◌∷◌, Bytes, length, take, All,
  All-append, ltb, ◌==◌, Bool-cases, arith, if◌then◌else◌,
}
use go_feather_route.Router.Labels.{max_metric_label_length}
use go_feather_route.Router.Logging.{
  within, follow_two, follow_three, follow_four, second_of_three, second_of_four, follow, safe_rune,
  map_runes, safe_log_value,
}

-- No control character of ASCII.
abbrev pub IsPrinted : ℕ → Type 0
IsPrinted c = (0x20 ≤ c) × (c ≢ 0x7f)

-- The first bytes of a text are continuation bytes.
Continue : ℕ → Bytes → Type 0
Continue zero s = Unit
Continue (suc n) [] = Unit
Continue (suc n) (c ∷ s) = (0x80 ≤ c) × Continue n s

second_three : (c d : ℕ) → second_of_three c d ≡ true → 0x80 ≤ d
unfolding second_of_three
second_three c d h = ground arith

second_four : (c d : ℕ) → second_of_four c d ≡ true → 0x80 ≤ d
unfolding second_of_four
second_four c d h = ground arith

follow_two-Continue : (c : ℕ) (s : Bytes) → Continue (follow_two c s) s
unfolding follow_two Continue
follow_two-Continue c [] = tt
follow_two-Continue c (d ∷ s) = elim (Bool-cases (within 0xC2 0xDF c && within 0x80 0xBF d)) [
  | inl valid ↦ rw valid (ground arith, tt)
  | inr invalid ↦ rw invalid tt
]

follow_three-Continue : (c : ℕ) (s : Bytes) → Continue (follow_three c s) s
unfolding follow_three Continue
follow_three-Continue c [] = tt
follow_three-Continue c (d ∷ []) = tt
follow_three-Continue c (d ∷ e ∷ s) =
    elim (Bool-cases (second_of_three c d && within 0x80 0xBF e)) [
      | inl valid ↦ rw valid (second_three c d (ground arith), (ground arith, tt))
      | inr invalid ↦ rw invalid tt
    ]

follow_four-Continue : (c : ℕ) (s : Bytes) → Continue (follow_four c s) s
unfolding follow_four Continue
follow_four-Continue c [] = tt
follow_four-Continue c (d ∷ []) = tt
follow_four-Continue c (d ∷ e ∷ []) = tt
follow_four-Continue c (d ∷ e ∷ f ∷ s) =
    elim (Bool-cases (second_of_four c d && within 0x80 0xBF e && within 0x80 0xBF f)) [
      | inl valid ↦ rw valid (second_four c d (ground arith), (ground arith, (ground arith, tt)))
      | inr invalid ↦ rw invalid tt
    ]

follow-Continue : (c : ℕ) (s : Bytes) → Continue (follow c s) s
unfolding follow
follow-Continue c s = elim (Bool-cases (ltb c 0xE0)) [
  | inl two ↦ rw two (follow_two-Continue c s)
  | inr more ↦ elim (Bool-cases (ltb c 0xF0)) [
    | inl three ↦ rw (more, three) (follow_three-Continue c s)
    | inr four ↦ rw (more, four) (follow_four-Continue c s)
  ]
]

safe_rune-IsPrinted : (c : ℕ) → All IsPrinted (safe_rune c)
unfolding safe_rune
safe_rune-IsPrinted c = elim (Bool-cases ((c == 10) || (c == 13) || (c == 9))) [
  | inl space ↦ rw space ((omega arith, λ h. omega arith), tt)
  | inr other ↦ elim (Bool-cases (ltb c 0x20 || (c == 0x7f))) [
    | inl control ↦ rw (other, control) tt
    | inr fine ↦ rw (other, fine) ((ground arith, ground arith), tt)
  ]
]

-- A byte from 0x80 on.
high-IsPrinted : (c : ℕ) → 0x80 ≤ c → IsPrinted c
high-IsPrinted c h = (omega arith, λ e. omega arith)

map_runes-IsPrinted : (rest : ℕ) (s : Bytes) → Continue rest s → All IsPrinted (map_runes rest s)
unfolding map_runes Continue
map_runes-IsPrinted zero [] h = tt
map_runes-IsPrinted (suc rest) [] h = tt
map_runes-IsPrinted (suc rest) (c ∷ s) (high, h) =
    (high-IsPrinted c high, map_runes-IsPrinted rest s h)
map_runes-IsPrinted zero (c ∷ s) h =
    let plain = map_runes-IsPrinted 0 s tt in
    let wide = map_runes-IsPrinted (follow c s) s (follow-Continue c s) in
    elim (Bool-cases (ltb c 0x80)) [
      | inl ascii ↦
          rw ascii
            (All-append IsPrinted (safe_rune c) (map_runes 0 s) (safe_rune-IsPrinted c) plain)
      | inr high ↦ elim (Bool-cases (follow c s == 0)) [
        | inl invalid ↦
            rw (high, invalid)
              (
                high-IsPrinted 0xEF (omega arith),
                (high-IsPrinted 0xBF (omega arith), (high-IsPrinted 0xBD (omega arith), plain)),
              )
        | inr valid ↦ rw (high, valid) (high-IsPrinted c (ground arith), wide)
      ]
    ]

-- What `safeLogValue` gives has no control character of ASCII, whatever bytes it is given.
pub safe_log_value-IsPrinted : (value : Bytes) → All IsPrinted (safe_log_value value)
unfolding safe_log_value Continue
safe_log_value-IsPrinted value =
    map_runes-IsPrinted 0
      (if ltb max_metric_label_length (length value)
        then take max_metric_label_length value
        else value)
      tt
