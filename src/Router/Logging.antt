-- ===== src/Router/Logging.antt =====
-- Values in log lines: `safeLogValue`.
pub mod Controls
pub mod Line
use go_feather_route.Prelude.{
  ℕ, zero, suc, Bool, ◌&&◌, ◌||◌, List, [], ◌∷◌, ◌++◌, Bytes, length, take, leb, ltb, ◌==◌,
  if◌then◌else◌,
}
use go_feather_route.Router.Labels.{max_metric_label_length}

abbrev pub within : ℕ → ℕ → ℕ → Bool
within low high c = leb low c && leb c high

-- How many bytes follow the first one of a rune: unicode/utf8's table of the ranges of the second byte.
-- 0 is a first byte that begins no valid encoding.
unfoldable pub follow_two : ℕ → Bytes → ℕ
follow_two c (d ∷ s) = if within 0xC2 0xDF c && within 0x80 0xBF d then 1 else 0
follow_two c [] = 0

unfoldable pub second_of_three : ℕ → ℕ → Bool
second_of_three c d =
    (c == 0xE0) && within 0xA0 0xBF d
    || (within 0xE1 0xEC c || within 0xEE 0xEF c) && within 0x80 0xBF d
    || (c == 0xED) && within 0x80 0x9F d

unfoldable pub follow_three : ℕ → Bytes → ℕ
unfolding second_of_three
follow_three c (d ∷ e ∷ s) = if second_of_three c d && within 0x80 0xBF e then 2 else 0
follow_three c _ = 0

unfoldable pub second_of_four : ℕ → ℕ → Bool
second_of_four c d =
    (c == 0xF0) && within 0x90 0xBF d
    || within 0xF1 0xF3 c && within 0x80 0xBF d
    || (c == 0xF4) && within 0x80 0x8F d

unfoldable pub follow_four : ℕ → Bytes → ℕ
unfolding second_of_four
follow_four c (d ∷ e ∷ f ∷ s) =
    if second_of_four c d && within 0x80 0xBF e && within 0x80 0xBF f then 3 else 0
follow_four c _ = 0

unfoldable pub follow : ℕ → Bytes → ℕ
unfolding follow_two follow_three follow_four
follow c s =
    if ltb c 0xE0 then follow_two c s else if ltb c 0xF0 then follow_three c s else follow_four c s

-- The mapping of a rune below 0x80; a dropped rune is mapped to -1.
unfoldable pub safe_rune : ℕ → Bytes
safe_rune c =
    if (c == 10) || (c == 13) || (c == 9)
    then 32 ∷ []
    else if ltb c 0x20 || (c == 0x7f)
    then []
    else c ∷ []

-- strings.Map over the runes of a text, where the number counts the bytes of the present rune that are
-- still to be copied. A byte of an invalid encoding becomes U+FFFD.
unfoldable pub map_runes : ℕ → Bytes → Bytes
unfolding follow safe_rune
map_runes rest [] = []
map_runes (suc rest) (c ∷ s) = c ∷ map_runes rest s
map_runes zero (c ∷ s) =
    let plain = map_runes 0 s in
    let wide = map_runes (follow c s) s in
    if ltb c 0x80
    then safe_rune c ++ plain
    else if follow c s == 0
    then 0xEF ∷ 0xBF ∷ 0xBD ∷ plain
    else c ∷ wide

unfoldable pub safe_log_value : Bytes → Bytes
unfolding map_runes
safe_log_value value = map_runes 0 (
    if ltb max_metric_label_length (length value)
    then take max_metric_label_length value
    else value)
