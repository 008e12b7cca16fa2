-- ===== src/Router/Metrics/Read.antt =====
-- The metrics text against a reader of such texts.
use go_feather_route.Prelude.{
  ℕ, ◌≡◌, refl, sym, ap, ◌∙◌, Bool, true, false, not, Option, none, some, List, [], ◌∷◌, ◌++◌,
  Bytes, all, All, ◌==◌, if◌then◌else◌, arith,
}
use mathlib.Core.List.{append_assoc}
use go_feather_route.Prelude.Int.{ℤ}
use go_feather_route.Prelude.Numbers.{print_int}
use go_feather_route.Prelude.Numbers.Printed.{
  read_int, read_int-print_int, IsSolid, print_int-IsSolid,
}
use go_feather_route.Usage.{split_byte}
use go_feather_route.Usage.Lines.{split_byte_nil, split_byte-append, split_byte-other}
use go_feather_route.Router.Labels.Bounds.{all-append}
use go_feather_route.Router.Metrics.{Sample, print_sample, print_samples}

-- The text before the last separator and the text after it.
unfoldable pub cut_last : ℕ → Bytes → Option (Bytes × Bytes)
cut_last sep [] = none
cut_last sep (c ∷ s) = elim (cut_last sep s) [
  | some (a, b) ↦ some (c ∷ a, b)
  | none ↦ if c == sep then some ([], s) else none
]

abbrev pub named : Bytes → Option ℤ → Option Sample
named name none = none
named name (some value) = some (record { name = name; value = value })

-- A line is a name with its labels, a space and a number.
unfoldable pub read_sample : Bytes → Option Sample
unfolding cut_last
read_sample line = elim (cut_last 32 line) [
  | none ↦ none
  | some (name, text) ↦ named name (read_int text)
]

abbrev pub add_sample : Option Sample → Option (List Sample) → Option (List Sample)
add_sample (some s) (some l) = some (s ∷ l)
add_sample _ _ = none

unfoldable pub read_lines : List Bytes → Option (List Sample)
unfolding read_sample
read_lines [] = some []
read_lines ([] ∷ lines) = read_lines lines
read_lines ((c ∷ line) ∷ lines) = add_sample (read_sample (c ∷ line)) (read_lines lines)

-- Every line that is not empty, if all of them are samples.
unfoldable pub take_apart : Bytes → Option (List Sample)
unfolding read_lines
take_apart text = read_lines (split_byte 10 text)

cut_last-none : (v : Bytes) → All IsSolid v → cut_last 32 v ≡ none
unfolding cut_last
cut_last-none [] h = refl
cut_last-none (c ∷ v) ((solid, _), h) =
    let ih = cut_last-none v h in
    let other : (c == 32) ≡ false = ground arith in rw (ih, cut_last) (rw other refl)

cut_last_lem : (name v : Bytes) → All IsSolid v → cut_last 32 (name ++ (32 ∷ v)) ≡ some (name, v)
unfolding cut_last
cut_last_lem [] v h = rw (cut_last-none v h, cut_last) refl
cut_last_lem (c ∷ name) v h = rw (cut_last_lem name v h, cut_last) refl

-- A text of one line.
abbrev pub is_line : Bytes → Bool
is_line s = all (λ c. not (c == 10)) s

split_byte-is_line : (s : Bytes) → is_line s ≡ true → split_byte 10 s ≡ s ∷ []
split_byte-is_line [] h = split_byte_nil
split_byte-is_line (c ∷ s) h =
    let other : (c == 10) ≡ false = ground arith in
    let ih = split_byte-is_line s (ground arith) in rw (split_byte-other c s other, ih) refl

pub solid-is_line : (s : Bytes) → All IsSolid s → is_line s ≡ true
solid-is_line [] h = refl
solid-is_line (c ∷ s) ((_, solid), h) = ground (arith, solid-is_line s h)

pub is_line-append : (s t : Bytes) → is_line s ≡ true → is_line t ≡ true → is_line (s ++ t) ≡ true
is_line-append s t h k = all-append _ s t h k

pub enclosed-is_line :
    (a s b : Bytes)
    → is_line a ≡ true
    → is_line s ≡ true
    → is_line b ≡ true
    → is_line (a ++ s ++ b) ≡ true
enclosed-is_line a s b ha hs hb = is_line-append (a ++ s) b (is_line-append a s ha hs) hb

-- A line of the text without its end.
abbrev line_of : Sample → Bytes
line_of s = s.name ++ (32 ∷ print_int s.value)

line_of-is_line : (s : Sample) → is_line s.name ≡ true → is_line (line_of s) ≡ true
line_of-is_line s h =
    is_line-append s.name (32 ∷ print_int s.value) h
      (solid-is_line (print_int s.value) (print_int-IsSolid s.value))

read_sample-line_of : (s : Sample) → read_sample (line_of s) ≡ some s
unfolding read_sample
read_sample-line_of s =
    rw (cut_last_lem s.name (print_int s.value) (print_int-IsSolid s.value), read_sample)
      (rw (read_int-print_int s.value) refl)

read_lines_cons :
    (name rest : Bytes) (lines : List Bytes)
    → read_lines ((name ++ (32 ∷ rest)) ∷ lines)
      ≡ add_sample (read_sample (name ++ (32 ∷ rest))) (read_lines lines)
unfolding read_lines
read_lines_cons [] rest lines = refl
read_lines_cons (c ∷ name) rest lines = refl

print_sample_lem : (s : Sample) (text : Bytes) → print_sample s ++ text ≡ line_of s ++ (10 ∷ text)
unfolding print_sample
print_sample_lem s text =
    append_assoc s.name (32 ∷ (print_int s.value ++ (10 ∷ []))) text
    ∙ ap (λ x. s.name ++ (32 ∷ x)) (append_assoc (print_int s.value) (10 ∷ []) text)
    ∙ sym (append_assoc s.name (32 ∷ print_int s.value) (10 ∷ text))

pub take_apart-print_samples :
    (l : List Sample) → All (λ s. is_line s.name ≡ true) l → take_apart (print_samples l) ≡ some l
unfolding take_apart print_samples read_lines
take_apart-print_samples [] h = rw split_byte_nil refl
take_apart-print_samples (s ∷ l) (p, h) =
    rw
      (
        print_sample_lem s (print_samples l),
        split_byte-append (line_of s) (print_samples l),
        split_byte-is_line (line_of s) (line_of-is_line s p),
        read_lines_cons s.name (print_int s.value) (split_byte 10 (print_samples l)),
        read_sample-line_of s,
      )
      (ap (add_sample (some s)) (take_apart-print_samples l h))
