-- ===== src/Prelude/Strings.antt =====
-- Go strings: sequences of bytes, with the functions of `strings` and `bytes` that the program uses.
use Prim.Native.Nat.{ℕ}
use Prim.Native.Char.{code}
use Prim.Native.String.{String}
use mathlib.Core.Path.{◌≡◌, refl, ap}
use mathlib.Core.Logic.{◌↔◌}
use mathlib.Core.List.{List, [], ◌∷◌, ◌++◌}
use mathlib.Core.Bool.{Bool, true, false, ◌&&◌, ◌||◌}
use mathlib.Core.Option.{Option, none, some}
use native.Mathlib.Omega.{arith}
use mathlib.Core.Logic.{inl, inr}
use go_feather_route.Prelude.Tests.{◌==◌, ==_iff, Bool-cases, Option-cases, if◌then◌else◌}
use go_feather_route.Prelude.Lists.{length, length-append}

abbrev pub Bytes : Type 0
Bytes = List ℕ

-- The bytes of an ASCII literal.
abbrev pub codes : String → Bytes
codes String.[] = []
codes (String.◌∷◌ c s) = code c ∷ codes s

-- s == t
unfoldable pub str_eq : Bytes → Bytes → Bool
str_eq [] [] = true
str_eq (a ∷ s) (b ∷ t) = (a == b) && str_eq s t
str_eq _ _ = false

pub str_eq_iff : (s t : Bytes) → (str_eq s t ≡ true) ↔ (s ≡ t)
unfolding str_eq
str_eq_iff [] [] = ground arith
str_eq_iff [] (b ∷ t) = ground arith
str_eq_iff (a ∷ s) [] = ground arith
str_eq_iff (a ∷ s) (b ∷ t) = ground (arith, str_eq_iff s t)

-- s == ""
abbrev pub is_empty : Bytes → Bool
is_empty [] = true
is_empty (_ ∷ _) = false

-- strings.HasPrefix(s, prefix), with the prefix first.
unfoldable pub has_prefix : Bytes → Bytes → Bool
has_prefix [] s = true
has_prefix (p ∷ ps) [] = false
has_prefix (p ∷ ps) (c ∷ s) = (p == c) && has_prefix ps s

-- The bytes behind a prefix of that length; strings.TrimPrefix where the prefix is there.
unfoldable pub strip_prefix? : Bytes → Bytes → Option Bytes
strip_prefix? [] s = some s
strip_prefix? (p ∷ ps) [] = none
strip_prefix? (p ∷ ps) (c ∷ s) = if p == c then strip_prefix? ps s else none

-- strings.TrimSuffix(s, suffix) where the suffix is there; `none` is a false strings.HasSuffix.
unfoldable pub strip_suffix? : Bytes → Bytes → Option Bytes
strip_suffix? suffix [] = if str_eq suffix [] then some [] else none
strip_suffix? suffix (c ∷ s) =
    let rest = strip_suffix? suffix s in
    if str_eq suffix (c ∷ s) then some [] else elim rest [ none ↦ none | some r ↦ some (c ∷ r) ]

unfoldable pub has_suffix : Bytes → Bytes → Bool
unfolding strip_suffix?
has_suffix suffix s = elim (strip_suffix? suffix s) [ none ↦ false | some _ ↦ true ]

-- strings.Contains(s, needle), with the needle first.
unfoldable pub contains : Bytes → Bytes → Bool
unfolding has_prefix
contains needle [] = has_prefix needle []
contains needle (c ∷ s) = has_prefix needle (c ∷ s) || contains needle s

-- strings.Cut(s, sep) at a separator of one byte.
unfoldable pub cut : ℕ → Bytes → Option (Bytes × Bytes)
cut sep [] = none
cut sep (c ∷ s) =
    let rest = cut sep s in
    if c == sep then some ([], s) else elim rest [ none ↦ none | some (a, b) ↦ some (c ∷ a, b) ]

pub has_prefix_iff : (p s : Bytes) → (has_prefix p s ≡ true) ↔ ((r : Bytes) × (p ++ r ≡ s))
unfolding has_prefix
has_prefix_iff [] s = (λ _. (s, refl), λ _. refl)
has_prefix_iff (p ∷ ps) [] = (λ h. cc, λ (r, e). cc)
has_prefix_iff (p ∷ ps) (c ∷ s) = (
  λ h.
      let (r, e) = (has_prefix_iff ps s).0 (ground arith) in
      let same : p ≡ c = (==_iff p c).0 (ground arith) in (r, rw (same, e)),
  λ (r, e). ground (arith, (has_prefix_iff ps s).1 (r, cc)),
)

length-append_ne : (a : ℕ) (s t : Bytes) → str_eq t (a ∷ s ++ t) ≡ false
length-append_ne a s t = elim (Bool-cases (str_eq t (a ∷ s ++ t))) [
  | inl same ↦
      absurd (omega (arith, ap length ((str_eq_iff t (a ∷ s ++ t)).0 same), length-append s t))
  | inr other ↦ other
]

pub strip_suffix?-append : (s r : Bytes) → strip_suffix? s (r ++ s) ≡ some r
unfolding strip_suffix? str_eq
strip_suffix?-append [] [] = refl
strip_suffix?-append (a ∷ s) [] = rw ((str_eq_iff (a ∷ s) (a ∷ s)).1 refl)
strip_suffix?-append s (c ∷ r) = rw (length-append_ne c r s, strip_suffix?-append s r)

pub append-strip_suffix? : (s t : Bytes) {r : Bytes} → strip_suffix? s t ≡ some r → r ++ s ≡ t
unfolding strip_suffix?
append-strip_suffix? s [] {r} h = ground (arith, str_eq_iff s [])
append-strip_suffix? s (c ∷ t) {r} h = elim (Bool-cases (str_eq s (c ∷ t))) [
  | inl same ↦ let e : r ≡ [] = ground arith in rw (e) ((str_eq_iff s (c ∷ t)).0 same)
  | inr other ↦ elim (Option-cases (strip_suffix? s t)) [
    | inl missing ↦ absurd (ground arith)
    | inr (q, found) ↦
        let e : r ≡ c ∷ q = ground arith in rw e (ap (λ u. c ∷ u) (append-strip_suffix? s t found))
  ]
]
