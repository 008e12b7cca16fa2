-- ===== src/Prelude/Factors.antt =====
-- A text inside another one: decompositions, and the search that finds them.
use go_feather_route.Prelude.Tests.{Bool-cases}
use go_feather_route.Prelude.Lists.{length, take, drop}
use go_feather_route.Prelude.Strings.{Bytes, contains, has_prefix, has_prefix_iff}
use Prim.Native.Nat.{ℕ, zero, suc, ◌-◌, ◌≤◌}
use mathlib.Core.Path.{◌≡◌, refl, sym, ap, ◌∙◌}
use mathlib.Core.Logic.{inl, inr}
use mathlib.Core.List.{[], ◌∷◌, ◌++◌, append_assoc}
use mathlib.Core.Bool.{true}
use native.Mathlib.Omega.{arith}

-- `m` stands somewhere in `s`.
abbrev pub Factor : Bytes → Bytes → Type 0
Factor m s = (a : Bytes) × (b : Bytes) × (s ≡ a ++ (m ++ b))

pub contains→Factor : (m s : Bytes) → contains m s ≡ true → Factor m s
unfolding contains
contains→Factor m [] h = let (b, e) = (has_prefix_iff m []).0 h in ([], b, sym e)
contains→Factor m (c ∷ s) h = elim (Bool-cases (has_prefix m (c ∷ s))) [
  | inl here ↦ let (b, e) = (has_prefix_iff m (c ∷ s)).0 here in ([], b, sym e)
  | inr later ↦ let (a, b, e) = contains→Factor m s (ground arith) in (c ∷ a, b, ap (λ t. c ∷ t) e)
]

prefix→contains : (m s : Bytes) → has_prefix m s ≡ true → contains m s ≡ true
unfolding contains
prefix→contains m [] h = h
prefix→contains m (c ∷ s) h = rw h

pub Factor→contains : (m s : Bytes) → Factor m s → contains m s ≡ true
unfolding contains
Factor→contains m s ([], b, e) = prefix→contains m s ((has_prefix_iff m s).1 (b, sym e))
Factor→contains m [] (x ∷ a, b, e) = cc
Factor→contains m (c ∷ s) (x ∷ a, b, e) = ground (arith, Factor→contains m s (a, b, cc))

-- Two ways to cut one list: the shorter front is a part of the longer one.
pub append_split :
    (a x s y : Bytes)
    → a ++ x ≡ s ++ y
    → length a ≤ length s
    → (r : Bytes) × (s ≡ a ++ r) × (x ≡ r ++ y)
append_split [] x s y e h = (s, refl, e)
append_split (c ∷ a) x [] y e h = absurd (omega arith)
append_split (c ∷ a) x (d ∷ s) y e h =
    let tails : a ++ x ≡ s ++ y = cc in
    let shorter : length a ≤ length s = omega arith in
    let same : c ≡ d = cc in
    let (r, p, q) = append_split a x s y tails shorter in
    (r, ap (λ t. d ∷ t) p ∙ ap (λ k. k ∷ (a ++ r)) (sym same), q)

pub take-append :
    (n : ℕ) (a b : Bytes) → length a ≤ n → take n (a ++ b) ≡ a ++ take (n - length a) b
take-append n [] b h = ap (λ k. take k b) (omega arith)
take-append zero (c ∷ a) b h = absurd (omega arith)
take-append (suc n) (c ∷ a) b h =
    ap (λ t. c ∷ t) (take-append n a b (omega arith) ∙ ap (λ k. a ++ take k b) (omega arith))

pub Factor-append_left : (m s t : Bytes) → Factor m t → Factor m (s ++ t)
Factor-append_left m s t (a, b, e) = (s ++ a, b, rw e (sym (append_assoc s a (m ++ b))))

pub Factor-append_right : (m s t : Bytes) → Factor m s → Factor m (s ++ t)
Factor-append_right m s t (a, b, e) =
    (a, b ++ t, rw e (append_assoc a (m ++ b) t ∙ ap (λ u. a ++ u) (append_assoc m b t)))

pub take_append_drop : (n : ℕ) (s : Bytes) → take n s ++ drop n s ≡ s
take_append_drop zero s = refl
take_append_drop (suc n) [] = refl
take_append_drop (suc n) (c ∷ s) = ap (λ t. c ∷ t) (take_append_drop n s)
