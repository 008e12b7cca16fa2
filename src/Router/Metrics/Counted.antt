-- ===== src/Router/Metrics/Counted.antt =====
-- Properties of the entries of a map, and the counts of one route.
use go_feather_route.Prelude.{
  ℕ, ◌+◌, ◌%◌, ◌^◌, ◌≡◌, refl, subst, inl, inr, Bool, true, false, [], ◌∷◌, leb, ◌==◌, ==_iff,
  Bool-cases, arith, if◌then◌else◌,
}
use go_feather_route.Prelude.Int.{add64}
use go_feather_route.Prelude.Dict.{Dict, Eq, lookup, insert, get_or, nat_eq, bytes_eq}
use go_feather_route.Router.Server.{RouteMetric, key_eq_instance, add_to_metric}

-- A property of every entry of a map.
abbrev pub AllEntries {ℓ κ} : {K : Type ℓ} {V : Type κ} → (K → V → Type 0) → Dict K V → Type 0
AllEntries P [] = Unit
AllEntries P ((k, v) ∷ m) = P k v × AllEntries P m

module _ {ℓ κ} {K : Type ℓ} {V : Type κ} ⦃e : Eq K⦄ (P : K → V → Type 0) where
  pub insert-AllEntries :
      (k : K) (v : V) (m : Dict K V) → P k v → AllEntries P m → AllEntries P (insert k v m)
  unfolding insert
  insert-AllEntries k v [] p h = (p, tt)
  insert-AllEntries k v ((j, w) ∷ m) p (q, h) = elim (Bool-cases (e.beq j k)) [
    | inl same ↦ rw same (p, h)
    | inr other ↦ rw other (q, insert-AllEntries k v m p h)
  ]

  -- The entry of a key, or the value that stands for a missing one.
  pub get_or-AllEntries :
      (k : K) (d : V) (m : Dict K V) → P k d → AllEntries P m → P k (get_or (lookup k m) d)
  unfolding lookup get_or
  get_or-AllEntries k d [] p h = p
  get_or-AllEntries k d ((j, w) ∷ m) p (q, h) = elim (Bool-cases (e.beq j k)) [
    | inl same ↦ rw same (subst (λ x. P x w) ((e.beq_iff j k).0 same) q)
    | inr other ↦ rw other (get_or-AllEntries k d m p h)
  ]

-- The counts of the statuses that a test selects, added up.
abbrev pub total : (ℕ → Bool) → Dict ℕ ℕ → ℕ
total test [] = 0
total test ((status, n) ∷ m) = (if test status then n else 0) + total test m

added : (n a b c : ℕ) → a % 2 ^ 64 ≡ (b + c) % 2 ^ 64 → (n + a) % 2 ^ 64 ≡ (n + b + c) % 2 ^ 64
added n a b c h = omega arith

total-insert :
    (test : ℕ → Bool) (k : ℕ) (m : Dict ℕ ℕ) (old : ℕ)
    → old ≡ get_or (lookup k m) 0
    → total test (insert k (add64 old 1) m) % 2 ^ 64
      ≡ (total test m + (if test k then 1 else 0)) % 2 ^ 64
unfolding insert lookup get_or add64
total-insert test k [] old e = elim (Bool-cases (test k)) [
  | inl counted ↦ rw counted (omega arith)
  | inr passed ↦ rw passed (omega arith)
]
total-insert test k ((j, n) ∷ m) old e = elim (Bool-cases (j == k)) [
  | inl same ↦
      let here : j ≡ k = (==_iff j k).0 same in
      let count : old ≡ n = rw same at e in
      rw (same, here, count)
        (elim (Bool-cases (test k)) [
          | inl counted ↦ rw counted (omega arith)
          | inr passed ↦ rw passed (omega arith)
        ])
  | inr other ↦ rw other (
      added (if test j then n else 0) _ _ (if test k then 1 else 0)
        (total-insert test k m old (rw other at e)))
]

after_error :
    (test : ℕ → Bool) (k : ℕ) (m : Dict ℕ ℕ) {n : ℕ}
    → test k ≡ true
    → n ≡ total test m % 2 ^ 64
    → add64 n 1 ≡ total test (insert k (add64 (get_or (lookup k m) 0) 1) m) % 2 ^ 64
unfolding add64
after_error test k m h e = let step = total-insert test k m _ refl in omega (arith, e, rw h at step)

after_other :
    (test : ℕ → Bool) (k : ℕ) (m : Dict ℕ ℕ) {n : ℕ}
    → test k ≡ false
    → n ≡ total test m % 2 ^ 64
    → n ≡ total test (insert k (add64 (get_or (lookup k m) 0) 1) m) % 2 ^ 64
after_other test k m h e = let step = total-insert test k m _ refl in omega (arith, e, rw h at step)

-- Modulo 2^64, the requests of a route are its statuses, and its errors those from 400 on.
pub record IsCounted (m : RouteMetric) : Type 0 where
  pub requests : m.requests ≡ total (λ status. true) m.statuses % 2 ^ 64
  pub errors : m.errors ≡ total (λ status. leb 400 status) m.statuses % 2 ^ 64

pub add_to_metric-IsCounted :
    (status attempts : ℕ) (m : RouteMetric)
    → IsCounted m
    → IsCounted (add_to_metric status attempts m)
unfolding add_to_metric add64
add_to_metric-IsCounted status attempts m c = record {
  requests = omega (arith, total-insert (λ k. true) status m.statuses _ refl, c.requests);
  errors = elim (Bool-cases (leb 400 status)) [
    | inl failed ↦ rw failed (after_error (λ k. leb 400 k) status m.statuses failed c.errors)
    | inr fine ↦ rw fine (after_other (λ k. leb 400 k) status m.statuses fine c.errors)
  ];
}
