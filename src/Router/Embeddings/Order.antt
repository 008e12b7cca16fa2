-- ===== src/Router/Embeddings/Order.antt =====
-- What `normalizeEmbeddingResponse` makes of the answers that it accepts.
use mathlib.Core.List.{Perm}
use mathlib.Core.List.Perm
use go_feather_route.Prelude.{
  ℕ, suc, ◌≤◌, ◌<◌, ◌≡◌, refl, sym, ap, ◌∙◌, ◌⊎◌, inl, inr, Bool, true, false, not, ◌||◌, List, [],
  ◌∷◌, map, length, All, all, leb, ◌==◌, ==_iff, Bool-cases, arith,
}
use go_feather_route.Prelude.Float64.{is_finite}
use go_feather_route.Prelude.Int.{ℤ, pos, negsuc}
use go_feather_route.Contract.{EmbeddingData}
use go_feather_route.Contract.Problems.{Checked, good, bad, ◌>>=◌}
use go_feather_route.Router.Embeddings.{
  member, Progress, check_vector, check_item, check_items, sort_items, start, arrange,
}
use go_feather_route.Router.Embeddings.Sorting.{
  count_from, Differs, Distinct, sort_items-Between, sort_items-perm, length-sort_items,
  Between-full,
}

pub >>=-good {ℓ κ} :
    {A : Type ℓ} {B : Type κ} (m : Checked A) (f : A → Checked B) {b : B}
    → (m >>= f) ≡ good b
    → (a : A) × (m ≡ good a) × (f a ≡ good b)
>>=-good (good a) f h = (a, refl, h)
>>=-good (bad p) f h = cc

-- What an accepted item and the progress after it have.
pub record Accepted (expected : ℕ) (s : Progress) (item : EmbeddingData) (s' : Progress)
    : Type 0 where
  pub n : ℕ
  pub index_eq : item.index ≡ pos n
  pub below : n < expected
  pub new : member n s.seen ≡ false
  pub seen_eq : s'.seen ≡ n ∷ s.seen
  pub needs_eq : s'.needs_normalization ≡ (s.needs_normalization || not (n == length s.seen))
  pub dimension_eq : s'.dimension ≡ length item.embedding
  pub nonempty : 1 ≤ length item.embedding
  pub same : (s.dimension ≡ 0 → ⊥) → s.dimension ≡ length item.embedding
  pub finite_all : all is_finite item.embedding ≡ true

check_vector-Accepted :
    (expected n : ℕ) (s : Progress) (item : EmbeddingData) (s' : Progress)
    → item.index ≡ pos n
    → n < expected
    → check_vector s n item.embedding ≡ good s'
    → Accepted expected s item s'
unfolding check_vector
check_vector-Accepted expected n s item s' e k h = record {
  n = n;
  index_eq = e;
  below = k;
  new = ground arith;
  seen_eq = ground arith;
  needs_eq = ground arith;
  dimension_eq = ground arith;
  nonempty = ground arith;
  same = ground arith;
  finite_all = ground arith;
}

ℤ-cases : (i : ℤ) → ((n : ℕ) × (i ≡ pos n)) ⊎ ((n : ℕ) × (i ≡ negsuc n))
ℤ-cases (pos n) = inl (n, refl)
ℤ-cases (negsuc n) = inr (n, refl)

pub check_item-Accepted :
    (expected : ℕ) (s : Progress) (item : EmbeddingData) (s' : Progress)
    → check_item expected s item ≡ good s'
    → Accepted expected s item s'
unfolding check_item
check_item-Accepted expected s item s' h = elim (ℤ-cases item.index) [
  | inr (n, e) ↦ absurd (ground arith)
  | inl (n, e) ↦ elim (Bool-cases (leb expected n)) [
    | inl beyond ↦ absurd (ground arith)
    | inr below ↦ check_vector-Accepted expected n s item s' e (ground arith) (ground arith)
  ]
]

module _ (expected : ℕ) where
  -- An index that was seen before does not come again.
  seen-Differs :
      (s : Progress) (items : List EmbeddingData) (s' : Progress) (x : ℕ)
      → check_items expected s items ≡ good s'
      → member x s.seen ≡ true
      → All (Differs x) items
  unfolding check_items
  seen-Differs s [] s' x h k = tt
  seen-Differs s (item ∷ items) s' x h k =
      let (t, one, more) = >>=-good (check_item expected s item) _ h in
      let a = check_item-Accepted expected s item t one in
      (
        λ e. fresh a e k,
        seen-Differs t items s' x more (rw a.seen_eq (unfold member in ground arith)),
      )
    where
      fresh :
          {t : Progress}
          → (a : Accepted expected s item t) → item.index ≡ pos x
          → member x s.seen ≡ true
          → ⊥
      fresh a e k = let same : a.n ≡ x = cc (a.index_eq) in cc (a.new, same)

  pub items-Distinct :
      (s : Progress) (items : List EmbeddingData) (s' : Progress)
      → check_items expected s items ≡ good s'
      → Distinct expected items
  unfolding check_items
  items-Distinct s [] s' h = tt
  items-Distinct s (item ∷ items) s' h =
      let (t, one, more) = >>=-good (check_item expected s item) _ h in
      let a = check_item-Accepted expected s item t one in
      (
        a.n,
        a.index_eq,
        a.below,
        seen-Differs t items s' a.n more (rw a.seen_eq (unfold member in ground arith)),
        items-Distinct t items s' more,
      )

  -- With no item out of its place, the indices count up.
  in_place :
      (s : Progress) (items : List EmbeddingData) (s' : Progress)
      → check_items expected s items ≡ good s'
      → s'.needs_normalization ≡ false
      → (s.needs_normalization ≡ false)
        × (map (λ i. i.index) items ≡ map pos (count_from (length s.seen) (length items)))
  unfolding check_items
  in_place s [] s' h k = (ground arith, refl)
  in_place s (item ∷ items) s' h k =
      let (t, one, more) = >>=-good (check_item expected s item) _ h in
      let a = check_item-Accepted expected s item t one in
      let (calm, rest) = in_place t items s' more k in
      let needs = a.needs_eq in
      let place : a.n ≡ length s.seen = ground arith in
      let size : length t.seen ≡ suc (length s.seen) = ap length a.seen_eq in
      (ground arith, rw (a.index_eq, rest, size, place))

  -- A vector of that dimension with finite values.
  abbrev pub IsVector : ℕ → EmbeddingData → Type 0
  IsVector d item = (length item.embedding ≡ d) × (all is_finite item.embedding ≡ true)

  same_dimension :
      (s : Progress) (items : List EmbeddingData) (s' : Progress)
      → check_items expected s items ≡ good s'
      → 1 ≤ s.dimension
      → All (IsVector s.dimension) items
  unfolding check_items
  same_dimension s [] s' h k = tt
  same_dimension s (item ∷ items) s' h k =
      let (t, one, more) = >>=-good (check_item expected s item) _ h in
      let a = check_item-Accepted expected s item t one in
      let same : s.dimension ≡ length item.embedding = a.same (λ z. omega arith) in
      let next : t.dimension ≡ s.dimension = a.dimension_eq ∙ sym same in
      ((sym same, a.finite_all), rw next at (same_dimension t items s' more (omega arith)))

  pub dimensions :
      (items : List EmbeddingData) (s' : Progress)
      → check_items expected start items ≡ good s'
      → (d : ℕ) × (1 ≤ d) × All (IsVector d) items
  unfolding check_items
  dimensions [] s' h = (1, omega arith, tt)
  dimensions (item ∷ items) s' h =
      let (t, one, more) = >>=-good (check_item expected start item) _ h in
      let a = check_item-Accepted expected start item t one in
      (
        length item.embedding,
        a.nonempty,
        (
          (refl, a.finite_all),
          rw a.dimension_eq at (same_dimension t items s' more (rw a.dimension_eq a.nonempty)),
        ),
      )

-- An accepted answer of an upstream has a vector for each of the expected inputs, in the order of
-- their indices 0, 1, 2 and so on; they are the vectors that the upstream sent, each as often; and
-- all have one dimension, which is not 0, and finite values.
pub arrange_sound :
    (expected : ℕ) (items l : List EmbeddingData) (moved : Bool)
    → arrange expected items ≡ good (moved, l)
    → (map (λ i. i.index) l ≡ map pos (count_from 0 expected))
      × Perm l items
      × ((d : ℕ) × (1 ≤ d) × All (IsVector expected d) items)
unfolding arrange
arrange_sound expected items l moved h = elim (Bool-cases (length items == expected)) [
  | inr other ↦ absurd (ground arith)
  | inl counted ↦
      let size : length items ≡ expected = (==_iff (length items) expected).0 counted in
      let (s, checked, made) = >>=-good (check_items expected start items) _ (rw counted at h) in
      let distinct = items-Distinct expected start items s checked in
      elim (Bool-cases s.needs_normalization) [
        | inl needed ↦
            let sorted : l ≡ sort_items items = ground arith in
            let full =
              Between-full 0 expected (sort_items items)
                (sort_items-Between expected items distinct)
                (omega (arith, length-sort_items items)) in
            (
              rw sorted
                  (full ∙ ap (λ n. map pos (count_from 0 n)) (length-sort_items items ∙ size)),
              rw sorted (sort_items-perm items),
              dimensions expected items s checked,
            )
        | inr calm ↦
            let kept : l ≡ items = ground arith in
            (
              rw kept (
                  (in_place expected start items s checked calm).1
                  ∙ ap (λ n. map pos (count_from 0 n)) size),
              rw kept (Perm.refl items),
              dimensions expected items s checked,
            )
      ]
]
