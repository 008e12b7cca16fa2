-- ===== src/Router/Embeddings/Settled.antt =====
-- What `arrange` makes of what it has made.
use go_feather_route.Prelude.{
  ℕ, suc, ◌≡◌, refl, sym, ap, ◌∙◌, inl, inr, true, false, List, [], ◌∷◌, map, length, ◌==◌, ==_iff,
  Bool-cases, arith,
}
use go_feather_route.Prelude.Int.{pos}
use go_feather_route.Prelude.Dict.{bytes_eq}
use go_feather_route.Contract.{EmbeddingData}
use go_feather_route.Contract.Problems.{good}
use go_feather_route.Router.Embeddings.{
  Progress, check_item, check_items, sort_items, start, arrange,
}
use go_feather_route.Router.Embeddings.Sorting.{
  count_from, sort_items-All, sort_items-Between, length-sort_items, pos-injective,
  Between-Distinct,
}
use go_feather_route.Router.Embeddings.Order.{
  >>=-good, check_item-Accepted, items-Distinct, IsVector, dimensions, arrange_sound,
}
use go_feather_route.Router.Embeddings.Complete.{check_items_total, no_seen}

cons-injective {ℓ} : {A : Type ℓ} (a b : A) (l m : List A) → a ∷ l ≡ b ∷ m → (a ≡ b) × (l ≡ m)
cons-injective a b l m h = (cc, cc)

-- Items whose indices count up need no normalization.
stays :
    (expected : ℕ) (s : Progress) (items : List EmbeddingData) (s' : Progress)
    → check_items expected s items ≡ good s'
    → s.needs_normalization ≡ false
    → map (λ i. i.index) items ≡ map pos (count_from (length s.seen) (length items))
    → s'.needs_normalization ≡ false
unfolding check_items
stays expected s [] s' h calm counted =
    let same : s ≡ s' = cc in rw (sym (ap (λ p. p.needs_normalization) same)) calm
stays expected s (item ∷ items) s' h calm counted =
    let (t, one, more) = >>=-good (check_item expected s item) _ h in
    let a = check_item-Accepted expected s item t one in
    let (first, others) = cons-injective _ _ _ _ counted in
    let place : a.n ≡ length s.seen = pos-injective _ _ (sym a.index_eq ∙ first) in
    let size : length t.seen ≡ suc (length s.seen) = ap length a.seen_eq in
    let needs = a.needs_eq in
    let still : t.needs_normalization ≡ false = ground arith in
    stays expected t items s' more still (rw size others)

-- What `arrange` moves, it leaves in place the next time.
pub arrange_again :
    (expected : ℕ) (items l : List EmbeddingData)
    → arrange expected items ≡ good (true, l)
    → arrange expected l ≡ good (false, l)
unfolding arrange
arrange_again expected items l h = elim (Bool-cases (length items == expected)) [
  | inr other ↦ absurd (ground arith)
  | inl counted ↦
      let (s, checked, made) = >>=-good (check_items expected start items) _ (rw counted at h) in
      elim (Bool-cases s.needs_normalization) [
        | inr calm ↦ absurd (ground arith)
        | inl needed ↦
            let sorted : l ≡ sort_items items = ground arith in
            let (d, some_values, vectors) = dimensions expected items s checked in
            let distinct = items-Distinct expected start items s checked in
            let in_order =
              Between-Distinct 0 expected (sort_items items)
                (sort_items-Between expected items distinct) in
            let size : length l ≡ expected =
              ap length sorted
              ∙ length-sort_items items
              ∙ (==_iff (length items) expected).0 counted in
            let (s', again) =
              check_items_total expected d some_values start l (inl refl) (rw sorted in_order)
                (no_seen expected d some_values l)
                (rw sorted (sort_items-All (IsVector expected d) items vectors)) in
            let calm : s'.needs_normalization ≡ false = stays expected start l s' again refl (
              (arrange_sound expected items l true h).0
              ∙ ap (λ n. map pos (count_from 0 n)) (sym size)) in
            rw ((==_iff (length l) expected).1 size) (rw (again, calm) refl)
      ]
]

-- What `arrange` does not move, it gives back.
pub arrange_kept :
    (expected : ℕ) (items l : List EmbeddingData)
    → arrange expected items ≡ good (false, l)
    → l ≡ items
unfolding arrange
arrange_kept expected items l h = elim (Bool-cases (length items == expected)) [
  | inr other ↦ absurd (ground arith)
  | inl counted ↦
      let (s, checked, made) = >>=-good (check_items expected start items) _ (rw counted at h) in
      elim (Bool-cases s.needs_normalization) [
        | inl needed ↦ absurd (ground arith)
        | inr calm ↦ ground arith
      ]
]
