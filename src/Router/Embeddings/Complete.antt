-- ===== src/Router/Embeddings/Complete.antt =====
-- Which answers `normalizeEmbeddingResponse` accepts.
use go_feather_route.Prelude.{
  ℕ, ◌≤◌, ◌<◌, ◌≡◌, ◌≢◌, refl, sym, ap, ◌∙◌, ◌⊎◌, inl, inr, Bool, false, not, ◌||◌, List, [], ◌∷◌,
  length, All, ◌==◌, ==_iff, if◌then◌else◌, Bool-cases, arith,
}
use go_feather_route.Prelude.Int.{pos}
use go_feather_route.Contract.{EmbeddingData}
use go_feather_route.Contract.Problems.{good}
use go_feather_route.Router.Embeddings.{
  member, Progress, check_vector, check_item, check_items, sort_items, start, arrange,
}
use go_feather_route.Router.Embeddings.Sorting.{Differs, Distinct}
use go_feather_route.Router.Embeddings.Order.{IsVector}

-- No item has an index that was seen.
abbrev Fresh : List ℕ → EmbeddingData → Type 0
Fresh seen item = All (λ m. item.index ≢ pos m) seen

not_member :
    (n : ℕ) (seen : List ℕ) (item : EmbeddingData)
    → item.index ≡ pos n
    → Fresh seen item
    → member n seen ≡ false
unfolding member
not_member n [] item e f = refl
not_member n (m ∷ seen) item e (ne, f) = elim (Bool-cases (m == n)) [
  | inl same ↦ absurd (ne (e ∙ ap pos (sym ((==_iff m n).0 same))))
  | inr other ↦ rw other (not_member n seen item e f)
]

Fresh-cons :
    (n : ℕ) (seen : List ℕ) (items : List EmbeddingData)
    → All (Differs n) items
    → All (Fresh seen) items
    → All (Fresh (n ∷ seen)) items
Fresh-cons n seen [] d f = tt
Fresh-cons n seen (item ∷ items) (p, d) (q, f) = ((p, q), Fresh-cons n seen items d f)

-- The progress after an accepted item.
abbrev advance : ℕ → Progress → EmbeddingData → Progress
advance n s item = record {
  dimension = length item.embedding;
  seen = n ∷ s.seen;
  needs_normalization = s.needs_normalization || not (n == length s.seen);
}

module _ (expected d : ℕ) (some_values : 1 ≤ d) where
  accepts :
      (n : ℕ) (s : Progress) (item : EmbeddingData)
      → item.index ≡ pos n
      → n < expected
      → (s.dimension ≡ 0) ⊎ (s.dimension ≡ d)
      → member n s.seen ≡ false
      → IsVector expected d item
      → check_item expected s item ≡ good (advance n s item)
  unfolding check_item check_vector
  accepts n s item e k h new (size, fine) = rw e (ground arith)

  pub check_items_total :
      (s : Progress) (items : List EmbeddingData)
      → (s.dimension ≡ 0) ⊎ (s.dimension ≡ d)
      → Distinct expected items
      → All (Fresh s.seen) items
      → All (IsVector expected d) items
      → (s' : Progress) × (check_items expected s items ≡ good s')
  unfolding check_items
  check_items_total s [] h dist f v = (s, refl)
  check_items_total s (item ∷ items) h (n, e, k, others, dist) (p, f) (w, v) =
      rw (accepts n s item e k h (not_member n s.seen item e p) w) (
        check_items_total (advance n s item) items (inr w.0) dist
          (Fresh-cons n s.seen items others f) v)

  pub no_seen : (items : List EmbeddingData) → All (Fresh []) items
  no_seen [] = tt
  no_seen (item ∷ items) = (tt, no_seen items)

-- An answer is accepted whose items are as many as the inputs, have distinct indices below that
-- number, in any order, and carry finite vectors of one dimension that is not 0.
pub arrange_complete :
    (expected d : ℕ) (items : List EmbeddingData)
    → 1 ≤ d
    → length items ≡ expected
    → Distinct expected items
    → All (IsVector expected d) items
    → (moved : Bool) × (l : List EmbeddingData) × (arrange expected items ≡ good (moved, l))
unfolding arrange
arrange_complete expected d items h size dist v =
    let (s, done) =
      check_items_total expected d h start items (inl refl) dist (no_seen expected d h items) v in
    (
      s.needs_normalization,
      (if s.needs_normalization then sort_items items else items),
      rw ((==_iff (length items) expected).1 size) (rw done refl),
    )
