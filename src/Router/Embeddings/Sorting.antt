-- ===== src/Router/Embeddings/Sorting.antt =====
-- The insertion sort by index, on items with distinct indices in a range.
use mathlib.Core.List.{Perm}
use mathlib.Core.List.Perm
use go_feather_route.Prelude.{
  ℕ, zero, suc, ◌+◌, ◌≤◌, ◌<◌, ◌≡◌, ◌≢◌, refl, sym, ap, ◌∙◌, inl, inr, List, [], ◌∷◌, map, length,
  All, ltb, Bool-cases, arith,
}
use go_feather_route.Prelude.Int.{pos}
use go_feather_route.Contract.{EmbeddingData}
use go_feather_route.Router.Embeddings.{index_lt, insert_item, sort_items}

-- Indices that ascend strictly, from `lo` on and below `hi`.
abbrev pub Between : ℕ → ℕ → List EmbeddingData → Type 0
Between lo hi [] = Unit
Between lo hi (x ∷ l) = (n : ℕ) × (x.index ≡ pos n) × (lo ≤ n) × (n < hi) × Between (suc n) hi l

-- The numbers from `lo` on.
abbrev pub count_from : ℕ → ℕ → List ℕ
count_from lo zero = []
count_from lo (suc n) = lo ∷ count_from (suc lo) n

abbrev pub Differs : ℕ → EmbeddingData → Type 0
Differs n item = item.index ≢ pos n

insert_item-All :
    (P : EmbeddingData → Type 0) (x : EmbeddingData) (l : List EmbeddingData)
    → P x
    → All P l
    → All P (insert_item x l)
unfolding insert_item
insert_item-All P x [] p h = (p, tt)
insert_item-All P x (y ∷ l) p (q, h) = elim (Bool-cases (index_lt y.index x.index)) [
  | inl before ↦ rw before (q, insert_item-All P x l p h)
  | inr after ↦ rw after (p, (q, h))
]

pub sort_items-All :
    (P : EmbeddingData → Type 0) (l : List EmbeddingData) → All P l → All P (sort_items l)
unfolding sort_items
sort_items-All P [] h = tt
sort_items-All P (x ∷ l) (p, h) = insert_item-All P x (sort_items l) p (sort_items-All P l h)

pub pos-injective : (m n : ℕ) → pos m ≡ pos n → m ≡ n
pos-injective m n e = cc

insert_item-Between :
    (lo hi n : ℕ) (x : EmbeddingData) (l : List EmbeddingData)
    → x.index ≡ pos n
    → lo ≤ n
    → n < hi
    → Between lo hi l
    → All (Differs n) l
    → Between lo hi (insert_item x l)
unfolding insert_item
insert_item-Between lo hi n x [] e h k b d = (n, e, h, k, tt)
insert_item-Between lo hi n x (y ∷ l) e h k (m, f, p, q, b) (ne, d) = elim (Bool-cases (ltb m n)) [
  | inl before ↦
      rw (ap (λ i. index_lt i x.index) f ∙ ap (index_lt (pos m)) e ∙ before)
        (m, f, p, q, insert_item-Between (suc m) hi n x l e (ground arith) k b d)
  | inr after ↦
      let apart : m ≢ n = λ same. ne (f ∙ ap pos same) in
      rw (ap (λ i. index_lt i x.index) f ∙ ap (index_lt (pos m)) e ∙ after)
        (n, e, h, k, (m, f, ground arith, q, b))
]

-- In a range, and no two with one index.
abbrev pub Distinct : ℕ → List EmbeddingData → Type 0
Distinct hi [] = Unit
Distinct hi (x ∷ l) = (n : ℕ) × (x.index ≡ pos n) × (n < hi) × All (Differs n) l × Distinct hi l

pub sort_items-Between :
    (hi : ℕ) (l : List EmbeddingData) → Distinct hi l → Between 0 hi (sort_items l)
unfolding sort_items
sort_items-Between hi [] d = tt
sort_items-Between hi (x ∷ l) (n, e, k, others, d) =
    insert_item-Between 0 hi n x (sort_items l) e (omega arith) k (sort_items-Between hi l d)
      (sort_items-All (Differs n) l others)

insert_item-perm : (x : EmbeddingData) (l : List EmbeddingData) → Perm (insert_item x l) (x ∷ l)
unfolding insert_item
insert_item-perm x [] = Perm.refl (x ∷ [])
insert_item-perm x (y ∷ l) = elim (Bool-cases (index_lt y.index x.index)) [
  | inl before ↦ rw before (Perm.trans (Perm.cons y (insert_item-perm x l)) (Perm.swap x y l))
  | inr after ↦ rw after (Perm.refl (x ∷ y ∷ l))
]

pub sort_items-perm : (l : List EmbeddingData) → Perm (sort_items l) l
unfolding sort_items
sort_items-perm [] = Perm.refl []
sort_items-perm (x ∷ l) =
    Perm.trans (insert_item-perm x (sort_items l)) (Perm.cons x (sort_items-perm l))

length-insert_item :
    (x : EmbeddingData) (l : List EmbeddingData) → length (insert_item x l) ≡ suc (length l)
unfolding insert_item
length-insert_item x [] = refl
length-insert_item x (y ∷ l) = elim (Bool-cases (index_lt y.index x.index)) [
  | inl before ↦ rw before (ap suc (length-insert_item x l))
  | inr after ↦ rw after refl
]

pub length-sort_items : (l : List EmbeddingData) → length (sort_items l) ≡ length l
unfolding sort_items
length-sort_items [] = refl
length-sort_items (x ∷ l) = length-insert_item x (sort_items l) ∙ ap suc (length-sort_items l)

room : (lo hi : ℕ) (l : List EmbeddingData) → Between lo hi l → lo ≤ hi → lo + length l ≤ hi
room lo hi [] b h = omega arith
room lo hi (x ∷ l) (n, e, p, q, b) h = omega (arith, room (suc n) hi l b q)

-- As many indices as the range has room for are all of the range, in order.
pub Between-full :
    (lo hi : ℕ) (l : List EmbeddingData)
    → Between lo hi l
    → lo + length l ≡ hi
    → map (λ i. i.index) l ≡ map pos (count_from lo (length l))
Between-full lo hi [] b h = refl
Between-full lo hi (x ∷ l) (n, e, p, q, b) h =
    let same : n ≡ lo = omega (arith, room (suc n) hi l b q) in
    let rest = Between-full (suc n) hi l b (omega arith) in rw (e, rest, same)

Between-Differs :
    (lo hi m : ℕ) (l : List EmbeddingData) → m < lo → Between lo hi l → All (Differs m) l
Between-Differs lo hi m [] h b = tt
Between-Differs lo hi m (x ∷ l) h (n, e, p, q, b) =
    let apart : m ≢ n = λ same. omega arith in
    (λ f. apart (pos-injective m n (sym f ∙ e)), Between-Differs (suc n) hi m l (omega arith) b)

pub Between-Distinct : (lo hi : ℕ) (l : List EmbeddingData) → Between lo hi l → Distinct hi l
Between-Distinct lo hi [] b = tt
Between-Distinct lo hi (x ∷ l) (n, e, p, q, b) =
    (n, e, q, Between-Differs (suc n) hi n l (omega arith) b, Between-Distinct (suc n) hi l b)
