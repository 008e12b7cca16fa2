-- ===== src/Gateway/Models.antt =====
-- The list of configured aliases, `Models`.
use mathlib.Core.List.{Perm}
use mathlib.Core.List.Perm
use go_feather_route.Prelude.{
  ◌≡◌, refl, inl, inr, true, false, List, [], ◌∷◌, Bytes, All, Bool-cases, arith,
}
use go_feather_route.Gateway.{Routes, str_le, sort_insert, sort_strings, keys, models}

str_le_total : (s t : Bytes) → str_le s t ≡ false → str_le t s ≡ true
unfolding str_le
str_le_total [] t h = cc
str_le_total (a ∷ s) [] h = refl
str_le_total (a ∷ s) (b ∷ t) h = ground (arith, str_le_total s t)

str_le_trans : (s t u : Bytes) → str_le s t ≡ true → str_le t u ≡ true → str_le s u ≡ true
unfolding str_le
str_le_trans [] t u h k = refl
str_le_trans (a ∷ s) [] u h k = cc
str_le_trans (a ∷ s) (b ∷ t) [] h k = cc
str_le_trans (a ∷ s) (b ∷ t) (c ∷ u) h k = ground (arith, str_le_trans s t u)

-- Ascending, byte by byte.
abbrev pub IsSorted : List Bytes → Type 0
IsSorted [] = Unit
IsSorted (x ∷ l) = All (λ y. str_le x y ≡ true) l × IsSorted l

All-above :
    (x y : Bytes) (l : List Bytes)
    → str_le x y ≡ true
    → All (λ z. str_le y z ≡ true) l
    → All (λ z. str_le x z ≡ true) l
All-above x y [] h k = tt
All-above x y (z ∷ l) h (p, k) = (str_le_trans x y z h p, All-above x y l h k)

sort_insert-All :
    (P : Bytes → Type 0) (x : Bytes) (l : List Bytes) → P x → All P l → All P (sort_insert x l)
unfolding sort_insert
sort_insert-All P x [] px h = (px, tt)
sort_insert-All P x (y ∷ l) px (py, h) = elim (Bool-cases (str_le x y)) [
  | inl below ↦ rw below (px, (py, h))
  | inr above ↦ rw above (py, sort_insert-All P x l px h)
]

sort_insert-IsSorted : (x : Bytes) (l : List Bytes) → IsSorted l → IsSorted (sort_insert x l)
unfolding sort_insert
sort_insert-IsSorted x [] s = (tt, tt)
sort_insert-IsSorted x (y ∷ l) (above, s) = elim (Bool-cases (str_le x y)) [
  | inl below ↦ rw below ((below, All-above x y l below above), (above, s))
  | inr beyond ↦ rw beyond (
    sort_insert-All (λ z. str_le y z ≡ true) x l (str_le_total x y beyond) above,
    sort_insert-IsSorted x l s,
  )
]

sort_strings-IsSorted : (l : List Bytes) → IsSorted (sort_strings l)
unfolding sort_strings
sort_strings-IsSorted [] = tt
sort_strings-IsSorted (x ∷ l) = sort_insert-IsSorted x (sort_strings l) (sort_strings-IsSorted l)

sort_insert-perm : (x : Bytes) (l : List Bytes) → Perm (sort_insert x l) (x ∷ l)
unfolding sort_insert
sort_insert-perm x [] = Perm.refl (x ∷ [])
sort_insert-perm x (y ∷ l) = elim (Bool-cases (str_le x y)) [
  | inl below ↦ rw below (Perm.refl (x ∷ y ∷ l))
  | inr beyond ↦ rw beyond (Perm.trans (Perm.cons y (sort_insert-perm x l)) (Perm.swap x y l))
]

sort_strings-perm : (l : List Bytes) → Perm (sort_strings l) l
unfolding sort_strings
sort_strings-perm [] = Perm.refl []
sort_strings-perm (x ∷ l) =
    Perm.trans (sort_insert-perm x (sort_strings l)) (Perm.cons x (sort_strings-perm l))

-- `Models` answers the aliases of the table in ascending order, each as often as the table holds it.
pub models-IsSorted_perm : (r : Routes) → IsSorted (models r) × Perm (models r) (keys r.by_model)
unfolding models
models-IsSorted_perm r =
    (sort_strings-IsSorted (keys r.by_model), sort_strings-perm (keys r.by_model))
