-- ===== src/Router/Embeddings.antt =====
-- The check and the reordering of an upstream's embeddings: `normalizeEmbeddingResponse`.
pub mod Sorting
pub mod Order
pub mod Complete
pub mod Settled
pub mod Again
use go_feather_route.Prelude.{
  ℕ, zero, suc, ◌+◌, ◌-◌, Bool, true, false, not, ◌&&◌, ◌||◌, Option, none, some, List, [], ◌∷◌,
  Bytes, codes, length, all, leb, ltb, ◌==◌, if◌then◌else◌,
}
use go_feather_route.Prelude.Float64.{Float64, is_finite}
use go_feather_route.Prelude.Int.{ℤ, pos, negsuc}
use go_feather_route.Prelude.Dict.{Dict, lookup, insert, bytes_eq}
use go_feather_route.Wire.{Parsed, malformed, null, object}
use go_feather_route.Contract.{EmbeddingData, Codec, decode_embedding_request, input_count}
use go_feather_route.Contract.Problems.{
  Checked, good, bad, or_bad, ◌>>=◌, Problem, invalid_embedding_response, missing_data,
  invalid_data, marshal_failed, wrong_count, invalid_index, duplicate_index, empty_embedding,
  non_finite_value, inconsistent_dimensions,
}

unfoldable pub member : ℕ → List ℕ → Bool
member n [] = false
member n (m ∷ l) = if m == n then true else member n l

-- The variables of the loop over the items: the dimension, 0 before the first item; the indices
-- seen; and whether an item stood out of its place.
pub record Progress : Type 0 where
  pub dimension : ℕ
  pub seen : List ℕ
  pub needs_normalization : Bool

-- The checks of one item once its index is known to be a number below the expected count.
unfoldable pub check_vector : Progress → ℕ → List Float64 → Checked Progress
check_vector s index embedding =
    if member index s.seen
    then bad (duplicate_index (pos index))
    else if length embedding == 0
    then bad (empty_embedding (pos index))
    else if not (s.dimension == 0) && not (length embedding == s.dimension)
    then bad inconsistent_dimensions
    else if not (all is_finite embedding)
    then bad (non_finite_value (pos index))
    else good (record {
      dimension = length embedding;
      seen = index ∷ s.seen;
      needs_normalization = s.needs_normalization || not (index == length s.seen);
    })

unfoldable pub check_item : ℕ → Progress → EmbeddingData → Checked Progress
unfolding check_vector member
check_item expected s item = elim item.index [
  | negsuc n ↦ bad (invalid_index (negsuc n))
  | pos n ↦ if leb expected n then bad (invalid_index (pos n)) else check_vector s n item.embedding
]

unfoldable pub check_items : ℕ → Progress → List EmbeddingData → Checked Progress
unfolding check_item
check_items expected s [] = good s
check_items expected s (item ∷ items) =
    check_item expected s item >>= λ s'. check_items expected s' items

-- response[left].Index < response[right].Index
abbrev pub index_lt : ℤ → ℤ → Bool
index_lt (pos a) (pos b) = ltb a b
index_lt (pos a) (negsuc b) = false
index_lt (negsuc a) (pos b) = true
index_lt (negsuc a) (negsuc b) = ltb b a

unfoldable pub insert_item : EmbeddingData → List EmbeddingData → List EmbeddingData
insert_item x [] = x ∷ []
insert_item x (y ∷ l) = if index_lt y.index x.index then y ∷ insert_item x l else x ∷ y ∷ l

-- sort.Slice by index, by insertion.
unfoldable pub sort_items : List EmbeddingData → List EmbeddingData
unfolding insert_item
sort_items [] = []
sort_items (x ∷ l) = insert_item x (sort_items l)

abbrev pub start : Progress
start = record { dimension = 0; seen = []; needs_normalization = false }

-- The items in the order of their indices, and whether they had to be moved.
unfoldable pub arrange : ℕ → List EmbeddingData → Checked (Bool × List EmbeddingData)
unfolding check_items sort_items
arrange expected items =
    if not (length items == expected)
    then bad (wrong_count (length items) expected)
    else check_items expected start items >>= λ s.
        good (s.needs_normalization, (if s.needs_normalization then sort_items items else items))

module _ (codec : Codec) where
  unfoldable pub response_data : Bytes → Checked (Dict Bytes Bytes × List EmbeddingData)
  response_data body = elim (codec.json.unmarshal_object body) [
    | malformed ↦ bad invalid_embedding_response
    | null ↦ bad missing_data
    | object envelope ↦ elim (lookup (codes "data") envelope) [
      | none ↦ bad missing_data
      | some value ↦ elim (codec.unmarshal_data value) [
        | none ↦ bad invalid_data
        | some items ↦ good (envelope, items)
      ]
    ]
  ]

  unfoldable pub rewritten : Dict Bytes Bytes → List EmbeddingData → Checked Bytes
  rewritten envelope items = or_bad marshal_failed (codec.marshal_data items) >>= λ ordered.
      or_bad marshal_failed (codec.json.marshal_object (insert (codes "data") ordered envelope))

  unfoldable pub normalize_embedding_response : Bytes → Bytes → Checked Bytes
  unfolding response_data rewritten arrange
  normalize_embedding_response request_body response_body =
      decode_embedding_request codec request_body >>= λ request.
      input_count codec request >>= λ expected. response_data response_body >>= λ (envelope, items).
      arrange expected items >>= λ (moved, ordered).
      (if moved then rewritten envelope ordered else good response_body)

  -- The error of the normalization alone.
  unfoldable pub validate_embedding_response : Bytes → Bytes → Checked (Unit {0})
  unfolding normalize_embedding_response
  validate_embedding_response request_body response_body =
      normalize_embedding_response request_body response_body >>= λ _. good tt
