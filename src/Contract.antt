-- ===== src/Contract.antt =====
-- internal/contract/openai.go: the wire types and their checks.
pub mod Problems
use go_feather_route.Prelude.{
  ℕ, Bool, true, false, ◌||◌, Option, none, some, List, [], ◌∷◌, Bytes, codes, str_eq, is_empty,
  length, ◌==◌, if◌then◌else◌,
}
use go_feather_route.Prelude.Int.{ℤ}
use go_feather_route.Prelude.Float64.{Float64}
use go_feather_route.Wire.{Json, Parsed, malformed, null, object}
use go_feather_route.Contract.Problems.{
  Checked, good, bad, Problem, invalid_chat_json, missing_model, invalid_embedding_json,
  missing_input, invalid_input, empty_batch, invalid_chat_response, empty_chat_response,
}

pub record ResponseFormat : Type 0 where
  pub type : Bytes

pub record ChatRequest : Type 0 where
  pub model : Bytes
  pub messages : Bytes
  pub max_tokens : ℤ
  pub stream : Bool
  pub response_format : Option ResponseFormat

pub record EmbeddingRequest : Type 0 where
  pub model : Bytes
  pub input : Bytes

pub record EmbeddingData : Type 0 where
  pub index : ℤ
  pub embedding : List Float64

-- json.Unmarshal into the types of this package, and Marshal of embedding data.
pub record Codec : Type 0 where
  pub json : Json
  pub unmarshal_chat : Bytes → Option ChatRequest
  pub unmarshal_embedding : Bytes → Option EmbeddingRequest
  pub unmarshal_array : Bytes → Option (List Bytes)
  pub unmarshal_data : Bytes → Option (List EmbeddingData)
  pub marshal_data : List EmbeddingData → Option Bytes

module _ (codec : Codec) where
  unfoldable pub decode_chat_request : Bytes → Checked ChatRequest
  decode_chat_request body = elim (codec.unmarshal_chat body) [
    | none ↦ bad invalid_chat_json
    | some request ↦ if is_empty request.model then bad missing_model else good request
  ]

  unfoldable pub decode_embedding_request : Bytes → Checked EmbeddingRequest
  decode_embedding_request body = elim (codec.unmarshal_embedding body) [
    | none ↦ bad invalid_embedding_json
    | some request ↦
        if is_empty request.model
        then bad missing_model
        else if is_empty request.input || str_eq request.input (codes "null")
        then bad missing_input
        else good request
  ]

  unfoldable pub batch_count : Option (List Bytes) → Checked ℕ
  batch_count none = bad invalid_input
  batch_count (some []) = bad empty_batch
  batch_count (some (x ∷ xs)) = good (length (x ∷ xs))

  -- `len(request.Input) > 0 && request.Input[0] == '['`
  abbrev pub is_array : Bytes → Bool
  is_array [] = false
  is_array (c ∷ _) = c == b'['

  unfoldable pub input_count : EmbeddingRequest → Checked ℕ
  unfolding batch_count
  input_count request =
      if is_array request.input then batch_count (codec.unmarshal_array request.input) else good 1

  -- `none` is a nil error.
  unfoldable pub validate_chat_response : Bytes → Option Problem
  validate_chat_response body = elim (codec.json.unmarshal_object body) [
    | malformed ↦ some invalid_chat_response
    | null ↦ some empty_chat_response
    | object _ ↦ none
  ]
