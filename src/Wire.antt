-- ===== src/Wire.antt =====
-- What the program uses of net/http, io and encoding/json: header maps, response bodies as the
-- reads that they answer, and JSON texts through an interface.
use go_feather_route.Prelude.{Bool, true, false, Option, List, [], ◌∷◌, ◌++◌, Bytes}
use go_feather_route.Prelude.Dict.{Dict, lookup, get_or, bytes_eq}

-- Header names in canonical form.
abbrev pub Headers : Type 0
Headers = Dict Bytes Bytes

-- headers.Get(name): "" on a missing name
unfoldable pub header_get : Headers → Bytes → Bytes
unfolding get_or
header_get headers name = get_or (lookup name headers) []

-- The error that ends a body, or a call.
pub data Cause : Type 0 where
  eof canceled deadline_exceeded other : Cause

-- errors.Is(err, context.Canceled) || errors.Is(err, context.DeadlineExceeded)
abbrev pub is_context_error : Cause → Bool
is_context_error canceled = true
is_context_error deadline_exceeded = true
is_context_error _ = false

abbrev pub is_eof : Cause → Bool
is_eof eof = true
is_eof _ = false

-- The answers of `Read`, in order: chunks with no error, then one chunk with the error.
pub record Body : Type 0 where
  pub reads : List Bytes
  pub final : Bytes
  pub cause : Cause

unfoldable pub concat : List Bytes → Bytes
concat [] = []
concat (chunk ∷ chunks) = chunk ++ concat chunks

-- All bytes that a body yields before its error.
unfoldable pub content : Body → Bytes
unfolding concat
content body = concat body.reads ++ body.final

-- json.Unmarshal into a map[string]json.RawMessage: an error, a nil map, or a map.
pub data Parsed : Type 0 where
  malformed null : Parsed
  object : Dict Bytes Bytes → Parsed

-- encoding/json as the program calls it. `unmarshal_string` is Unmarshal into a string, where the
-- JSON null leaves ""; `marshal_object` is Marshal of a map[string]json.RawMessage.
pub record Json : Type 0 where
  pub unmarshal_object : Bytes → Parsed
  pub unmarshal_string : Bytes → Option Bytes
  pub marshal_string : Bytes → Bytes
  pub marshal_object : Dict Bytes Bytes → Option Bytes
