-- ===== src/Provider/Prepare.antt =====
-- The bodies that the client sends: `prepareModelBody`, `prepareChatBody` and `stripProviderPrefix`.
use go_feather_route.Prelude.{
  not, ◌||◌, Option, none, some, [], ◌∷◌, Bytes, codes, str_eq, is_empty, cut, if◌then◌else◌,
}
use go_feather_route.Prelude.Dict.{Dict, lookup, insert, delete, get_or, bytes_eq}
use go_feather_route.Prelude.Maybe.{◌>>=◌}
use go_feather_route.Wire.{Parsed, malformed, null, object, Json}
use go_feather_route.Provider.{
  Client, Result, err, nil_map_write, ok, or_fail, prepare_failed, ◌>>=!◌,
}

-- The keys of a parsed JSON object; a map that is nil has none to find.
abbrev pub object_of : Parsed → Option (Dict Bytes Bytes)
object_of (object request) = some request
object_of _ = none

module _ (json : Json) where
  -- The body with its model cut after the provider's name; `none` where the body stays.
  unfoldable pub strip? : Client → Bytes → Option Bytes
  strip? c body = do
    request ← object_of (json.unmarshal_object body)
    value ← lookup (codes "model") request
    model ← json.unmarshal_string value
    (prefix, upstream) ← cut b'/' model
    if not (str_eq prefix c.name) || is_empty upstream
        then none
        else json.marshal_object (insert (codes "model") (json.marshal_string upstream) request)

  unfoldable pub strip_provider_prefix : Client → Bytes → Bytes
  unfolding strip? get_or
  strip_provider_prefix c body = get_or (strip? c body) body

  -- The model that a request names: "" where it names none, `none` where it is no string.
  unfoldable pub requested_model : Option Bytes → Option Bytes
  requested_model none = some []
  requested_model (some value) = json.unmarshal_string value

  -- `request["model"] = …` and what follows it; a write to a nil map panics.
  unfoldable pub set_model : Parsed → Bytes → Result Bytes
  set_model malformed provider_model = err prepare_failed
  set_model null provider_model = err nil_map_write
  set_model (object request) provider_model =
      or_fail
        (json.marshal_object (insert (codes "model") (json.marshal_string provider_model) request))
        prepare_failed

  abbrev pub field : Parsed → Bytes → Option Bytes
  field (object request) name = lookup name request
  field _ name = none

  unfoldable pub aliased_body : Client → Bytes → Parsed → Result Bytes
  unfolding requested_model set_model
  aliased_body c body malformed = err prepare_failed
  aliased_body c body request = elim (requested_model (field request (codes "model"))) [
    | none ↦ err prepare_failed
    | some model ↦ elim (lookup model c.model_aliases) [
      | none ↦ ok body
      | some provider_model ↦ set_model request provider_model
    ]
  ]

  unfoldable pub prepare_model_body : Client → Bytes → Result Bytes
  unfolding aliased_body strip_provider_prefix
  prepare_model_body c body = elim c.model_aliases [
    | [] ↦ ok (strip_provider_prefix c body)
    | _ ∷ _ ↦ aliased_body c body (json.unmarshal_object body) >>=! λ prepared.
        ok (strip_provider_prefix c prepared)
  ]

  unfoldable pub reasoning_effort : Dict Bytes Bytes → Bytes
  reasoning_effort request = elim (lookup (codes "reasoning_effort") request) [
    | none ↦ []
    | some value ↦ get_or (json.unmarshal_string value) []
  ]

  -- The request of an Ollama server: `reasoning_effort: "none"` becomes `think: false`.
  unfoldable pub ollama_request : Dict Bytes Bytes → Dict Bytes Bytes
  unfolding reasoning_effort
  ollama_request request =
      if str_eq (reasoning_effort request) (codes "none")
      then delete (codes "reasoning_effort") (insert (codes "think") (codes "false") request)
      else request

  -- Marshal of the map, where a nil map gives "null".
  unfoldable pub ollama_body : Parsed → Result Bytes
  unfolding ollama_request
  ollama_body malformed = err prepare_failed
  ollama_body null = ok (codes "null")
  ollama_body (object request) =
      or_fail (json.marshal_object (ollama_request request)) prepare_failed

  unfoldable pub prepare_chat_body : Client → Bytes → Result Bytes
  unfolding prepare_model_body ollama_body strip_provider_prefix
  prepare_chat_body c body = prepare_model_body c body >>=! λ prepared.
      if not (str_eq c.kind (codes "ollama"))
      then ok (strip_provider_prefix c prepared)
      else ollama_body (json.unmarshal_object prepared) >>=! λ marshalled.
          ok (strip_provider_prefix c marshalled)
