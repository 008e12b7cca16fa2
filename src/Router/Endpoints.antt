-- ===== src/Router/Endpoints.antt =====
-- The endpoints that report: `health`, `ready`, `status`, `models` and `modelStatus`.
pub mod Ready
use go_feather_route.Prelude.{
  ℕ, Bool, true, false, not, ◌&&◌, ◌||◌, Option, none, some, List, [], ◌∷◌, Bytes, codes, is_empty,
  length, map, if◌then◌else◌,
}
use go_feather_route.Prelude.Int.{ℤ, pos, to_int64}
use go_feather_route.Prelude.Dict.{Dict, lookup, get_or, bytes_eq}
use go_feather_route.Config.{ProviderConfig}
use go_feather_route.Gateway.{models, provider_for_model}
use go_feather_route.Router.Server.{Server, State, Gauges, Counters}
use go_feather_route.Router.Handling.{
  Scalar, text, number, Document, fields, list, Reply, json_reply, error_reply,
  model_not_configured,
}

abbrev pub health : Reply
health =
    json_reply 200
      (fields ((codes "object", text (codes "health")) ∷ (codes "status", text (codes "ok")) ∷ []))

-- The provider of a model, and "" where there is none.
abbrev pub owner : Server → Bytes → Bytes
owner server model = get_or (provider_for_model server.routes model) []

-- `ok && providerConfig.APIKey != ""`
unfoldable pub has_credentials : Option ProviderConfig → Bool
has_credentials none = false
has_credentials (some provider) = not (is_empty provider.api_key)

unfoldable pub is_ready_model : Server → Bytes → Bool
unfolding has_credentials
is_ready_model server model =
    has_credentials (lookup (owner server model) server.config.providers) && not (is_empty model)

-- The loop over the models, up to the first that is ready.
unfoldable pub any_ready : Server → List Bytes → Bool
unfolding is_ready_model
any_ready server [] = false
any_ready server (model ∷ models) =
    if is_ready_model server model then true else any_ready server models

unfoldable pub ready : Server → Reply
unfolding any_ready
ready server =
    if any_ready server (models server.routes)
    then json_reply 200 (
        fields
          ((codes "object", text (codes "ready")) ∷ (codes "status", text (codes "ready")) ∷ []))
    else json_reply 503 (
        fields (
          (codes "object", text (codes "ready"))
          ∷ (codes "status", text (codes "degraded"))
          ∷ (codes "reason", text (codes "no configured provider credentials"))
          ∷ []))

abbrev counter : Bytes → ℕ → Bytes × Scalar
counter name value = (name, number (pos value))

-- A gauge is an atomic.Int64.
abbrev gauge : Bytes → ℕ → Bytes × Scalar
gauge name value = (name, number (to_int64 value))

unfoldable pub status : Server → State → Reply
status server s =
    let g = s.gauges in
    let c = s.counters in
    json_reply 200 (
      fields (
        (codes "object", text (codes "gateway_status"))
        ∷ (codes "status", text (codes "ok"))
        ∷ counter (codes "requests") c.requests
        ∷ counter (codes "errors") c.errors
        ∷ counter (codes "models") (length (models server.routes))
        ∷ gauge (codes "active") g.active
        ∷ gauge (codes "active_chat") g.active_chat
        ∷ gauge (codes "active_embeddings") g.active_embeddings
        ∷ gauge (codes "streams") g.active_streams
        ∷ counter (codes "streams_total") c.streams_total
        ∷ counter (codes "streams_completed") c.stream_completed
        ∷ counter (codes "streams_aborted") c.stream_aborted
        ∷ counter (codes "auth_failures") c.auth_failures
        ∷ counter (codes "limit_rejections") c.limit_rejections
        ∷ counter (codes "cancellations") c.cancellations
        ∷ counter (codes "provider_errors") c.provider_errors
        ∷ counter (codes "retries") c.retries
        ∷ counter (codes "bytes") c.bytes
        ∷ counter (codes "duration_ms") c.duration_ms
        ∷ counter (codes "upstream_ms") c.upstream_ms
        ∷ counter (codes "first_byte_ms") c.first_byte_ms
        ∷ counter (codes "provider_selection_ms") c.selection_ms
        ∷ counter (codes "connection_establishment_ms") c.connection_ms
        ∷ counter (codes "first_response_ms") c.first_response_ms
        ∷ []))

unfoldable pub model_entry : Server → Bytes → Dict Bytes Scalar
model_entry server model =
    (codes "id", text model)
    ∷ (codes "object", text (codes "model"))
    ∷ (codes "owned_by", text (owner server model))
    ∷ []

unfoldable pub list_models : Server → Reply
unfolding model_entry
list_models server = json_reply 200 (list (map (model_entry server) (models server.routes)))

-- config.Providers[name].APIKey == "", where a missing name has the zero value.
unfoldable pub credential_status : Option ProviderConfig → Bytes
unfolding has_credentials
credential_status provider =
    if has_credentials provider then codes "configured" else codes "missing_credentials"

abbrev pub model_document : Bytes → Bytes → Bytes → Document
model_document model provider status = fields (
    (codes "object", text (codes "model_status"))
    ∷ (codes "id", text model)
    ∷ (codes "provider", text provider)
    ∷ (codes "status", text status)
    ∷ [])

unfoldable pub model_status : Server → Bytes → Reply
unfolding credential_status
model_status server model = elim (provider_for_model server.routes model) [
  | none ↦ error_reply 404 (model_not_configured model)
  | some provider ↦
      json_reply 200 (
        model_document model provider (credential_status (lookup provider server.config.providers)))
]
