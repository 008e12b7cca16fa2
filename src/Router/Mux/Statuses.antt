-- ===== src/Router/Mux/Statuses.antt =====
-- The statuses of the whole gateway.
use go_feather_route.Prelude.{
  ◌≡◌, refl, inl, inr, not, ◌&&◌, Option, Bytes, Bool-cases, Option-cases, arith,
}
use go_feather_route.Prelude.Int.{ℤ}
use go_feather_route.Prelude.Dict.{lookup, bytes_eq}
use go_feather_route.Contract.{Codec}
use go_feather_route.Gateway.{models, provider_for_model}
use go_feather_route.Router.Server.{Server, State}
use go_feather_route.Router.Handling.{Reply, Exit, stop, go}
use go_feather_route.Router.Exchange.{Request, Env}
use go_feather_route.Router.Endpoints.{ready, any_ready, status, list_models, model_status}
use go_feather_route.Router.Metrics.{metrics}
use go_feather_route.Router.Http.{
  Incoming, with_id, is_public_path, authorized, handle, finish, finish_exit, enter,
}
use go_feather_route.Router.Mux.{
  Endpoint, health_endpoint, ready_endpoint, status_endpoint, models_endpoint,
  model_status_endpoint, metrics_endpoint, chat_endpoint, embeddings_endpoint, patterns, Mux,
  run_endpoint, run_picked, serve, gateway,
}
use go_feather_route.Router.Honest.{AllValues}
use go_feather_route.Router.Sound.Handlers.{Answers}
use go_feather_route.Router.Answers.{reply_of}
use go_feather_route.Router.Answers.Statuses.{IsStatus, HasStatus, chat-status}
use go_feather_route.Router.Answers.Embeddings.Statuses.{embeddings-status}

ready_status : (server : Server) → IsStatus (ready server).status
unfolding ready
ready_status server = elim (Bool-cases (any_ready server (models server.routes))) [
  | inl up ↦ rw up (omega arith, omega arith)
  | inr down ↦ rw down (omega arith, omega arith)
]

model_status_lem : (server : Server) (model : Bytes) → IsStatus (model_status server model).status
unfolding model_status
model_status_lem server model = elim (Option-cases (provider_for_model server.routes model)) [
  | inl unknown ↦ rw (unknown, model_status) (omega arith, omega arith)
  | inr (provider, known) ↦ rw (known, model_status) (omega arith, omega arith)
]

module _ (codec : Codec) (unmarshal_usage : Bytes → Option (ℤ × ℤ × ℤ)) (server : Server)
    (honest : AllValues (Answers HasStatus) server.providers) (env : Env) (mux : Mux)
    (own : (method path : Bytes) → IsStatus (mux.refusal method path).status) where
  endpoint_status :
      (endpoint : Endpoint) (model : Bytes) (request : Request) (s : State)
      → IsStatus
          (reply_of (run_endpoint codec unmarshal_usage server env endpoint model request s)).status
  unfolding run_endpoint status list_models metrics
  endpoint_status health_endpoint model request s = (omega arith, omega arith)
  endpoint_status ready_endpoint model request s = ready_status server
  endpoint_status status_endpoint model request s = (omega arith, omega arith)
  endpoint_status models_endpoint model request s = (omega arith, omega arith)
  endpoint_status model_status_endpoint model request s = model_status_lem server model
  endpoint_status metrics_endpoint model request s = (omega arith, omega arith)
  endpoint_status chat_endpoint model request s =
      chat-status codec unmarshal_usage server honest env request s
  endpoint_status embeddings_endpoint model request s =
      embeddings-status codec unmarshal_usage server honest env request s

  serve_status :
      (incoming : Incoming) (request : Request) (s : State)
      → IsStatus (reply_of (serve codec unmarshal_usage server env mux incoming request s)).status
  unfolding serve run_picked
  serve_status incoming request s = elim (Option-cases (mux.pick incoming.method incoming.path)) [
    | inl e ↦ rw e (own incoming.method incoming.path)
    | inr ((pattern, model), e) ↦ elim (Option-cases (lookup pattern patterns)) [
      | inl missing ↦ rw (e, run_picked) (rw missing (own incoming.method incoming.path))
      | inr (endpoint, found) ↦
          rw (e, run_picked) (rw found (endpoint_status endpoint model request s))
    ]
  ]

  finish_status : (incoming : Incoming) (e : Exit Reply) → (finish_exit incoming e).0 ≡ reply_of e
  unfolding finish_exit finish
  finish_status incoming (stop r s) = refl
  finish_status incoming (go r s) = refl

  -- Where the upstreams' statuses and those of the mux's own answers lie between 100 and 999, so does the
  -- status of every reply: WriteHeader, which panics at any other, accepts it.
  pub gateway_status :
      (incoming : Incoming) (s : State)
      → IsStatus (gateway codec unmarshal_usage server env mux incoming s).0.status
  unfolding gateway handle
  gateway_status incoming s =
      elim (Bool-cases
        (not (is_public_path incoming.path) && not (authorized server (with_id incoming).header))) [
          | inl refused ↦ rw refused (omega arith, omega arith)
          | inr admitted ↦ rw admitted (
              rw
                (finish_status incoming (
                  serve codec unmarshal_usage server env mux incoming (with_id incoming) (enter s)))
                (serve_status incoming (with_id incoming) (enter s)))
        ]
