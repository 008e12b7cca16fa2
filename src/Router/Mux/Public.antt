-- ===== src/Router/Mux/Public.antt =====
-- The requests without a key, and the gauges, over the whole gateway.
use go_feather_route.Prelude.{◌≡◌, refl, inl, inr, Option, Bytes, Option-cases}
use go_feather_route.Prelude.Int.{ℤ}
use go_feather_route.Prelude.Dict.{lookup, bytes_eq}
use go_feather_route.Contract.{Codec}
use go_feather_route.Router.Server.{Server, State}
use go_feather_route.Router.Handling.{Reply, invalid_token, error_reply}
use go_feather_route.Router.Exchange.{Request, Env}
use go_feather_route.Router.Keeps.{IsWord, exit_state}
use go_feather_route.Router.Balance.{chat_balance, embeddings_balance}
use go_feather_route.Router.Http.{Incoming, enter}
use go_feather_route.Router.Http.Refusal.{handle_balance}
use go_feather_route.Router.Endpoints.{health, ready, status}
use go_feather_route.Router.Metrics.{metrics}
use go_feather_route.Router.Mux.{
  Endpoint, health_endpoint, ready_endpoint, status_endpoint, models_endpoint,
  model_status_endpoint, metrics_endpoint, chat_endpoint, embeddings_endpoint, patterns, Mux,
  run_endpoint, run_picked, serve, gateway,
}

module _ (codec : Codec) (unmarshal_usage : Bytes → Option (ℤ × ℤ × ℤ)) (server : Server)
    (env : Env) (mux : Mux) (incoming : Incoming) (s : State) where
  -- What a client without the key sees: a refusal, the mux's own answer, or one of four reports.
  pub data IsOpen : Reply → Type 0 where
    refused : IsOpen (error_reply 401 invalid_token)
    unknown : IsOpen (mux.refusal incoming.method incoming.path)
    healthy : IsOpen health
    readiness : IsOpen (ready server)
    statistics : IsOpen (status server (enter s))
    measured : IsOpen (metrics server (enter s))

  Keeps-serve :
      (request : Request) (t : State)
      → IsWord t.gauges
      → (exit_state (serve codec unmarshal_usage server env mux incoming request t)).gauges
        ≡ t.gauges
  unfolding serve run_picked run_endpoint
  Keeps-serve request t w = elim (Option-cases (mux.pick incoming.method incoming.path)) [
    | inl e ↦ rw e refl
    | inr ((pattern, model), e) ↦ elim (Option-cases (lookup pattern patterns)) [
      | inl missing ↦ rw (e, run_picked) (rw missing refl)
      | inr (endpoint, found) ↦
          rw (e, run_picked) (rw found (Keeps-endpoint endpoint model request t w))
    ]
  ]
    where
      Keeps-endpoint :
          (endpoint : Endpoint) (model : Bytes) (request : Request) (t : State)
          → IsWord t.gauges
          → (exit_state
              (run_endpoint codec unmarshal_usage server env endpoint model request t)).gauges
            ≡ t.gauges
      Keeps-endpoint health_endpoint model request t w = refl
      Keeps-endpoint ready_endpoint model request t w = refl
      Keeps-endpoint status_endpoint model request t w = refl
      Keeps-endpoint models_endpoint model request t w = refl
      Keeps-endpoint model_status_endpoint model request t w = refl
      Keeps-endpoint metrics_endpoint model request t w = refl
      Keeps-endpoint chat_endpoint model request t w =
          chat_balance codec unmarshal_usage server env request t w
      Keeps-endpoint embeddings_endpoint model request t w =
          embeddings_balance codec unmarshal_usage server env request t w

  -- Whatever a request is and however it is answered, every gauge and every semaphore is afterwards as
  -- it was before the request.
  pub gateway_balance :
      IsWord s.gauges
      → (gateway codec unmarshal_usage server env mux incoming s).1.gauges ≡ s.gauges
  unfolding gateway
  gateway_balance w =
      handle_balance server (serve codec unmarshal_usage server env mux incoming) incoming s
        Keeps-serve w
