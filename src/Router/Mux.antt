-- ===== src/Router/Mux.antt =====
-- The whole gateway: the patterns that `Handler` registers, and what they lead to.
pub mod Matching
pub mod Public
pub mod Statuses
use go_feather_route.Prelude.{
  ℕ, Bool, true, false, ◌&&◌, ◌||◌, Option, none, some, List, [], ◌∷◌, Bytes, codes, str_eq,
  is_empty, if◌then◌else◌,
}
use go_feather_route.Prelude.Int.{ℤ}
use go_feather_route.Prelude.Dict.{Dict, lookup, bytes_eq}
use go_feather_route.Contract.{Codec}
use go_feather_route.Router.Server.{Server, State}
use go_feather_route.Router.Handling.{Reply, Handler, Exit, go}
use go_feather_route.Router.Exchange.{Request, Env}
use go_feather_route.Router.Chat.{chat}
use go_feather_route.Router.EmbeddingsHandler.{embeddings}
use go_feather_route.Router.Metrics.{metrics}
use go_feather_route.Router.Endpoints.{health, ready, status, list_models, model_status}
use go_feather_route.Router.Http.{Incoming, handle}

pub data Endpoint : Type 0 where
  health_endpoint ready_endpoint status_endpoint models_endpoint model_status_endpoint : Endpoint
  metrics_endpoint chat_endpoint embeddings_endpoint : Endpoint

-- The calls of mux.HandleFunc.
abbrev pub patterns : Dict Bytes Endpoint
patterns =
    (codes "GET /health/live", health_endpoint)
    ∷ (codes "GET /health/liveliness", health_endpoint)
    ∷ (codes "GET /ready", ready_endpoint)
    ∷ (codes "GET /status", status_endpoint)
    ∷ (codes "GET /status/models", models_endpoint)
    ∷ (codes "GET /status/models/{model}", model_status_endpoint)
    ∷ (codes "GET /metrics", metrics_endpoint)
    ∷ (codes "GET /v1/models", models_endpoint)
    ∷ (codes "POST /v1/chat/completions", chat_endpoint)
    ∷ (codes "POST /v1/embeddings", embeddings_endpoint)
    ∷ []

-- net/http's ServeMux over the patterns: the pattern that it picks for a method and a path, with the
-- path's value of the wildcard, or its own answer.
pub record Mux : Type 0 where
  pub pick : Bytes → Bytes → Option (Bytes × Bytes)
  pub refusal : Bytes → Bytes → Reply

module _ (codec : Codec) (unmarshal_usage : Bytes → Option (ℤ × ℤ × ℤ)) (server : Server)
    (env : Env) where
  unfoldable pub run_endpoint : Endpoint → Bytes → Request → Handler Reply
  run_endpoint health_endpoint model request s = go health s
  run_endpoint ready_endpoint model request s = go (ready server) s
  run_endpoint status_endpoint model request s = go (status server s) s
  run_endpoint models_endpoint model request s = go (list_models server) s
  run_endpoint model_status_endpoint model request s = go (model_status server model) s
  run_endpoint metrics_endpoint model request s = go (metrics server s) s
  run_endpoint chat_endpoint model request s = chat codec unmarshal_usage server env request s
  run_endpoint embeddings_endpoint model request s =
      embeddings codec unmarshal_usage server env request s

  unfoldable pub run_picked : Mux → Incoming → Option (Bytes × Bytes) → Request → Handler Reply
  unfolding run_endpoint
  run_picked mux incoming none request s = go (mux.refusal incoming.method incoming.path) s
  run_picked mux incoming (some (pattern, model)) request s = elim (lookup pattern patterns) [
    | none ↦ go (mux.refusal incoming.method incoming.path) s
    | some endpoint ↦ run_endpoint endpoint model request s
  ]

  -- `mux.ServeHTTP`
  unfoldable pub serve : Mux → Incoming → Request → Handler Reply
  unfolding run_picked
  serve mux incoming request s =
      run_picked mux incoming (mux.pick incoming.method incoming.path) request s

  -- The handler that `Handler` returns.
  unfoldable pub gateway : Mux → Incoming → State → Reply × State
  unfolding serve
  gateway mux incoming s = handle server (serve mux incoming) incoming s
