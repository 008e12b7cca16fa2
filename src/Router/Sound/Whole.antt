-- ===== src/Router/Sound/Whole.antt =====
-- An invariant of the maps of metrics over the whole gateway and any sequence of requests.
use go_feather_route.Prelude.{
  ℕ, refl, inl, inr, not, ◌&&◌, Option, List, [], ◌∷◌, Bytes, Bool-cases, Option-cases,
}
use go_feather_route.Prelude.Int.{ℤ}
use go_feather_route.Prelude.Dict.{lookup, bytes_eq}
use go_feather_route.Contract.{Codec}
use go_feather_route.Provider.{Response, World}
use go_feather_route.Router.Server.{Server, State}
use go_feather_route.Router.Handling.{Reply, Exit, stop, go, invalid_token, error_reply}
use go_feather_route.Router.Exchange.{Request, Env}
use go_feather_route.Router.Http.{
  Incoming, with_id, is_public_path, authorized, handle, finish, finish_exit, enter, count_refusal,
}
use go_feather_route.Router.Mux.{
  Endpoint, health_endpoint, ready_endpoint, status_endpoint, models_endpoint,
  model_status_endpoint, metrics_endpoint, chat_endpoint, embeddings_endpoint, patterns, Mux,
  run_endpoint, run_picked, serve, gateway,
}
use go_feather_route.Router.Honest.{AllValues}
use go_feather_route.Router.Sound.{Ends, Anything}
use go_feather_route.Router.Sound.Handlers.{Answers, IsKept, Sound-chat, Sound-embeddings}

-- A request with its surroundings: also what the upstreams answer while it is handled, by the provider's
-- name and the index of the failover.
pub record Visit : Type 0 where
  pub worlds : Bytes → ℕ → World
  pub env : Env
  pub mux : Mux
  pub incoming : Incoming

-- The state after requests that are handled in turn, by a server whose clients meet those answers.
unfoldable pub after_visits :
    Codec
    → (Bytes → Option (ℤ × ℤ × ℤ))
    → ((Bytes → ℕ → World) → Server)
    → List Visit
    → State
    → State
after_visits codec unmarshal_usage serving [] s = s
after_visits codec unmarshal_usage serving (v ∷ visits) s =
    after_visits codec unmarshal_usage serving visits
      (gateway codec unmarshal_usage (serving v.worlds) v.env v.mux v.incoming s).1

module _ (I : State → Type 0) (Q : Response → Type 0) (kept : IsKept I Q) (codec : Codec)
    (unmarshal_usage : Bytes → Option (ℤ × ℤ × ℤ)) (server : Server)
    (honest : AllValues (Answers Q) server.providers) where
  endpoint_kept :
      (env : Env) (endpoint : Endpoint) (model : Bytes) (request : Request) (s : State)
      → I s
      → Ends I Anything (run_endpoint codec unmarshal_usage server env endpoint model request s)
  unfolding run_endpoint
  endpoint_kept env health_endpoint model request s i = (i, tt)
  endpoint_kept env ready_endpoint model request s i = (i, tt)
  endpoint_kept env status_endpoint model request s i = (i, tt)
  endpoint_kept env models_endpoint model request s i = (i, tt)
  endpoint_kept env model_status_endpoint model request s i = (i, tt)
  endpoint_kept env metrics_endpoint model request s i = (i, tt)
  endpoint_kept env chat_endpoint model request s i =
      (Sound-chat I Q kept codec unmarshal_usage server honest env request).at s i
  endpoint_kept env embeddings_endpoint model request s i =
      (Sound-embeddings I Q kept codec unmarshal_usage server honest env request).at s i

  serve_kept :
      (env : Env) (mux : Mux) (incoming : Incoming) (request : Request) (s : State)
      → I s
      → Ends I Anything (serve codec unmarshal_usage server env mux incoming request s)
  unfolding serve run_picked
  serve_kept env mux incoming request s i =
      elim (Option-cases (mux.pick incoming.method incoming.path)) [
        | inl e ↦ rw e (i, tt)
        | inr ((pattern, model), e) ↦ elim (Option-cases (lookup pattern patterns)) [
          | inl missing ↦ rw (e, run_picked) (rw missing (i, tt))
          | inr (endpoint, found) ↦
              rw (e, run_picked) (rw found (endpoint_kept env endpoint model request s i))
        ]
      ]

  finish_kept :
      (incoming : Incoming) (e : Exit Reply) → Ends I Anything e → I (finish_exit incoming e).1
  unfolding finish_exit finish
  finish_kept incoming (stop r s) i = kept.frame s _ refl refl i
  finish_kept incoming (go r s) (i, _) = kept.frame s _ refl refl i

  gateway_kept :
      (env : Env) (mux : Mux) (incoming : Incoming) (s : State)
      → I s
      → I (gateway codec unmarshal_usage server env mux incoming s).1
  unfolding gateway handle
  gateway_kept env mux incoming s i =
      elim (Bool-cases
        (not (is_public_path incoming.path) && not (authorized server (with_id incoming).header))) [
          | inl refused ↦ rw refused (
              finish_kept incoming (stop (error_reply 401 invalid_token) (count_refusal (enter s)))
                (kept.frame s _ refl refl i))
          | inr admitted ↦ rw admitted (
              finish_kept incoming _ (
                serve_kept env mux incoming (with_id incoming) (enter s)
                  (kept.frame s _ refl refl i)))
        ]

module _ (I : State → Type 0) (Q : Response → Type 0) (kept : IsKept I Q) (codec : Codec)
    (unmarshal_usage : Bytes → Option (ℤ × ℤ × ℤ)) (serving : (Bytes → ℕ → World) → Server)
    (honest : (worlds : Bytes → ℕ → World) → AllValues (Answers Q) (serving worlds).providers) where
  pub after_visits_kept :
      (visits : List Visit) (s : State)
      → I s
      → I (after_visits codec unmarshal_usage serving visits s)
  unfolding after_visits
  after_visits_kept [] s i = i
  after_visits_kept (v ∷ visits) s i = after_visits_kept visits _ (
      gateway_kept I Q kept codec unmarshal_usage (serving v.worlds) (honest v.worlds) v.env v.mux
        v.incoming s i)
