-- ===== src/Router/Tests/Whole.antt =====
-- The whole gateway on one request, with the metrics and the readiness of its server.
use go_feather_route.Prelude.{◌≡◌, ◌↔◌, refl, some, [], ◌∷◌, Bytes, codes, str_eq}
use go_feather_route.Prelude.Dict.{lookup, bytes_eq, get_or}
use go_feather_route.Config.{defaults}
use go_feather_route.Gateway.{models, provider_for_model}
use go_feather_route.Router.Server.{Server, State, new_state}
use go_feather_route.Router.Handling.{error_reply, raw, model_not_configured}
use go_feather_route.Router.Http.{Incoming}
use go_feather_route.Router.Metrics.{metrics, samples}
use go_feather_route.Router.Metrics.Read.{take_apart}
use go_feather_route.Router.Metrics.Lines.{take_apart-metrics}
use go_feather_route.Router.Endpoints.{ready}
use go_feather_route.Router.Endpoints.Ready.{HasConfigured, ready_iff}
use go_feather_route.Router.Mux.{Mux, gateway}
use go_feather_route.Router.Mux.Public.{gateway_balance}
use go_feather_route.Router.Tests.Handlers.{codec, no_usage, server, env, incoming, initial-IsWord}

-- A mux that knows one pattern.
abbrev mux : Mux
mux = record {
  pick = λ method path. some (codes "GET /status", []);
  refusal = λ method path. error_reply 404 (model_not_configured []);
}

abbrev status_request : Incoming
status_request = record incoming { method = codes "GET"; path = codes "/status" }

gateway_balance_example :
    (gateway codec no_usage server env mux incoming new_state).1.gauges ≡ new_state.gauges
gateway_balance_example =
    gateway_balance codec no_usage server env mux incoming new_state initial-IsWord

-- A reason, a provider and a model with a line feed, a quote and a space.
abbrev labelled : State
labelled = record new_state {
  retry_reasons = (codes "a\nb c", 2) ∷ [];
  route_stats =
      (
        record { provider = codes "p\" 1\n"; model = codes "m\\n" },
        record { requests = 3; errors = 1; retries = 1; statuses = (429, 1) ∷ [] },
      )
      ∷ [];
}

take_apart-metrics_example :
    (text : Bytes) × ((metrics server labelled).payload ≡ raw text)
    × (take_apart text ≡ some (samples server labelled))
take_apart-metrics_example = take_apart-metrics server labelled

abbrev keyed : Server
keyed = record server {
  config = record server.config {
    providers =
        (
          codes "local",
          record {
            base_url = codes "http://localhost:11434";
            api_key_env = codes "KEY";
            kind = codes "ollama";
            models = [];
            model_aliases = [];
            api_key = codes "secret";
          },
        )
        ∷ [];
  };
}

keyed-ready : (ready keyed).status ≡ 200
unfolding ready models lookup str_eq get_or defaults provider_for_model
keyed-ready = refl

ready_iff_example :
    (((ready keyed).status ≡ 200) ↔ HasConfigured keyed)
    × (((ready keyed).status ≡ 503) ↔ (HasConfigured keyed → ⊥))
unfolding lookup str_eq
ready_iff_example = ready_iff keyed refl
