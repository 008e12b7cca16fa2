-- ===== src/Router/Server.antt =====
-- The server: what `NewServer` fixes, and what its handlers change.
use go_feather_route.Prelude.{
  ℕ, ◌*◌, ◌^◌, ◌-◌, Bool, true, ◌&&◌, List, [], ◌∷◌, Bytes, str_eq, str_eq_iff, leb, if◌then◌else◌,
  ◌≡◌, ◌↔◌, arith,
}
use go_feather_route.Prelude.Int.{ℤ, pos, not_positive, add64}
use go_feather_route.Prelude.Dict.{Dict, Eq, lookup, insert, get_or, nat_eq, bytes_eq}
use go_feather_route.Gateway.{Rule, Routes, new_routes_with_rules}
use go_feather_route.Config.{Config, ServerConfig, ProviderConfig, RouteRule}
use go_feather_route.Provider.{Client, ClientApi, new_client, second}
use go_feather_route.Usage.{Reporter}
use go_feather_route.Router.Labels.{bounded_metric_label}
use go_feather_route.Router.Histogram.{DurationHistogram, new_histogram}
use go_feather_route.Router.Health.{Health, new_health}

pub record RouteKey : Type 0 where
  pub provider : Bytes
  pub model : Bytes

unfoldable pub key_eq : RouteKey → RouteKey → Bool
key_eq a b = str_eq a.provider b.provider && str_eq a.model b.model

pub key_eq_iff : (a b : RouteKey) → (key_eq a b ≡ true) ↔ (a ≡ b)
unfolding key_eq
key_eq_iff a b = ground (arith, str_eq_iff a.provider b.provider, str_eq_iff a.model b.model)

instance abbrev pub key_eq_instance : Eq RouteKey
key_eq_instance = record { beq = key_eq; beq_iff = key_eq_iff }

pub record RouteMetric : Type 0 where
  pub requests : ℕ
  pub errors : ℕ
  pub retries : ℕ
  pub statuses : Dict ℕ ℕ

-- The gauges that a handler raises and lowers, and the slots in use of the three semaphores.
pub record Gauges : Type 0 where
  pub active : ℕ
  pub active_chat : ℕ
  pub active_embeddings : ℕ
  pub active_streams : ℕ
  pub semaphore : ℕ
  pub embedding_semaphore : ℕ
  pub stream_semaphore : ℕ

-- The counters that only grow.
pub record Counters : Type 0 where
  pub requests : ℕ
  pub errors : ℕ
  pub streams_total : ℕ
  pub stream_completed : ℕ
  pub stream_aborted : ℕ
  pub auth_failures : ℕ
  pub limit_rejections : ℕ
  pub cancellations : ℕ
  pub provider_errors : ℕ
  pub retries : ℕ
  pub bytes : ℕ
  pub duration_ms : ℕ
  pub upstream_ms : ℕ
  pub first_byte_ms : ℕ
  pub first_response_ms : ℕ
  pub selection_ms : ℕ
  pub connection_ms : ℕ
  pub stream_ms : ℕ

pub record State : Type 0 where
  pub gauges : Gauges
  pub counters : Counters
  pub health : Health
  pub retry_reasons : Dict Bytes ℕ
  pub request_histogram : DurationHistogram
  pub upstream_histogram : DurationHistogram
  pub first_byte_histogram : DurationHistogram
  pub stream_histogram : DurationHistogram
  pub route_stats : Dict RouteKey RouteMetric

-- What does not change after `NewServer`. The clients stand behind their interface.
pub record Server : Type 0 where
  pub config : Config
  pub routes : Routes
  pub providers : Dict Bytes ClientApi
  pub usage_reporter : Reporter

abbrev pub at_least : ℤ → ℤ → ℤ
at_least value default = if not_positive value then default else value

-- The limits of `NewServer`, where a missing one has a default.
unfoldable pub with_limits : ServerConfig → ServerConfig
with_limits c = record c {
  max_concurrent_requests = at_least c.max_concurrent_requests (pos 16);
  max_concurrent_streams = at_least c.max_concurrent_streams (pos 4);
  max_concurrent_embeddings = at_least c.max_concurrent_embeddings (pos 2);
  max_response_bytes = at_least c.max_response_bytes (pos (8 * 2 ^ 20));
  stream_idle_timeout = at_least c.stream_idle_timeout (pos (30 * second));
}

unfoldable pub to_client : Bytes → ProviderConfig → Client
to_client name item = record (new_client name item.base_url item.api_key) {
  kind = item.kind;
  model_aliases = item.model_aliases;
}

unfoldable pub to_clients : (Client → ClientApi) → Dict Bytes ProviderConfig → Dict Bytes ClientApi
unfolding to_client
to_clients api [] = []
to_clients api ((name, item) ∷ items) = (name, api (to_client name item)) ∷ to_clients api items

unfoldable pub to_rules : List RouteRule → List Rule
to_rules [] = []
to_rules (rule ∷ rules) = record { match = rule.match; provider = rule.provider } ∷ to_rules rules

-- `api` makes a client of the provider package a capability of the gateway.
unfoldable pub new_server : (Client → ClientApi) → Config → Server
unfolding with_limits to_clients to_rules
new_server api cfg = record {
  config = record cfg { server = with_limits cfg.server };
  routes = new_routes_with_rules cfg.routes (to_rules cfg.route_rules);
  providers = to_clients api cfg.providers;
  usage_reporter = record {
    endpoint = cfg.usage.endpoint;
    api_key = cfg.usage.api_key;
    timeout = cfg.usage.timeout;
  };
}

abbrev pub zero_counters : Counters
zero_counters = record {
  requests = 0;
  errors = 0;
  streams_total = 0;
  stream_completed = 0;
  stream_aborted = 0;
  auth_failures = 0;
  limit_rejections = 0;
  cancellations = 0;
  provider_errors = 0;
  retries = 0;
  bytes = 0;
  duration_ms = 0;
  upstream_ms = 0;
  first_byte_ms = 0;
  first_response_ms = 0;
  selection_ms = 0;
  connection_ms = 0;
  stream_ms = 0;
}

abbrev pub new_state : State
new_state = record {
  gauges = record {
    active = 0;
    active_chat = 0;
    active_embeddings = 0;
    active_streams = 0;
    semaphore = 0;
    embedding_semaphore = 0;
    stream_semaphore = 0;
  };
  counters = zero_counters;
  health = new_health;
  retry_reasons = [];
  request_histogram = new_histogram;
  upstream_histogram = new_histogram;
  first_byte_histogram = new_histogram;
  stream_histogram = new_histogram;
  route_stats = [];
}

unfoldable pub retry_count : ℕ → ℕ
retry_count attempts = if leb attempts 1 then 0 else attempts - 1

abbrev pub new_metric : RouteMetric
new_metric = record { requests = 0; errors = 0; retries = 0; statuses = [] }

unfoldable pub add_to_metric : ℕ → ℕ → RouteMetric → RouteMetric
unfolding retry_count
add_to_metric status attempts m = record {
  requests = add64 m.requests 1;
  errors = if leb 400 status then add64 m.errors 1 else m.errors;
  retries = add64 m.retries (retry_count attempts);
  statuses = insert status (add64 (get_or (lookup status m.statuses) 0) 1) m.statuses;
}

unfoldable pub record_route_metric : Bytes → Bytes → ℕ → ℕ → State → State
unfolding add_to_metric
record_route_metric provider_name model status attempts s =
    let key : RouteKey = record {
      provider = bounded_metric_label provider_name;
      model = bounded_metric_label model;
    } in
    record s {
      route_stats =
          insert key (add_to_metric status attempts (get_or (lookup key s.route_stats) new_metric))
            s.route_stats;
    }

unfoldable pub record_retry_reason : Bytes → State → State
record_retry_reason reason s =
    let label = bounded_metric_label reason in
    record s {
      retry_reasons =
          insert label (add64 (get_or (lookup label s.retry_reasons) 0) 1) s.retry_reasons;
    }
