-- ===== src/Config.antt =====
-- internal/config/config.go: the configuration and its defaults.
pub mod Load
pub mod Validate
pub mod Checked
pub mod Process
pub mod Precedence
use go_feather_route.Prelude.{◌*◌, ◌^◌, Bool, false, List, [], Bytes, codes}
use go_feather_route.Prelude.Int.{ℤ, pos}
use go_feather_route.Prelude.Float64.{Float64}
use go_feather_route.Prelude.Dict.{Dict}

pub record ModelRoute : Type 0 where
  pub model_name : Bytes
  pub provider : Bytes
  pub upstream_model : Bytes
  pub fallbacks : List Bytes
  pub input_cost : Float64
  pub output_cost : Float64
  pub embedding_cost : Float64

pub record UsageConfig : Type 0 where
  pub endpoint : Bytes
  pub api_key_env : Bytes
  pub api_key : Bytes
  pub timeout_text : Bytes
  pub timeout : ℤ

pub record RouteRule : Type 0 where
  pub match : Bytes
  pub provider : Bytes

pub record ServerConfig : Type 0 where
  pub address : Bytes
  pub diagnostics_address : Bytes
  pub log_level : Bytes
  pub request_timeout : ℤ
  pub request_timeout_text : Bytes
  pub stream_idle_timeout : ℤ
  pub stream_idle_timeout_text : Bytes
  pub max_body_bytes : ℤ
  pub max_response_bytes : ℤ
  pub max_concurrent_requests : ℤ
  pub max_concurrent_embeddings : ℤ
  pub max_concurrent_streams : ℤ

pub record AuthConfig : Type 0 where
  pub api_key_env : Bytes
  pub api_key : Bytes

pub record ProviderConfig : Type 0 where
  pub base_url : Bytes
  pub api_key_env : Bytes
  pub kind : Bytes
  pub models : List Bytes
  pub model_aliases : Dict Bytes Bytes
  pub api_key : Bytes

pub record Config : Type 0 where
  pub server : ServerConfig
  pub auth : AuthConfig
  pub usage : UsageConfig
  pub providers : Dict Bytes ProviderConfig
  pub model_list : List ModelRoute
  pub routes : Dict Bytes Bytes
  pub route_rules : List RouteRule
  pub allow_insecure_http : Bool

pub record Overrides : Type 0 where
  pub config_file : Bytes
  pub address : Bytes

unfoldable pub defaults : Config
defaults = record {
  server = record {
    address = codes ":4000";
    diagnostics_address = [];
    log_level = codes "info";
    request_timeout = pos 0;
    request_timeout_text = codes "60s";
    stream_idle_timeout = pos 0;
    stream_idle_timeout_text = codes "30s";
    max_body_bytes = pos (2 ^ 20);
    max_response_bytes = pos (8 * 2 ^ 20);
    max_concurrent_requests = pos 16;
    max_concurrent_embeddings = pos 2;
    max_concurrent_streams = pos 4;
  };
  auth = record { api_key_env = codes "GOFEATHERROUTE_API_KEY"; api_key = [] };
  usage = record {
    endpoint = [];
    api_key_env = codes "GOFEATHERROUTE_USAGE_API_KEY";
    api_key = [];
    timeout_text = codes "2s";
    timeout = pos 0;
  };
  providers = [];
  model_list = [];
  routes = [];
  route_rules = [];
  allow_insecure_http = false;
}
