-- ===== src/Config/Validate.antt =====
-- internal/config/config.go: `validate` and `LoadWithOverrides`.
use go_feather_route.Prelude.{
  Bool, true, false, not, ◌&&◌, ◌||◌, Option, none, some, List, [], ◌∷◌, Bytes, codes, str_eq,
  is_empty, contains, has_suffix, if◌then◌else◌,
}
use go_feather_route.Prelude.Int.{ℤ, not_positive}
use go_feather_route.Prelude.Float64.{is_below_zero}
use go_feather_route.Prelude.Dict.{Dict, lookup, bytes_eq}
use go_feather_route.Config.{
  ModelRoute, RouteRule, ServerConfig, ProviderConfig, Config, Overrides, defaults,
}
use go_feather_route.Config.Load.{
  read_failed, parse_failed, empty_address, bad_log_level, nil_environment, not_positive_limit,
  not_a_duration, bad_kind, bad_url, insecure_url, missing_key_name, incomplete_route,
  incomplete_rule, unknown_provider, unknown_fallback, negative_cost, bad_pattern, Loaded, loaded,
  invalid, ◌>>=◌, ◌>>◌, require, Url, Parsers, Environment, normalize_model_routes,
  apply_environment,
}

abbrev pub is_known {ℓ} : {A : Type ℓ} → Option A → Bool
is_known none = false
is_known (some _) = true

unfoldable pub positive_duration : Parsers → Bytes → Bytes → Loaded ℤ
positive_duration parsers field text = elim (parsers.parse_duration text) [
  | none ↦ invalid (not_a_duration field)
  | some d ↦ if not_positive d then invalid (not_a_duration field) else loaded d
]

unfoldable pub is_log_level : Bytes → Bool
is_log_level level =
    contains (codes "debug") level
    || str_eq level (codes "info")
    || str_eq level (codes "warn")
    || str_eq level (codes "error")

-- The kind of a provider that is checked; the default is not stored.
abbrev pub kind_of : ProviderConfig → Bytes
kind_of provider = if is_empty provider.kind then codes "openai-compatible" else provider.kind

abbrev pub is_local : Bytes → Bytes → Bool
is_local name hostname =
    str_eq name (codes "ollama")
    && (str_eq hostname (codes "127.0.0.1")
        || str_eq hostname (codes "localhost")
        || str_eq hostname (codes "host.docker.internal"))

unfoldable pub check_url : Bool → Bytes → Url → Loaded (Unit {0})
check_url insecure name url = do
  require (not (is_empty url.host)) (bad_url name)
  require
      (not (str_eq url.scheme (codes "http") && not insecure && not (is_local name url.hostname)))
      (insecure_url name)
  require (str_eq url.scheme (codes "https") || str_eq url.scheme (codes "http"))
      (insecure_url name)

unfoldable pub check_provider : Parsers → Bool → Bytes → ProviderConfig → Loaded (Unit {0})
unfolding check_url
check_provider parsers insecure name provider = do
  require
      (str_eq (kind_of provider) (codes "openai-compatible")
        || str_eq (kind_of provider) (codes "ollama"))
      (bad_kind name)
  elim (parsers.parse_url provider.base_url) [
    | none ↦ invalid (bad_url name)
    | some url ↦ check_url insecure name url
  ]
  require (not (is_empty provider.api_key_env)) (missing_key_name name)

-- Go may check the providers in any order; the order decides only which error is reported.
unfoldable pub check_providers : Parsers → Bool → Dict Bytes ProviderConfig → Loaded (Unit {0})
unfolding check_provider
check_providers parsers insecure [] = loaded tt
check_providers parsers insecure ((name, provider) ∷ rest) =
    check_provider parsers insecure name provider >> check_providers parsers insecure rest

module _ (providers : Dict Bytes ProviderConfig) where
  unfoldable pub check_fallbacks : Bytes → List Bytes → Loaded (Unit {0})
  check_fallbacks model [] = loaded tt
  check_fallbacks model (fallback ∷ rest) =
      require (is_known (lookup fallback providers)) (unknown_fallback model fallback)
      >> check_fallbacks model rest

  unfoldable pub check_route : ModelRoute → Loaded (Unit {0})
  unfolding check_fallbacks
  check_route route = do
    require (not (is_empty route.model_name || is_empty route.provider)) incomplete_route
    require (is_known (lookup route.provider providers))
        (unknown_provider route.model_name route.provider)
    check_fallbacks route.model_name route.fallbacks
    require
        (not (
          is_below_zero route.input_cost
          || is_below_zero route.output_cost
          || is_below_zero route.embedding_cost))
        (negative_cost route.model_name)

  unfoldable pub check_model_list : List ModelRoute → Loaded (Unit {0})
  unfolding check_route
  check_model_list [] = loaded tt
  check_model_list (route ∷ rest) = check_route route >> check_model_list rest

  unfoldable pub check_rule : RouteRule → Loaded (Unit {0})
  check_rule rule = do
    require (not (is_empty rule.match || is_empty rule.provider)) incomplete_rule
    require (is_known (lookup rule.provider providers)) (unknown_provider rule.match rule.provider)
    require (has_suffix (codes "*") rule.match || contains (codes "/") rule.match)
        (bad_pattern rule.match)

  unfoldable pub check_rules : List RouteRule → Loaded (Unit {0})
  unfolding check_rule
  check_rules [] = loaded tt
  check_rules (rule ∷ rest) = check_rule rule >> check_rules rest

unfoldable pub check_limits : ServerConfig → Loaded (Unit {0})
check_limits s = do
  require (not (is_empty s.address)) empty_address
  require (not (not_positive s.max_body_bytes)) (not_positive_limit (codes "max_body_bytes"))
  require (not (not_positive s.max_response_bytes))
      (not_positive_limit (codes "max_response_bytes"))
  require (not (not_positive s.max_concurrent_requests))
      (not_positive_limit (codes "max_concurrent_requests"))
  require (not (not_positive s.max_concurrent_embeddings))
      (not_positive_limit (codes "max_concurrent_embeddings"))
  require (not (not_positive s.max_concurrent_streams))
      (not_positive_limit (codes "max_concurrent_streams"))

abbrev pub with_durations : ℤ → ℤ → ℤ → Config → Config
with_durations request idle timeout c = record c {
  server = record c.server { request_timeout = request; stream_idle_timeout = idle };
  usage = record c.usage { timeout = timeout };
}

-- The configuration with its durations, or the first thing wrong with it.
unfoldable pub validate : Parsers → Environment → Config → Loaded Config
unfolding check_limits positive_duration is_log_level check_providers check_model_list check_rules
validate parsers env c = do
  check_limits c.server
  request ← positive_duration parsers (codes "request_timeout") c.server.request_timeout_text
  idle ← positive_duration parsers (codes "stream_idle_timeout") c.server.stream_idle_timeout_text
  timeout ← positive_duration parsers (codes "usage.timeout") c.usage.timeout_text
  require (is_log_level c.server.log_level) bad_log_level
  check_providers parsers c.allow_insecure_http c.providers
  check_model_list c.providers c.model_list
  check_rules c.providers c.route_rules
  require (is_known env) nil_environment
  loaded (with_durations request idle timeout c)

abbrev pub with_address : Overrides → Config → Config
with_address overrides c =
    if is_empty overrides.address
    then c
    else record c { server = record c.server { address = overrides.address } }

-- `read` is os.ReadFile, and `unmarshal` yaml.Unmarshal over a configuration.
module _ (read : Bytes → Option Bytes) (unmarshal : Bytes → Config → Option Config) where
  unfoldable pub read_file : Bytes → Loaded Config
  unfolding defaults
  read_file path = if is_empty path then loaded defaults else elim (read path) [
    | none ↦ invalid read_failed
    | some data' ↦ elim (unmarshal data' defaults) [
      | none ↦ invalid parse_failed
      | some c ↦ loaded c
    ]
  ]

  unfoldable pub load_with_overrides : Parsers → Bytes → Environment → Overrides → Loaded Config
  unfolding read_file normalize_model_routes apply_environment validate
  load_with_overrides parsers path env overrides = do
    c ← read_file path
    changed ← apply_environment env (normalize_model_routes c)
    validate parsers env (with_address overrides changed)
