-- ===== src/Config/Load.antt =====
-- internal/config/config.go: `normalizeModelRoutes`, `applyEnvironment`, `validate` and
-- `LoadWithOverrides`.
use go_feather_route.Prelude.{
  Bool, ◌||◌, Option, none, some, List, [], ◌∷◌, Bytes, codes, str_eq, is_empty, if◌then◌else◌,
}
use go_feather_route.Prelude.Int.{ℤ}
use go_feather_route.Prelude.Numbers.{atoi}
use go_feather_route.Prelude.Dict.{Dict, lookup, insert, get_or, bytes_eq}
use go_feather_route.Provider.{trim_right_slash}
use go_feather_route.Config.{ModelRoute, UsageConfig, ServerConfig, ProviderConfig, Config}

pub data Invalid : Type 0 where
  read_failed parse_failed empty_address bad_log_level nil_environment : Invalid
  not_an_integer not_positive_limit not_a_duration : Bytes → Invalid
  bad_kind bad_url insecure_url missing_key_name : Bytes → Invalid
  incomplete_route incomplete_rule : Invalid
  unknown_provider unknown_fallback : Bytes → Bytes → Invalid
  negative_cost bad_pattern : Bytes → Invalid

pub data Loaded {ℓ} (A : Type ℓ) : Type ℓ where
  loaded : A → Loaded A
  invalid : Invalid → Loaded A

infixl 5 ◌>>=◌ ◌>>◌
abbrev pub ◌>>=◌ {ℓ κ} : {A : Type ℓ} {B : Type κ} → Loaded A → (A → Loaded B) → Loaded B
loaded a >>= f = f a
invalid e >>= f = invalid e

abbrev pub ◌>>◌ {ℓ} : {B : Type ℓ} → Loaded (Unit {0}) → Loaded B → Loaded B
m >> n = m >>= λ _. n

abbrev pub require : Bool → Invalid → Loaded (Unit {0})
require b e = if b then loaded tt else invalid e

-- What the package asks of other code: time.ParseDuration, and url.Parse with the scheme, the host
-- and the host's name of its result.
pub record Url : Type 0 where
  pub scheme : Bytes
  pub host : Bytes
  pub hostname : Bytes

pub record Parsers : Type 0 where
  pub parse_duration : Bytes → Option ℤ
  pub parse_url : Bytes → Option Url

-- The environment; `none` is a nil map, which reads as an empty one.
abbrev pub Environment : Type 0
Environment = Option (Dict Bytes Bytes)

unfoldable pub variable : Environment → Bytes → Bytes
variable env name = get_or (lookup name (get_or env [])) []

unfoldable pub add_alias : ModelRoute → Config → Config
add_alias route c = elim (lookup route.provider c.providers) [
  | none ↦ c
  | some provider ↦ if is_empty route.upstream_model then c else record c {
    providers =
        insert route.provider
          (record provider {
            model_aliases = insert route.model_name route.upstream_model provider.model_aliases;
          })
          c.providers;
  }
]

-- One round of the loop.
unfoldable pub normalize_route : ModelRoute → Config → Config
unfolding add_alias
normalize_route route c =
    if is_empty route.model_name || is_empty route.provider
    then c
    else add_alias route (record c { routes = insert route.model_name route.provider c.routes })

unfoldable pub normalize_routes : List ModelRoute → Config → Config
unfolding normalize_route
normalize_routes [] c = c
normalize_routes (route ∷ rest) c = normalize_routes rest (normalize_route route c)

unfoldable pub normalize_model_routes : Config → Config
unfolding normalize_routes
normalize_model_routes c = normalize_routes c.model_list c

-- A value of the environment that is not empty takes the place of the old one.
abbrev pub over : Bytes → Bytes → Bytes
over value old = if is_empty value then old else value

abbrev pub alias_over : Bytes → Bytes → Dict Bytes Bytes → Dict Bytes Bytes
alias_over name value aliases = if is_empty value then aliases else insert name value aliases

-- The provider "ollama" with the three variables for it.
unfoldable pub ollama_provider : Environment → ProviderConfig → ProviderConfig
unfolding variable
ollama_provider env provider = record provider {
  base_url =
      if is_empty (variable env (codes "OLLAMA_API_BASE"))
      then provider.base_url
      else trim_right_slash (variable env (codes "OLLAMA_API_BASE"));
  model_aliases =
      alias_over (codes "ollama-nomic-embed") (variable env (codes "OLLAMA_EMBEDDING_MODEL")) (
        alias_over (codes "ollama-qwen3") (variable env (codes "OLLAMA_CHAT_MODEL"))
          provider.model_aliases);
}

unfoldable pub with_ollama : Environment → Dict Bytes ProviderConfig → Dict Bytes ProviderConfig
unfolding ollama_provider
with_ollama env providers = elim (lookup (codes "ollama") providers) [
  | none ↦ providers
  | some provider ↦ insert (codes "ollama") (ollama_provider env provider) providers
]

unfoldable pub with_keys : Environment → Dict Bytes ProviderConfig → Dict Bytes ProviderConfig
unfolding variable
with_keys env [] = []
with_keys env ((name, provider) ∷ providers) =
    (name, record provider { api_key = variable env provider.api_key_env })
    ∷ with_keys env providers

-- An integer variable: the old value where it is empty, and an error where it is no integer.
unfoldable pub integer_over : Environment → Bytes → ℤ → Loaded ℤ
unfolding variable
integer_over env name old =
    if is_empty (variable env name) then loaded old else elim (atoi (variable env name)) [
      | none ↦ invalid (not_an_integer name)
      | some n ↦ loaded n
    ]

unfoldable pub server_environment : Environment → ServerConfig → Loaded ServerConfig
unfolding integer_over
server_environment env s = do
  body ← integer_over env (codes "GOFEATHERROUTE_MAX_BODY_BYTES") s.max_body_bytes
  response ← integer_over env (codes "GOFEATHERROUTE_MAX_RESPONSE_BYTES") s.max_response_bytes
  requests ←
      integer_over env (codes "GOFEATHERROUTE_MAX_CONCURRENT_REQUESTS") s.max_concurrent_requests
  embeddings ←
      integer_over env (codes "GOFEATHERROUTE_MAX_CONCURRENT_EMBEDDINGS")
        s.max_concurrent_embeddings
  streams ←
      integer_over env (codes "GOFEATHERROUTE_MAX_CONCURRENT_STREAMS") s.max_concurrent_streams
  loaded (record s {
    address = over (variable env (codes "GOFEATHERROUTE_ADDR")) s.address;
    diagnostics_address =
        over (variable env (codes "GOFEATHERROUTE_PPROF_ADDR")) s.diagnostics_address;
    log_level = over (variable env (codes "GOFEATHERROUTE_LOG_LEVEL")) s.log_level;
    request_timeout_text =
        over (variable env (codes "GOFEATHERROUTE_REQUEST_TIMEOUT")) s.request_timeout_text;
    stream_idle_timeout_text =
        over (variable env (codes "GOFEATHERROUTE_STREAM_IDLE_TIMEOUT")) s.stream_idle_timeout_text;
    max_body_bytes = body;
    max_response_bytes = response;
    max_concurrent_requests = requests;
    max_concurrent_embeddings = embeddings;
    max_concurrent_streams = streams;
  })

unfoldable pub usage_environment : Environment → UsageConfig → UsageConfig
unfolding variable
usage_environment env u = record u {
  endpoint =
      if is_empty (variable env (codes "GOFEATHERROUTE_USAGE_ENDPOINT"))
      then u.endpoint
      else trim_right_slash (variable env (codes "GOFEATHERROUTE_USAGE_ENDPOINT"));
  timeout_text = over (variable env (codes "GOFEATHERROUTE_USAGE_TIMEOUT")) u.timeout_text;
  api_key = variable env u.api_key_env;
}

-- The fields are changed one after the other, and no step reads a field that an earlier one changes
-- but the providers.
unfoldable pub apply_environment : Environment → Config → Loaded Config
unfolding server_environment usage_environment with_ollama with_keys
apply_environment env c = server_environment env c.server >>= λ server.
    let allowed = variable env (codes "GOFEATHERROUTE_ALLOW_INSECURE_HTTP") in
    loaded (record c {
      server = server;
      auth = record c.auth { api_key = variable env c.auth.api_key_env };
      usage = usage_environment env c.usage;
      providers = with_keys env (with_ollama env c.providers);
      allow_insecure_http = str_eq allowed (codes "1") || str_eq allowed (codes "true");
    })
