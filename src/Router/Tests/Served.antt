-- ===== src/Router/Tests/Served.antt =====
-- A file with one model, loaded and served.
use go_feather_route.Prelude.{
  ◌≡◌, refl, false, Option, some, [], ◌∷◌, Bytes, codes, str_eq, has_prefix, contains,
}
use go_feather_route.Prelude.Float64.{finite}
use go_feather_route.Prelude.Int.{pos}
use go_feather_route.Prelude.Dict.{lookup, insert, bytes_eq, get_or}
use go_feather_route.Prelude.Numbers.{atoi}
use go_feather_route.Config.{ModelRoute, ProviderConfig, Config, Overrides, defaults}
use go_feather_route.Config.Load.{Loaded, loaded, invalid, Parsers, Environment, apply_environment}
use go_feather_route.Config.Validate.{load_with_overrides, validate}
use go_feather_route.Provider.{Client, ClientApi, err, not_configured}

abbrev pub local : ProviderConfig
local = record {
  base_url = codes "https://models.example.com/v1";
  api_key_env = codes "LOCAL_KEY";
  kind = [];
  models = [];
  model_aliases = [];
  api_key = [];
}

abbrev pub fast : ModelRoute
fast = record {
  model_name = codes "fast";
  provider = codes "local";
  upstream_model = codes "llama3";
  fallbacks = [];
  input_cost = finite false 0;
  output_cost = finite false 0;
  embedding_cost = finite false 0;
}

abbrev pub read : Bytes → Option Bytes
read path = some []

abbrev pub unmarshal : Bytes → Config → Option Config
unmarshal text c =
    some (record c { providers = (codes "local", local) ∷ []; model_list = fast ∷ [] })

abbrev pub parsers : Parsers
parsers = record {
  parse_duration = λ text. some (pos 2000000000);
  parse_url = λ text. some (record {
    scheme = codes "https";
    host = codes "models.example.com";
    hostname = codes "models.example.com";
  });
}

abbrev pub environment : Environment
environment = some (
    (codes "LOCAL_KEY", codes "secret")
    ∷ (codes "GOFEATHERROUTE_MAX_BODY_BYTES", codes "4096")
    ∷ [])

abbrev pub overrides : Overrides
overrides = record { config_file = []; address = codes ":8080" }

abbrev pub config_of : Loaded Config → Config
unfolding defaults
config_of (loaded c) = c
config_of (invalid e) = defaults

abbrev pub result : Config
result =
    config_of (load_with_overrides read unmarshal parsers (codes "a.yaml") environment overrides)

pub loads :
    load_with_overrides read unmarshal parsers (codes "a.yaml") environment overrides
    ≡ loaded result
unfolding load_with_overrides apply_environment validate defaults lookup insert str_eq has_prefix
    contains atoi get_or
loads = refl

body_limit : result.server.max_body_bytes ≡ pos 4096
unfolding load_with_overrides apply_environment validate defaults lookup insert str_eq has_prefix
    contains atoi get_or
body_limit = refl

abbrev pub refusing : Client → ClientApi
refusing client = record {
  provider_name = client.name;
  chat = λ index id body stream. err not_configured;
  embedding = λ index id body. err not_configured;
}
