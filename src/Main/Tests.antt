-- ===== src/Main/Tests.antt =====
-- A process that serves one model, with diagnostics.
use go_feather_route.Prelude.{
  ◌≡◌, refl, false, none, some, [], ◌∷◌, All, codes, str_eq, has_prefix, contains, cut,
}
use go_feather_route.Prelude.Float64.{finite}
use go_feather_route.Prelude.Int.{pos}
use go_feather_route.Prelude.Dict.{lookup, insert, bytes_eq, get_or}
use go_feather_route.Prelude.Numbers.{atoi}
use go_feather_route.Wire.{header_get, eof}
use go_feather_route.Config.{ModelRoute, ProviderConfig, defaults}
use go_feather_route.Config.Load.{Parsers, apply_environment}
use go_feather_route.Config.Process.{load_from_environment_with}
use go_feather_route.Config.Validate.{load_with_overrides, validate}
use go_feather_route.Provider.{Client, ClientApi, err, not_configured}
use go_feather_route.Diagnostics.{Network, Server, start}
use go_feather_route.Diagnostics.Loopback.{IsLoopback}
use go_feather_route.Router.Server.{new_server, new_state}
use go_feather_route.Router.Handling.{error_reply, invalid_token, go}
use go_feather_route.Router.Http.{Incoming, handle, finish, enter, count_refusal, is_public_path}
use go_feather_route.Router.Served.{HasClients}
use go_feather_route.Main.{
  Host, Process, Startup, serves, exits, key_missing, start_up, http_server,
}
use go_feather_route.Main.Serving.{serves_private, serves-refused}

abbrev local : ProviderConfig
local = record {
  base_url = codes "https://models.example.com/v1";
  api_key_env = codes "LOCAL_KEY";
  kind = [];
  models = [];
  model_aliases = [];
  api_key = [];
}

abbrev fast : ModelRoute
fast = record {
  model_name = codes "fast";
  provider = codes "local";
  upstream_model = [];
  fallbacks = [];
  input_cost = finite false 0;
  output_cost = finite false 0;
  embedding_cost = finite false 0;
}

abbrev parsers : Parsers
parsers = record {
  parse_duration = λ text. some (pos 2000000000);
  parse_url = λ text. some (record {
    scheme = codes "https";
    host = codes "models.example.com";
    hostname = codes "models.example.com";
  });
}

abbrev network : Network
network = record {
  split_host_port = λ address. some (codes "LocalHost", codes "6060");
  parse_is_loopback = λ host. none;
  listen = λ address. some (codes "127.0.0.1:6060");
}

abbrev host : Host
host = record {
  args = codes "go-feather-route" ∷ [];
  environ =
      codes "GOFEATHERROUTE_API_KEY=secret"
      ∷ codes "GOFEATHERROUTE_PPROF_ADDR=LocalHost:6060"
      ∷ codes "LOCAL_KEY=other"
      ∷ [];
  parse_flags = λ args. some ([], []);
  get = λ url. none;
  read = λ path. some [];
  unmarshal =
      λ text c. some (record c { providers = (codes "local", local) ∷ []; model_list = fast ∷ [] });
  exists = λ path. str_eq path (codes "config/defaults.yaml");
  parsers = parsers;
  network = network;
}

abbrev process_of : Startup → Process
process_of (serves p) = p
process_of _ = record {
  config = unfold defaults in defaults;
  server = unfold http_server defaults in http_server defaults;
  diagnostics_server = none;
}

abbrev process : Process
process = process_of (start_up host)

host_serves : start_up host ≡ serves process
unfolding start_up load_with_overrides apply_environment validate defaults lookup insert str_eq
    has_prefix contains atoi get_or cut load_from_environment_with start
host_serves = refl

abbrev refusing : Client → ClientApi
refusing client = record {
  provider_name = client.name;
  chat = λ index id body stream. err not_configured;
  embedding = λ index id body. err not_configured;
}

serves_private_example :
    ((d : Server)
      → process.diagnostics_server ≡ some d
      → IsLoopback network process.config.server.diagnostics_address)
    × All
        (λ route. HasClients refusing process.config (λ name. false) route.model_name)
        process.config.model_list
serves_private_example = serves_private host refusing (λ name. false) process host_serves

abbrev incoming : Incoming
incoming = record {
  method = codes "POST";
  path = codes "/v1/embeddings";
  request = record { header = []; body = record { reads = []; final = []; cause = eof } };
  random = none;
  now = 1700000000000000000;
  duration = pos 1000000;
  bytes = λ reply. 0;
}

serves-refused_example :
    handle
      (new_server refusing process.config)
      (λ request s. go (error_reply 500 invalid_token) s)
      incoming
      new_state
    ≡ finish incoming (error_reply 401 invalid_token) (count_refusal (enter new_state))
unfolding is_public_path header_get get_or lookup str_eq start_up load_with_overrides
    apply_environment validate defaults insert has_prefix contains atoi cut
    load_from_environment_with start
serves-refused_example =
    serves-refused host refusing process (λ request s. go (error_reply 500 invalid_token) s)
      incoming new_state host_serves refl (λ p. cc)

keyless : start_up (record host { environ = [] }) ≡ exits key_missing
unfolding start_up load_with_overrides apply_environment validate defaults lookup insert str_eq
    has_prefix contains atoi get_or cut load_from_environment_with start
keyless = refl
