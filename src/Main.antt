-- ===== src/Main.antt =====
-- cmd/go-feather-route/main.go: the process, from its arguments to its exit.
pub mod Serving
mod Tests
use go_feather_route.Prelude.{
  ℕ, ◌*◌, ◌≡◌, Bool, true, false, Option, none, some, List, [], ◌∷◌, Bytes, codes, str_eq, is_empty,
  drop, ◌==◌, if◌then◌else◌,
}
use go_feather_route.Prelude.Int.{ℤ, pos}
use go_feather_route.Wire.{Cause}
use go_feather_route.Config.{Config, Overrides}
use go_feather_route.Config.Load.{Loaded, loaded, invalid, Invalid, Parsers}
use go_feather_route.Config.Process.{load_from_environment_with}
use go_feather_route.Provider.{second}
use go_feather_route.Diagnostics.{
  Network, Problem, Server, Channel, Started, disabled, failed, running, start, serve_returns,
  errors, shutdown,
}

-- What the process is started with, and what it asks of other code: package flag with ExitOnError
-- (`none` has ended the process), http.Client.Get with its status, the files, and the network.
pub record Host : Type 0 where
  pub args : List Bytes
  pub environ : List Bytes
  pub parse_flags : List Bytes → Option (Bytes × Bytes)
  pub get : Bytes → Option ℕ
  pub read : Bytes → Option Bytes
  pub unmarshal : Bytes → Config → Option Config
  pub exists : Bytes → Bool
  pub parsers : Parsers
  pub network : Network

-- The fields of the http.Server that are set; its handler is the gateway of the configuration.
pub record HttpServer : Type 0 where
  pub addr : Bytes
  pub read_header_timeout : ℤ
  pub idle_timeout : ℤ
  pub max_header_bytes : ℕ

pub record Process : Type 0 where
  pub config : Config
  pub server : HttpServer
  pub diagnostics_server : Option Server

pub data Reason : Type 0 where
  bad_flags key_missing : Reason
  configuration : Invalid → Reason
  diagnostics : Problem → Reason

-- The exit of the health check, an exit with an error, or a process that serves.
pub data Startup : Type 0 where
  checked : ℕ → Startup
  exits : Reason → Startup
  serves : Process → Startup

-- `checkHealth`: its exit code
unfoldable pub check_health : (Bytes → Option ℕ) → ℕ
check_health get = elim (get (codes "http://127.0.0.1:4000/health/liveliness")) [
  | none ↦ 1
  | some status ↦ if status == 200 then 0 else 1
]

-- len(os.Args) > 1 && os.Args[1] == "healthcheck"
unfoldable pub is_healthcheck : List Bytes → Bool
is_healthcheck (_ ∷ argument ∷ _) = str_eq argument (codes "healthcheck")
is_healthcheck _ = false

unfoldable pub http_server : Config → HttpServer
http_server cfg = record {
  addr = cfg.server.address;
  read_header_timeout = pos (5 * second);
  idle_timeout = pos (90 * second);
  max_header_bytes = 32 * 1024;
}

unfoldable pub with_diagnostics : Config → Started → Startup
unfolding http_server
with_diagnostics cfg (failed problem) = exits (diagnostics problem)
with_diagnostics cfg disabled =
    serves (record { config = cfg; server = http_server cfg; diagnostics_server = none })
with_diagnostics cfg (running d) =
    serves (record { config = cfg; server = http_server cfg; diagnostics_server = some d })

unfoldable pub with_config : Network → Loaded Config → Startup
unfolding with_diagnostics
with_config network (invalid e) = exits (configuration e)
with_config network (loaded cfg) =
    if is_empty cfg.auth.api_key
    then exits key_missing
    else with_diagnostics cfg (start network cfg.server.diagnostics_address)

-- `main` up to the start of the listener.
unfoldable pub start_up : Host → Startup
unfolding check_health is_healthcheck with_config
start_up host =
    if is_healthcheck host.args
    then checked (check_health host.get)
    else elim (host.parse_flags (drop 1 host.args)) [
      | none ↦ exits bad_flags
      | some (config_file, address) ↦ with_config host.network (
          load_from_environment_with host.read host.unmarshal host.exists host.parsers host.environ
            (record { config_file = config_file; address = address }))
    ]

-- Where the process is after that. Each shutdown may fail, by its context's deadline.
pub data Phase : Type 0 where
  serving stopping : Process → Phase
  exited : ℕ → Phase

-- The exit code after the two shutdowns, where those of the HTTP servers fail or not.
unfoldable pub shut_down : Option Server → Option Cause → Option Cause → ℕ
unfolding shutdown
shut_down d diagnostics_result server_result = elim (shutdown d diagnostics_result) [
  | some _ ↦ 1
  | none ↦ elim server_result [ some _ ↦ 1 | none ↦ 0 ]
]

-- What a receive from the channel of errors gives at once: nothing from a nil channel or an empty one,
-- an error, or nil once the channel is closed.
pub data Received : Type 0 where
  blocked : Received
  received : Option Cause → Received

unfoldable pub receive : Option Channel → Received
receive none = blocked
receive (some channel) = elim channel.waiting [
  | some e ↦ received (some e)
  | none ↦ if channel.closed then received none else blocked
]

-- The `select` of `main`, the goroutines of the two listeners, and the end.
pub data Step : Phase → Phase → Type 0 where
  signal : {p : Process} → Step (serving p) (stopping p)
  diagnostics_ended :
      {p : Process} {d : Server} (error : Option Cause)
      → p.diagnostics_server ≡ some d
      → d.channel.closed ≡ false
      → Step (serving p) (serving (record p { diagnostics_server = some (serve_returns error d) }))
  diagnostics_stopped :
      {p : Process} (error : Option Cause)
      → receive (errors p.diagnostics_server) ≡ received error
      → Step (serving p) (stopping p)
  listener_failed : {p : Process} → Step (serving p) (exited 1)
  listener_failed_late : {p : Process} → Step (stopping p) (exited 1)
  stopped :
      {p : Process} (diagnostics_result server_result : Option Cause)
      → Step (stopping p) (exited (shut_down p.diagnostics_server diagnostics_result server_result))
