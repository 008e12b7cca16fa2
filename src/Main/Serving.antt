-- ===== src/Main/Serving.antt =====
-- What a process that serves has made sure of.
use go_feather_route.Prelude.{
  ◌≡◌, ◌≢◌, refl, ◌∙◌, subst, inl, inr, Bool, false, some, [], ◌∷◌, ◌++◌, Bytes, codes, All,
  is_empty, drop, Bool-cases, Option-cases,
}
use go_feather_route.Wire.{header_get}
use go_feather_route.Config.{Config, Overrides}
use go_feather_route.Config.Load.{Loaded, loaded, invalid}
use go_feather_route.Config.Process.{load_from_environment_with}
use go_feather_route.Diagnostics.{Server, Started, disabled, failed, running, start}
use go_feather_route.Diagnostics.Loopback.{IsLoopback, start-IsLoopback}
use go_feather_route.Provider.{Client, ClientApi}
use go_feather_route.Router.Server.{State, new_server}
use go_feather_route.Router.Handling.{Reply, Handler, error_reply, invalid_token}
use go_feather_route.Router.Exchange.{Request}
use go_feather_route.Router.Http.{Incoming, is_public_path, handle, finish, enter, count_refusal}
use go_feather_route.Router.Http.Refusal.{handle-refused}
use go_feather_route.Router.Served.{HasClients}
use go_feather_route.Router.Served.Loading.{load_with_overrides-HasClients}
use go_feather_route.Main.{
  Host, Process, Startup, serves, is_healthcheck, with_diagnostics, with_config, start_up,
}

-- The configuration is loaded and has a key, and a diagnostics server is one that `start` answers.
record IsServing (host : Host) (p : Process) : Type 0 where
  overrides : Overrides
  loads :
      load_from_environment_with host.read host.unmarshal host.exists host.parsers host.environ
        overrides
      ≡ loaded p.config
  key : p.config.auth.api_key ≢ []
  started :
      (d : Server)
      → p.diagnostics_server ≡ some d
      → start host.network p.config.server.diagnostics_address ≡ running d

abbrev Sound : Host → Startup → Type 0
Sound host (serves p) = IsServing host p
Sound host _ = Unit

key_given : (key : Bytes) → is_empty key ≡ false → key ≢ []
key_given [] h = absurd (cc h)
key_given (c ∷ key) h = λ e. cc

module _ (host : Host) where
  with_diagnostics-Sound :
      (overrides : Overrides) (cfg : Config) (s : Started)
      → load_from_environment_with host.read host.unmarshal host.exists host.parsers host.environ
          overrides
        ≡ loaded cfg
      → cfg.auth.api_key ≢ []
      → start host.network cfg.server.diagnostics_address ≡ s
      → Sound host (with_diagnostics cfg s)
  unfolding with_diagnostics
  with_diagnostics-Sound overrides cfg (failed e) loads key h = tt
  with_diagnostics-Sound overrides cfg disabled loads key h = record {
    overrides = overrides;
    loads = loads;
    key = key;
    started = λ d e. absurd (cc e);
  }
  with_diagnostics-Sound overrides cfg (running d) loads key h = record {
    overrides = overrides;
    loads = loads;
    key = key;
    started = λ d' e. h ∙ cc;
  }

  with_config-Sound :
      (overrides : Overrides) (l : Loaded Config)
      → load_from_environment_with host.read host.unmarshal host.exists host.parsers host.environ
          overrides
        ≡ l
      → Sound host (with_config host.network l)
  unfolding with_config
  with_config-Sound overrides (invalid e) loads = tt
  with_config-Sound overrides (loaded cfg) loads = elim (Bool-cases (is_empty cfg.auth.api_key)) [
    | inl missing ↦ rw missing tt
    | inr given ↦
        rw given
          (with_diagnostics-Sound overrides cfg _ loads (key_given cfg.auth.api_key given) refl)
  ]

  start_up-Sound : Sound host (start_up host)
  unfolding start_up
  start_up-Sound = elim (Bool-cases (is_healthcheck host.args)) [
    | inl check ↦ rw check tt
    | inr serve ↦ elim (Option-cases (host.parse_flags (drop 1 host.args))) [
      | inl e ↦ rw (serve, e) tt
      | inr ((config_file, address), e) ↦ rw (serve, e) (with_config-Sound _ _ refl)
    ]
  ]

  serves-IsServing : (p : Process) → start_up host ≡ serves p → IsServing host p
  serves-IsServing p h = subst (Sound host) h start_up-Sound

  -- A process that serves has a diagnostics server only on a loopback address, and a client for every
  -- model of its configuration's list, whichever providers cool down.
  pub serves_private :
      (api : Client → ClientApi) (available : Bytes → Bool) (p : Process)
      → start_up host ≡ serves p
      → ((d : Server)
          → p.diagnostics_server ≡ some d
          → IsLoopback host.network p.config.server.diagnostics_address)
        × All (λ route. HasClients api p.config available route.model_name) p.config.model_list
  unfolding load_from_environment_with
  serves_private api available p h =
      let s = serves-IsServing p h in
      (
        λ d e.
            (start-IsLoopback host.network p.config.server.diagnostics_address d (s.started d e)).0,
        load_with_overrides-HasClients host.read host.unmarshal host.parsers api available _ _
            s.overrides p.config s.loads,
      )

  -- However a process that serves was configured, a request to a path that is not public, whose
  -- Authorization is not "Bearer " and the configured key, is refused, and no handler sees it.
  pub serves-refused :
      (api : Client → ClientApi) (p : Process) (inner : Request → Handler Reply)
      (incoming : Incoming) (s : State)
      → start_up host ≡ serves p
      → is_public_path incoming.path ≡ false
      → header_get incoming.request.header (codes "Authorization")
        ≢ codes "Bearer " ++ p.config.auth.api_key
      → handle (new_server api p.config) inner incoming s
        ≡ finish incoming (error_reply 401 invalid_token) (count_refusal (enter s))
  unfolding new_server
  serves-refused api p inner incoming s h private other =
      handle-refused (new_server api p.config) inner incoming s private (serves-IsServing p h).key
        other
