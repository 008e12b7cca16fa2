-- ===== src/Config/Precedence.antt =====
-- The command line, the environment, the file and the defaults: `LoadWithOverrides`.
use go_feather_route.Prelude.{
  ◌≡◌, refl, sym, ap, ◌∙◌, inl, inr, subst, ◌||◌, Option, List, [], ◌∷◌, Bytes, codes, is_empty,
  Bool-cases, Option-cases,
}
use go_feather_route.Prelude.Dict.{lookup, bytes_eq}
use go_feather_route.Config.{ModelRoute, ServerConfig, Config, Overrides}
use go_feather_route.Config.Load.{
  loaded, Parsers, Environment, variable, over, add_alias, normalize_route, normalize_routes,
  normalize_model_routes, integer_over, server_environment, apply_environment,
}
use go_feather_route.Config.Validate.{read_file, with_address, load_with_overrides}
use go_feather_route.Config.Checked.{>>=-loaded, loaded-injective, validate-IsValid}

add_alias-server : (route : ModelRoute) (c : Config) → (add_alias route c).server ≡ c.server
unfolding add_alias
add_alias-server route c = elim (Option-cases (lookup route.provider c.providers)) [
  | inl missing ↦ rw (missing, add_alias) refl
  | inr (provider, found) ↦ elim (Bool-cases (is_empty route.upstream_model)) [
    | inl plain ↦ rw (found, add_alias) (rw plain refl)
    | inr renamed ↦ rw (found, add_alias) (rw renamed refl)
  ]
]

normalize_routes-server :
    (l : List ModelRoute) (c : Config) → (normalize_routes l c).server ≡ c.server
unfolding normalize_routes normalize_route
normalize_routes-server [] c = refl
normalize_routes-server (route ∷ l) c =
    normalize_routes-server l (normalize_route route c)
    ∙ elim (Bool-cases (is_empty route.model_name || is_empty route.provider)) [
      | inl partial ↦ rw partial refl
      | inr complete ↦ rw complete (add_alias-server route _)
    ]

-- The two addresses after the environment.
record Addresses (env : Environment) (s s' : ServerConfig) : Type 0 where
  address : s'.address ≡ over (variable env (codes "GOFEATHERROUTE_ADDR")) s.address
  diagnostics_address :
      s'.diagnostics_address
      ≡ over (variable env (codes "GOFEATHERROUTE_PPROF_ADDR")) s.diagnostics_address

server_environment-Addresses :
    (env : Environment) (s s' : ServerConfig)
    → server_environment env s ≡ loaded s'
    → Addresses env s s'
unfolding server_environment
server_environment-Addresses env s s' h =
    let (body, _, h1) = >>=-loaded (integer_over env _ s.max_body_bytes) _ h in
    let (response, _, h2) = >>=-loaded (integer_over env _ s.max_response_bytes) _ h1 in
    let (requests, _, h3) = >>=-loaded (integer_over env _ s.max_concurrent_requests) _ h2 in
    let (embeddings, _, h4) = >>=-loaded (integer_over env _ s.max_concurrent_embeddings) _ h3 in
    let (streams, _, made) = >>=-loaded (integer_over env _ s.max_concurrent_streams) _ h4 in
    record {
      address = ap (λ (x : ServerConfig). x.address) (sym (loaded-injective made));
      diagnostics_address =
          ap (λ (x : ServerConfig). x.diagnostics_address) (sym (loaded-injective made));
    }

apply_environment-Addresses :
    (env : Environment) (c c' : Config)
    → apply_environment env c ≡ loaded c'
    → Addresses env c.server c'.server
unfolding apply_environment
apply_environment-Addresses env c c' h =
    let (server, from, made) = >>=-loaded (server_environment env c.server) _ h in
    subst (λ x. Addresses env c.server x) (ap (λ (x : Config). x.server) (loaded-injective made))
      (server_environment-Addresses env c.server server from)

with_address-server :
    (overrides : Overrides) (c : Config)
    → ((with_address overrides c).server.address ≡ over overrides.address c.server.address)
      × ((with_address overrides c).server.diagnostics_address ≡ c.server.diagnostics_address)
with_address-server overrides c = elim (Bool-cases (is_empty overrides.address)) [
  | inl absent ↦ rw absent (refl, refl)
  | inr given ↦ rw given (refl, refl)
]

module _ (read : Bytes → Option Bytes) (unmarshal : Bytes → Config → Option Config) where
  -- The address of a loaded configuration is that of the command line, or else of the environment, or
  -- else of the file over the defaults; the address of the diagnostics is that of the environment, or
  -- else of the file.
  pub load_with_overrides-over :
      (parsers : Parsers) (path : Bytes) (env : Environment) (overrides : Overrides) (c : Config)
      → load_with_overrides read unmarshal parsers path env overrides ≡ loaded c
      → (file : Config) × (read_file read unmarshal path ≡ loaded file)
        × (c.server.address
            ≡ over overrides.address
                (over (variable env (codes "GOFEATHERROUTE_ADDR")) file.server.address))
        × (c.server.diagnostics_address
            ≡ over
                (variable env (codes "GOFEATHERROUTE_PPROF_ADDR"))
                file.server.diagnostics_address)
  unfolding load_with_overrides normalize_model_routes
  load_with_overrides-over parsers path env overrides c h =
      let (file, from, h1) = >>=-loaded (read_file read unmarshal path) _ h in
      let (changed, applied, h2) =
        >>=-loaded (apply_environment env (normalize_model_routes file)) _ h1 in
      let v = validate-IsValid parsers env (with_address overrides changed) c h2 in
      let a = apply_environment-Addresses env (normalize_model_routes file) changed applied in
      let kept = normalize_routes-server file.model_list file in
      let (address, diagnostics) = with_address-server overrides changed in
      (
        file,
        from,
        ap (λ (x : Config). x.server.address) v.same
            ∙ address
            ∙ ap (over overrides.address) (
                a.address
                ∙ ap
                    (λ (x : ServerConfig).
                      over (variable env (codes "GOFEATHERROUTE_ADDR")) x.address)
                    kept),
        ap (λ (x : Config). x.server.diagnostics_address) v.same
            ∙ diagnostics
            ∙ a.diagnostics_address
            ∙ ap
                (λ (x : ServerConfig).
                  over (variable env (codes "GOFEATHERROUTE_PPROF_ADDR")) x.diagnostics_address)
                kept,
      )
