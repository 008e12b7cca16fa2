-- ===== src/Router/Served/Loading.antt =====
-- What a loaded configuration promises to the server that is made of it.
use go_feather_route.Prelude.{
  ◌≡◌, refl, sym, subst, ap, ◌∙◌, inl, inr, Bool, false, Option, Bytes, All, All-map, is_empty,
  Bool-cases,
}
use go_feather_route.Prelude.Int.{ℤ, not_positive}
use go_feather_route.Prelude.Dict.{lookup, bytes_eq}
use go_feather_route.Config.{ServerConfig, Config, Overrides}
use go_feather_route.Config.Load.{
  loaded, Parsers, Environment, normalize_routes, normalize_model_routes, apply_environment,
}
use go_feather_route.Config.Validate.{read_file, with_address, load_with_overrides}
use go_feather_route.Config.Checked.{
  >>=-loaded, IsServed, IsValid, HasLimits, validate-IsValid, apply_environment_same,
}
use go_feather_route.Provider.{Client, ClientApi}
use go_feather_route.Router.Server.{at_least, with_limits}
use go_feather_route.Router.Served.{
  Routed, normalize_routes-model_list, All-Routed, HasClients, Routed-HasClients,
}

-- What becomes of the configuration `c` of the file until it is loaded as `c'`.
record Stages (c c' : Config) : Type 0 where
  routes : c'.routes ≡ (normalize_routes c.model_list c).routes
  model_list : c'.model_list ≡ c.model_list
  served : All (IsServed c'.providers) c'.model_list

with_address_same :
    (overrides : Overrides) (c : Config)
    → ((with_address overrides c).routes ≡ c.routes)
      × ((with_address overrides c).model_list ≡ c.model_list)
with_address_same overrides c = elim (Bool-cases (is_empty overrides.address)) [
  | inl absent ↦ rw absent (refl, refl)
  | inr given ↦ rw given (refl, refl)
]

stages :
    (parsers : Parsers) (env : Environment) (overrides : Overrides) (c changed c' : Config)
    → apply_environment env (normalize_model_routes c) ≡ loaded changed
    → IsValid (with_address overrides changed) c'
    → Stages c c'
unfolding normalize_model_routes
stages parsers env overrides c changed c' applied v =
    let (routes, models) = apply_environment_same env _ changed applied in
    let (routes', models') = with_address_same overrides changed in
    record {
      routes = ap (λ x. x.routes) v.same ∙ routes' ∙ routes;
      model_list =
          ap (λ x. x.model_list) v.same
          ∙ models'
          ∙ models
          ∙ normalize_routes-model_list c.model_list c;
      served = rw (v.same) v.served;
    }

Routed-routes :
    (c d : Config) (name : Bytes)
    → c.routes ≡ d.routes
    → Routed c.providers name d
    → Routed c.providers name c
Routed-routes c d name e r = record {
  target = r.target;
  found = ap (lookup name) e ∙ r.found;
  named = r.named;
  provider = r.provider;
  known = r.known;
}

Stages-HasClients :
    (api : Client → ClientApi) (available : Bytes → Bool) (c c' : Config)
    → Stages c c'
    → All (λ route. HasClients api c' available route.model_name) c'.model_list
Stages-HasClients api available c c' t =
    subst (λ l. All (λ route. HasClients api c' available route.model_name) l) (sym t.model_list)
      (All-map c.model_list
        (λ route r.
          Routed-HasClients api c' available route.model_name
            (Routed-routes c' (normalize_routes c.model_list c) route.model_name t.routes r))
        (All-Routed c'.providers c.model_list c
          (subst (λ l. All (IsServed c'.providers) l) t.model_list t.served)))

at_least_eq : (n d : ℤ) → not_positive n ≡ false → at_least n d ≡ n
at_least_eq n d h = rw (h)

limits_kept :
    (s : ServerConfig)
    → HasLimits s
    → not_positive s.stream_idle_timeout ≡ false
    → with_limits s ≡ s
unfolding with_limits
limits_kept s l idle = rw (l.requests, l.streams, l.embeddings, l.response, idle)

module _ (read : Bytes → Option Bytes) (unmarshal : Bytes → Config → Option Config)
    (parsers : Parsers) where
  -- The file's configuration behind a loaded one.
  loaded-Stages :
      (path : Bytes) (env : Environment) (overrides : Overrides) (c : Config)
      → load_with_overrides read unmarshal parsers path env overrides ≡ loaded c
      → (file : Config) × Stages file c
  unfolding load_with_overrides
  loaded-Stages path env overrides c h =
      let (file, _, h1) = >>=-loaded (read_file read unmarshal path) _ h in
      let (changed, applied, h2) =
        >>=-loaded (apply_environment env (normalize_model_routes file)) _ h1 in
      (
        file,
        stages parsers env overrides file changed c applied
            (validate-IsValid parsers env (with_address overrides changed) c h2),
      )

  pub load_with_overrides-IsServed :
      (path : Bytes) (env : Environment) (overrides : Overrides) (c : Config)
      → load_with_overrides read unmarshal parsers path env overrides ≡ loaded c
      → All (IsServed c.providers) c.model_list
  load_with_overrides-IsServed path env overrides c h =
      (loaded-Stages path env overrides c h).1.served

  -- Where a configuration loads, whatever the file, the environment and the command line hold, the
  -- server that is made of it finds at least one client for every model of the configuration's list,
  -- whichever providers cool down.
  pub load_with_overrides-HasClients :
      (api : Client → ClientApi) (available : Bytes → Bool) (path : Bytes) (env : Environment)
      (overrides : Overrides) (c : Config)
      → load_with_overrides read unmarshal parsers path env overrides ≡ loaded c
      → All (λ route. HasClients api c available route.model_name) c.model_list
  load_with_overrides-HasClients api available path env overrides c h =
      let (file, found) = loaded-Stages path env overrides c h in
      Stages-HasClients api available file c found

  -- The limits of a loaded configuration are those that the server uses: none of them falls back to a
  -- default of `NewServer`.
  pub load_with_overrides-with_limits :
      (path : Bytes) (env : Environment) (overrides : Overrides) (c : Config)
      → load_with_overrides read unmarshal parsers path env overrides ≡ loaded c
      → with_limits c.server ≡ c.server
  unfolding load_with_overrides
  load_with_overrides-with_limits path env overrides c h =
      let (file, _, h1) = >>=-loaded (read_file read unmarshal path) _ h in
      let (changed, _, h2) =
        >>=-loaded (apply_environment env (normalize_model_routes file)) _ h1 in
      let v = validate-IsValid parsers env (with_address overrides changed) c h2 in
      let l = v.limits in
      rw v.same (
        limits_kept _
          (record {
            body = l.body;
            response = l.response;
            requests = l.requests;
            embeddings = l.embeddings;
            streams = l.streams;
          })
          v.idle_positive)
