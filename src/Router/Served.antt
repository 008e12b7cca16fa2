-- ===== src/Router/Served.antt =====
-- From an entry of the model list to the clients that the server finds for its model.
pub mod Loading
use go_feather_route.Prelude.{
  ℕ, ◌≡◌, ◌≢◌, refl, sym, ap, ◌∙◌, inl, inr, Bool, true, false, ◌||◌, Option, none, some, List, [],
  ◌∷◌, Bytes, All, str_eq, str_eq_iff, is_empty, Bool-cases, Option-cases, if◌then◌else◌, arith,
}
use go_feather_route.Prelude.Dict.{Dict, lookup, insert, lookup-insert, bytes_eq}
use go_feather_route.Config.{ModelRoute, ProviderConfig, Config, Overrides}
use go_feather_route.Config.Load.{
  Loaded, loaded, ◌>>=◌, Parsers, Environment, add_alias, normalize_route, normalize_routes,
  normalize_model_routes, apply_environment,
}
use go_feather_route.Config.Validate.{validate, read_file, with_address, load_with_overrides}
use go_feather_route.Config.Checked.{
  >>=-loaded, IsServed, IsValid, HasLimits, validate-IsValid, apply_environment_same,
}
use go_feather_route.Gateway.{provider_for, new_routes_with_rules}
use go_feather_route.Gateway.Lookup.{provider_for-exact}
use go_feather_route.Provider.{Client, ClientApi}
use go_feather_route.Router.Server.{Server, with_limits, to_client, to_clients, new_server}
use go_feather_route.Router.Selection.{clients_for, fallbacks}
use go_feather_route.Router.Selection.Order.{
  clients_for-eq, candidates_exist, existing-cons, existing, usable,
}

add_alias_same :
    (route : ModelRoute) (c : Config)
    → ((add_alias route c).routes ≡ c.routes) × ((add_alias route c).model_list ≡ c.model_list)
unfolding add_alias
add_alias_same route c = elim (Option-cases (lookup route.provider c.providers)) [
  | inl missing ↦ rw (missing, add_alias) (refl, refl)
  | inr (provider, found) ↦ elim (Bool-cases (is_empty route.upstream_model)) [
    | inl plain ↦ rw (found, add_alias) (rw plain (refl, refl))
    | inr renamed ↦ rw (found, add_alias) (rw renamed (refl, refl))
  ]
]

pub normalize_routes-model_list :
    (l : List ModelRoute) (c : Config) → (normalize_routes l c).model_list ≡ c.model_list
unfolding normalize_routes normalize_route
normalize_routes-model_list [] c = refl
normalize_routes-model_list (route ∷ l) c =
    normalize_routes-model_list l (normalize_route route c)
    ∙ elim (Bool-cases (is_empty route.model_name || is_empty route.provider)) [
      | inl partial ↦ rw (partial)
      | inr complete ↦ rw complete (add_alias_same route _).1
    ]

module _ (providers : Dict Bytes ProviderConfig) where
  -- The exact alias of a model leads to a configured provider, which has a name.
  pub record Routed (name : Bytes) (c : Config) : Type 0 where
    pub target : Bytes
    pub found : lookup name c.routes ≡ some target
    pub named : target ≢ []
    pub provider : ProviderConfig
    pub known : lookup target providers ≡ some provider

  not_nil : (a b : Bytes) → (is_empty a || is_empty b) ≡ false → b ≢ []
  not_nil a [] h = absurd (ground arith)
  not_nil a (c ∷ b) h = λ p. cc

  routes_after :
      (route : ModelRoute) (c : Config)
      → (is_empty route.model_name || is_empty route.provider) ≡ false
      → (normalize_route route c).routes ≡ insert route.model_name route.provider c.routes
  unfolding normalize_route
  routes_after route c h = rw h (add_alias_same route _).0

  new-Routed :
      (name : Bytes) (route : ModelRoute) (c : Config)
      → IsServed providers route
      → str_eq route.model_name name ≡ true
      → Routed name (normalize_route route c)
  new-Routed name route c s same = record {
    target = route.provider;
    found =
        ap (lookup name) (routes_after route c s.complete)
        ∙ lookup-insert route.model_name name route.provider c.routes
        ∙ ap (λ b. if b then some route.provider else lookup name c.routes) same;
    named = not_nil route.model_name route.provider s.complete;
    provider = s.provider;
    known = s.known;
  }

  normalize_route-Routed :
      (name : Bytes) (route : ModelRoute) (c : Config)
      → IsServed providers route
      → Routed name c
      → Routed name (normalize_route route c)
  normalize_route-Routed name route c s r = elim (Bool-cases (str_eq route.model_name name)) [
    | inl same ↦ new-Routed name route c s same
    | inr other ↦ record {
      target = r.target;
      found =
          ap (lookup name) (routes_after route c s.complete)
          ∙ lookup-insert route.model_name name route.provider c.routes
          ∙ ap (λ b. if b then some route.provider else lookup name c.routes) other
          ∙ r.found;
      named = r.named;
      provider = r.provider;
      known = r.known;
    }
  ]

  normalize_routes-Routed :
      (name : Bytes) (l : List ModelRoute) (c : Config)
      → All (IsServed providers) l
      → Routed name c
      → Routed name (normalize_routes l c)
  unfolding normalize_routes
  normalize_routes-Routed name [] c h r = r
  normalize_routes-Routed name (route ∷ l) c (s, h) r =
      normalize_routes-Routed name l (normalize_route route c) h
        (normalize_route-Routed name route c s r)

  pub All-Routed :
      (l : List ModelRoute) (c : Config)
      → All (IsServed providers) l
      → All (λ route. Routed route.model_name (normalize_routes l c)) l
  unfolding normalize_routes
  All-Routed [] c h = tt
  All-Routed (route ∷ l) c (s, h) = (
    normalize_routes-Routed route.model_name l (normalize_route route c) h (
        new-Routed route.model_name route c s
          ((str_eq_iff route.model_name route.model_name).1 refl)),
    All-Routed l (normalize_route route c) h,
  )

lookup-to_clients :
    (api : Client → ClientApi) (name : Bytes) (providers : Dict Bytes ProviderConfig)
    (item : ProviderConfig)
    → lookup name providers ≡ some item
    → (client : ClientApi) × (lookup name (to_clients api providers) ≡ some client)
unfolding lookup to_clients
lookup-to_clients api name [] item h = cc
lookup-to_clients api name ((other, entry) ∷ providers) item h =
    elim (Bool-cases (str_eq other name)) [
      | inl same ↦ rw same (api (to_client other entry), refl)
      | inr different ↦ rw different (lookup-to_clients api name providers item (rw different at h))
    ]

-- The server of a configuration has a client for a model.
abbrev pub HasClients : (Client → ClientApi) → Config → (Bytes → Bool) → Bytes → Type 0
HasClients api c available model =
    (found : List ClientApi) × (clients_for (new_server api c).providers available
        (new_server api c).routes (new_server api c).config.model_list model
      ≡ some found)
    × (found ≢ [])

pub Routed-HasClients :
    (api : Client → ClientApi) (c : Config) (available : Bytes → Bool) (model : Bytes)
    → Routed c.providers model c
    → HasClients api c available model
unfolding new_server new_routes_with_rules
Routed-HasClients api c available model r =
    let server = new_server api c in
    let clients = to_clients api c.providers in
    let (client, has) = lookup-to_clients api r.target c.providers r.provider r.known in
    let names = r.target ∷ fallbacks model c.model_list in
    rw
      (clients_for-eq clients available server.routes c.model_list model r.target
        (provider_for-exact server.routes model r.target r.found r.named))
      (candidates_exist clients available (existing clients available names)
        (usable clients available names) client
        (existing clients available (fallbacks model c.model_list))
        (existing-cons clients available r.target client (fallbacks model c.model_list) has))
