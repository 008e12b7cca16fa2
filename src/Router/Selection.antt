-- ===== src/Router/Selection.antt =====
-- The provider clients of a model: `clientsFor` and `clientFor`.
pub mod Order
use go_feather_route.Prelude.{
  ℕ, Bool, true, false, Option, none, some, List, [], ◌∷◌, ◌++◌, Bytes, str_eq, if◌then◌else◌,
}
use go_feather_route.Prelude.Dict.{Dict, lookup, bytes_eq}
use go_feather_route.Gateway.{Routes, provider_for}
use go_feather_route.Provider.{ClientApi}
use go_feather_route.Config.{ModelRoute}

-- The names to try: the routed provider, then the fallbacks of the first entry of that model.
unfoldable pub fallbacks : Bytes → List ModelRoute → List Bytes
fallbacks model [] = []
fallbacks model (route ∷ rest) =
    if str_eq route.model_name model then route.fallbacks else fallbacks model rest

-- The loop over the names. `available` is `providerAvailable` at the moment of each test.
module _ (providers : Dict Bytes ClientApi) (available : Bytes → Bool) where
  unfoldable pub select :
      Option ClientApi → List ClientApi → List Bytes → Option ClientApi × List ClientApi
  select primary clients [] = (primary, clients)
  select primary clients (name ∷ names) = elim (lookup name providers) [
    | none ↦ select primary clients names
    | some client ↦
        select (elim primary [ none ↦ some client | some p ↦ some p ])
          (if available name then clients ++ client ∷ [] else clients) names
  ]

  -- The end of `clientsFor`: with no client left the first that exists is tried all the same.
  unfoldable pub selected : Option ClientApi → List ClientApi → Option (List ClientApi)
  selected primary (c ∷ cs) = some (c ∷ cs)
  selected (some primary) [] = some (primary ∷ [])
  selected none [] = none

  unfoldable pub clients_for : Routes → List ModelRoute → Bytes → Option (List ClientApi)
  unfolding select selected fallbacks
  clients_for routes model_list model = elim (provider_for routes model) [
    | none ↦ none
    | some provider_name ↦
        let (primary, clients) = select none [] (provider_name ∷ fallbacks model model_list) in
        selected primary clients
  ]

  unfoldable pub client_for : Routes → List ModelRoute → Bytes → Option ClientApi
  unfolding clients_for
  client_for routes model_list model = elim (clients_for routes model_list model) [
    | none ↦ none
    | some [] ↦ none
    | some (c ∷ cs) ↦ some c
  ]
