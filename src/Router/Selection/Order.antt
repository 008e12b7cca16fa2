-- ===== src/Router/Selection/Order.antt =====
-- Which clients are selected, in which order.
use go_feather_route.Prelude.{
  ◌≡◌, ◌≢◌, refl, ap, ◌∙◌, Bool, Option, none, some, List, [], ◌∷◌, ◌++◌, All, Bytes, if◌then◌else◌,
  Bool-cases, Option-cases, inl, inr,
}
use mathlib.Core.List.{append-nil, append_assoc}
use go_feather_route.Prelude.Dict.{Dict, lookup, bytes_eq}
use go_feather_route.Gateway.{Routes, provider_for}
use go_feather_route.Gateway.Lookup.{provider_for-All}
use go_feather_route.Provider.{ClientApi}
use go_feather_route.Config.{ModelRoute}
use go_feather_route.Router.Selection.{fallbacks, select, selected, clients_for}

module _ (providers : Dict Bytes ClientApi) (available : Bytes → Bool) where
  -- The clients of the names that have one, and of those the ones that are available, in order.
  unfoldable pub existing : List Bytes → List ClientApi
  existing [] = []
  existing (name ∷ names) = elim (lookup name providers) [
    | none ↦ existing names
    | some client ↦ client ∷ existing names
  ]

  unfoldable pub usable : List Bytes → List ClientApi
  usable [] = []
  usable (name ∷ names) = elim (lookup name providers) [
    | none ↦ usable names
    | some client ↦ if available name then client ∷ usable names else usable names
  ]

  -- The clients that a request may try: the usable ones, or the first that exists if none is usable.
  unfoldable pub candidates : List ClientApi → List ClientApi → Option (List ClientApi)
  candidates (c ∷ cs) existing_ones = some (c ∷ cs)
  candidates [] (c ∷ cs) = some (c ∷ [])
  candidates [] [] = none

  abbrev first : Option ClientApi → List ClientApi → Option ClientApi
  first (some p) l = some p
  first none [] = none
  first none (c ∷ l) = some c

  first_step :
      (primary : Option ClientApi) (client : ClientApi) (l : List ClientApi)
      → first (elim primary [ none ↦ some client | some p ↦ some p ]) l ≡ first primary (client ∷ l)
  first_step none client l = refl
  first_step (some p) client l = refl

  select-eq :
      (primary : Option ClientApi) (clients : List ClientApi) (names : List Bytes)
      → select providers available primary clients names
        ≡ (first primary (existing names), clients ++ usable names)
  unfolding select existing usable
  select-eq none clients [] = rw append-nil
  select-eq (some p) clients [] = rw append-nil
  select-eq primary clients (name ∷ names) = elim (Option-cases (lookup name providers)) [
    | inl missing ↦ rw (missing, select, existing, usable) (select-eq primary clients names)
    | inr (client, found) ↦ elim (Bool-cases (available name)) [
      | inl here ↦
          rw (found, select, existing, usable)
            (rw here (
              select-eq (elim primary [ none ↦ some client | some p ↦ some p ])
                (clients ++ client ∷ []) names
              ∙ ap (λ o. (o, (clients ++ client ∷ []) ++ usable names))
                  (first_step primary client (existing names))
              ∙ ap (λ l. (first primary (client ∷ existing names), l))
                  (append_assoc clients (client ∷ []) (usable names))))
      | inr cooling ↦
          rw (found, select, existing, usable)
            (rw cooling (
              select-eq (elim primary [ none ↦ some client | some p ↦ some p ]) clients names
              ∙ ap (λ o. (o, clients ++ usable names))
                  (first_step primary client (existing names))))
    ]
  ]

  selected-eq :
      (l clients : List ClientApi)
      → selected providers available (first none l) clients ≡ candidates clients l
  unfolding selected candidates
  selected-eq l (c ∷ cs) = refl
  selected-eq [] [] = refl
  selected-eq (c ∷ l) [] = refl

  -- The clients of a routed model are those of its provider and its fallbacks that exist and are
  -- available, in the configured order; if none is available, the first that exists alone; and an
  -- error if none exists.
  pub clients_for-eq :
      (routes : Routes) (model_list : List ModelRoute) (model provider_name : Bytes)
      → provider_for routes model ≡ some provider_name
      → clients_for providers available routes model_list model
        ≡ candidates
            (usable (provider_name ∷ fallbacks model model_list))
            (existing (provider_name ∷ fallbacks model model_list))
  unfolding clients_for
  clients_for-eq routes model_list model provider_name routed =
      let names = provider_name ∷ fallbacks model model_list in
      rw (routed, clients_for)
        (rw (select-eq none [] names) (selected-eq (existing names) (usable names)))

  selected-ne-nil :
      (primary : Option ClientApi) (clients : List ClientApi)
      → selected providers available primary clients ≢ some []
  unfolding selected
  selected-ne-nil primary (c ∷ cs) e = cc
  selected-ne-nil (some p) [] e = cc
  selected-ne-nil none [] e = cc

  pub candidates_exist :
      (l clients : List ClientApi) (c : ClientApi) (cs : List ClientApi)
      → l ≡ c ∷ cs
      → (found : List ClientApi) × (candidates clients l ≡ some found) × (found ≢ [])
  unfolding candidates
  candidates_exist l (d ∷ ds) c cs e = (d ∷ ds, refl, λ p. cc)
  candidates_exist l [] c cs e = rw e (c ∷ [], refl, λ p. cc)

  pub existing-cons :
      (name : Bytes) (c : ClientApi) (names : List Bytes)
      → lookup name providers ≡ some c
      → existing (name ∷ names) ≡ c ∷ existing names
  unfolding existing
  existing-cons name c names h = rw (h, existing)

  -- Where every provider that the routing table names has a client, every model with a route has a
  -- list of clients with at least one element, whatever the cooldowns are.
  pub clients_for_total :
      (routes : Routes) (model_list : List ModelRoute) (model provider_name : Bytes)
      → All (λ entry. (c : ClientApi) × (lookup entry.1 providers ≡ some c)) routes.by_model
      → All (λ rule. (c : ClientApi) × (lookup rule.provider providers ≡ some c)) routes.rules
      → provider_for routes model ≡ some provider_name
      → (found : List ClientApi) × (clients_for providers available routes model_list model
          ≡ some found)
        × (found ≢ [])
  clients_for_total routes model_list model provider_name aliases rules routed =
      let (c, has_client) =
        provider_for-All (λ name. (c : ClientApi) × (lookup name providers ≡ some c)) routes model
          aliases rules routed in
      let names = provider_name ∷ fallbacks model model_list in
      rw (clients_for-eq routes model_list model provider_name routed) (
        candidates_exist (existing names) (usable names) c (existing (fallbacks model model_list))
          (existing-cons provider_name c (fallbacks model model_list) has_client))
