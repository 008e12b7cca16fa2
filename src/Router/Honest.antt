-- ===== src/Router/Honest.antt =====
-- The clients that the handlers call are those of the server, and a chosen response is an answer of
-- one of them.
use go_feather_route.Prelude.{
  ℕ, ◌≡◌, inl, inr, Bool, true, false, Option, none, some, List, [], ◌∷◌, ◌++◌, Bytes, All,
  All-append, str_eq, subst, Bool-cases, Option-cases, if◌then◌else◌,
}
use go_feather_route.Prelude.Dict.{Dict, lookup, bytes_eq}
use go_feather_route.Gateway.{Routes, provider_for}
use go_feather_route.Config.{ModelRoute, ProviderConfig}
use go_feather_route.Provider.{Client, ClientApi, Response, Outcome, ok}
use go_feather_route.Router.Health.{Health}
use go_feather_route.Router.Failover.{Routed, nothing, broken, chosen}
use go_feather_route.Router.Failover.Choice.{Run, none_left, call_error, answer, pass_over}
use go_feather_route.Router.Selection.{fallbacks, select, selected, clients_for}
use go_feather_route.Router.Server.{to_clients}

-- The second parts of a list of pairs.
abbrev pub AllValues {κ} : (ClientApi → Type κ) → Dict Bytes ClientApi → Type κ
AllValues P [] = Unit
AllValues P ((name, client) ∷ m) = P client × AllValues P m

abbrev pub AllOption {κ} : (ClientApi → Type κ) → Option ClientApi → Type κ
AllOption P none = Unit
AllOption P (some client) = P client

module _ (P : ClientApi → Type 0) where
  lookup-All :
      (name : Bytes) (m : Dict Bytes ClientApi) (client : ClientApi)
      → AllValues P m
      → lookup name m ≡ some client
      → P client
  unfolding lookup
  lookup-All name [] client h p = absurd (cc p)
  lookup-All name ((n, c) ∷ m) client (one, h) p = elim (Bool-cases (str_eq n name)) [
    | inl here ↦ let same : c ≡ client = cc (rw here at p) in subst P same one
    | inr there ↦ lookup-All name m client h (rw there at p)
  ]

  first-All :
      (primary : Option ClientApi) (client : ClientApi)
      → AllOption P primary
      → P client
      → AllOption P (elim primary [ none ↦ some client | some p ↦ some p ])
  first-All none client h p = p
  first-All (some c) client h p = h

  kept-All :
      (b : Bool) (clients : List ClientApi) (client : ClientApi)
      → All P clients
      → P client
      → All P (if b then clients ++ client ∷ [] else clients)
  kept-All true clients client h p = All-append P clients (client ∷ []) h (p, tt)
  kept-All false clients client h p = h

  select-All :
      (providers : Dict Bytes ClientApi) (available : Bytes → Bool) (primary : Option ClientApi)
      (clients : List ClientApi) (names : List Bytes)
      → AllValues P providers
      → All P clients
      → AllOption P primary
      → All P (select providers available primary clients names).1
        × AllOption P (select providers available primary clients names).0
  unfolding select
  select-All providers available primary clients [] m l p = (l, p)
  select-All providers available primary clients (name ∷ names) m l p =
      elim (Option-cases (lookup name providers)) [
        | inl missing ↦
            rw (missing, select) (select-All providers available primary clients names m l p)
        | inr (client, found) ↦
            let one = lookup-All name providers client m found in
            rw (found, select)
              (select-All providers available _ _ names m
                (kept-All (available name) clients client l one) (first-All primary client p one))
      ]

  selected-All :
      (providers : Dict Bytes ClientApi) (available : Bytes → Bool) (primary : Option ClientApi)
      (clients found : List ClientApi)
      → AllOption P primary
      → All P clients
      → selected providers available primary clients ≡ some found
      → All P found
  unfolding selected
  selected-All providers available primary (c ∷ cs) found p l h =
      let same : c ∷ cs ≡ found = cc in subst (All P) same l
  selected-All providers available (some c) [] found p l h =
      let same : c ∷ [] ≡ found = cc in subst (All P) same (p, tt)
  selected-All providers available none [] found p l h = absurd (cc h)

  -- What is true of every client of a server is true of those that a model leads to.
  pub clients_for-All :
      (providers : Dict Bytes ClientApi) (available : Bytes → Bool) (routes : Routes)
      (model_list : List ModelRoute) (model : Bytes) (found : List ClientApi)
      → AllValues P providers
      → clients_for providers available routes model_list model ≡ some found
      → All P found
  unfolding clients_for
  clients_for-All providers available routes model_list model found m h =
      elim (Option-cases (provider_for routes model)) [
        | inl missing ↦ absurd (cc (rw (missing, clients_for) at h))
        | inr (name, routed) ↦
            let (clients, primary) =
              select-All providers available none [] (name ∷ fallbacks model model_list) m tt tt in
            selected-All providers available _ _ found primary clients
              (rw (routed, clients_for) at h)
      ]

  pub to_clients-All :
      (api : Client → ClientApi) (items : Dict Bytes ProviderConfig)
      → ((c : Client) → P (api c))
      → AllValues P (to_clients api items)
  unfolding to_clients
  to_clients-All api [] h = tt
  to_clients-All api ((name, item) ∷ items) h = (h _, to_clients-All api items h)

-- A chosen response answers the call of a client of the list.
module _ (call : ℕ → ClientApi → Outcome) (now : ℕ → ℕ) (Q : Response → Type 0) where
  abbrev pub IsAnswered : Routed → Type 0
  IsAnswered nothing = Unit
  IsAnswered (broken e) = Unit
  IsAnswered (chosen r client index) = Q r

  pub run-IsAnswered :
      {index : ℕ} {clients : List ClientApi} {h h' : Health} {routed : Routed}
      → Run call now index clients h routed h'
      → All (λ c. (i : ℕ) (r : Response) → call i c ≡ ok r → Q r) clients
      → IsAnswered routed
  run-IsAnswered (none_left index h) a = tt
  run-IsAnswered (call_error index client rest h e p) a = tt
  run-IsAnswered (answer index client rest h r p last) a = a.0 index r p
  run-IsAnswered (pass_over index client rest h r p again more run) a = run-IsAnswered run a.1
