-- ===== src/Router/Tests/Costs.antt =====
-- The estimated cost of an event, and a model whose cost is infinite.
use go_feather_route.Prelude.{
  str_eq, str_eq_iff, ◌*◌, ◌≡◌, refl, true, false, Option, none, some, [], ◌∷◌, Bytes, codes,
  if◌then◌else◌,
}
use go_feather_route.Prelude.Int.{pos}
use go_feather_route.Prelude.Float64.{
  finite, infinite, is_finite, is_below_zero, one, of_int, multiply, divide, add, round,
  or_infinite, nearest_units, nearest, quantum,
}
use go_feather_route.Config.{ModelRoute}
use go_feather_route.Config.Validate.{validate}
use go_feather_route.Usage.{Tokens, Event, report}
use go_feather_route.Router.Costs.{estimated_cost}
use go_feather_route.Router.Costs.Priced.{usage_event_plus, validate-report, verdict}
use go_feather_route.Router.Server.{Server, new_server}
use go_feather_route.Router.Exchange.{Request, usage_event}
use go_feather_route.Router.Tests.Handlers.{env, request, server, answer}
use go_feather_route.Router.Tests.Served.{
  read, unmarshal, parsers, environment, overrides, result, loads, refusing, fast,
}

abbrev tokens : Tokens
tokens = record { input = pos 500000; output = pos 20; total = pos 500020 }

-- Half a million tokens at 2 dollars for a million.
a_dollar : estimated_cost (finite false (2 * one), finite false 0) tokens ≡ finite false one
unfolding estimated_cost of_int multiply divide add round or_infinite nearest_units nearest quantum
a_dollar = refl

usage_event_plus_example :
    is_below_zero
      (usage_event
        (new_server refusing result)
        env
        request
        (codes "local")
        (codes "fast")
        tokens
        (answer [])
        0).estimated_cost
    ≡ false
usage_event_plus_example =
    usage_event_plus read unmarshal parsers (codes "a.yaml") environment overrides result refusing
      env request (codes "local") (codes "fast") tokens 500000 20 (answer []) 0 loads refl refl

abbrev unpriced : ModelRoute
unpriced = record fast { input_cost = infinite false }

-- The unpriced model stands behind one of another name.
abbrev other : ModelRoute
other = record fast { model_name = codes "slow" }

abbrev with_unpriced : Server
with_unpriced = record server {
  config = record server.config { model_list = other ∷ unpriced ∷ [] };
  usage_reporter = record { endpoint = codes "http://usage"; api_key = codes "k"; timeout = pos 0 };
}

abbrev named : Request
named = record request { header = (codes "X-Request-Id", codes "r1") ∷ [] }

abbrev marshal : Event → Option Bytes
marshal e = if is_finite e.estimated_cost then some (codes "{}") else none

refuses : (e : Event) → is_finite e.estimated_cost ≡ false → marshal e ≡ none
refuses e h = rw h

slower : str_eq (codes "slow") (codes "fast") ≡ true → ⊥
unfolding str_eq
slower h = cc

validate-report_example :
    (verdict (validate parsers environment (record result { model_list = other ∷ unpriced ∷ [] }))
      ≡ verdict (
          validate parsers environment (record result {
            model_list = other ∷ record fast { input_cost = finite false 0 } ∷ [];
          })))
    × (report marshal
          (λ url. true)
          with_unpriced.usage_reporter
          (usage_event with_unpriced env named (codes "local") (codes "fast") tokens (answer []) 0)
        ≡ none)
validate-report_example =
    validate-report marshal (λ url. true) refuses parsers environment result with_unpriced fast
      (other ∷ []) [] (infinite false) env named (codes "local") tokens (answer []) 0 refl refl
      ((λ p. slower ((str_eq_iff (codes "slow") (codes "fast")).1 p)), tt) refl
