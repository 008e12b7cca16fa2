-- ===== src/Router/Metrics/Tracked.antt =====
-- The maps of metrics that requests leave behind, over the whole gateway.
use go_feather_route.Prelude.{
  ℕ, ◌≤◌, ◌≡◌, refl, sym, subst, ◌⊎◌, inl, inr, Bool, not, Option, List, Bytes, codes, length,
  is_empty, Bool-cases, arith,
}
use go_feather_route.Prelude.Int.{ℤ}
use go_feather_route.Prelude.Dict.{nat_eq, bytes_eq}
use go_feather_route.Wire.{Json}
use go_feather_route.Config.{Config}
use go_feather_route.Contract.{Codec}
use go_feather_route.Provider.{Client, Response, World}
use go_feather_route.Provider.Retry.{most_requests}
use go_feather_route.Provider.Api.{IsTold, once, twice, to_api, to_api-IsHonest}
use go_feather_route.Router.Labels.{bounded_metric_label}
use go_feather_route.Router.Labels.Bounds.{length-bounded_metric_label}
use go_feather_route.Router.Server.{
  State, RouteKey, RouteMetric, key_eq_instance, new_metric, new_state, new_server,
  record_route_metric, record_retry_reason,
}
use go_feather_route.Router.Exchange.{record_response, count_retries}
use go_feather_route.Router.Honest.{to_clients-All}
use go_feather_route.Router.Sound.{Framed}
use go_feather_route.Router.Sound.Handlers.{Answers, IsKept}
use go_feather_route.Router.Sound.Whole.{Visit, after_visits, after_visits_kept}
use go_feather_route.Router.Metrics.Counted.{
  AllEntries, insert-AllEntries, get_or-AllEntries, IsCounted, add_to_metric-IsCounted,
}

abbrev pub IsReason : Bytes → ℕ → Type 0
IsReason reason n = (reason ≡ codes "rate_limited") ⊎ (reason ≡ codes "upstream_5xx")

abbrev pub IsRoute : RouteKey → RouteMetric → Type 0
IsRoute key m = (length key.provider ≤ 64) × (length key.model ≤ 64) × IsCounted m

-- What requests keep of the two maps.
pub record IsTracked (s : State) : Type 0 where
  pub reasons : AllEntries IsReason s.retry_reasons
  pub routes : AllEntries IsRoute s.route_stats

-- What one request may do to the maps.
IsTracked-frame : Framed IsTracked
IsTracked-frame s t reasons routes i = record {
  reasons = subst (AllEntries IsReason) (sym reasons) i.reasons;
  routes = subst (AllEntries IsRoute) (sym routes) i.routes;
}

rate_limited_label : bounded_metric_label (codes "rate_limited") ≡ codes "rate_limited"
unfolding bounded_metric_label
rate_limited_label = refl

upstream_label : bounded_metric_label (codes "upstream_5xx") ≡ codes "upstream_5xx"
unfolding bounded_metric_label
upstream_label = refl

IsReason-label :
    (reason : Bytes) (n : ℕ)
    → (reason ≡ codes "rate_limited") ⊎ (reason ≡ codes "upstream_5xx")
    → IsReason (bounded_metric_label reason) n
IsReason-label reason n (inl h) = inl (rw h rate_limited_label)
IsReason-label reason n (inr h) = inr (rw h upstream_label)

IsTracked-reason :
    (reason : Bytes) (s : State)
    → (reason ≡ codes "rate_limited") ⊎ (reason ≡ codes "upstream_5xx")
    → IsTracked s
    → IsTracked (record_retry_reason reason s)
unfolding record_retry_reason
IsTracked-reason reason s h i = record {
  reasons = insert-AllEntries IsReason _ _ s.retry_reasons (IsReason-label reason 0 h) i.reasons;
  routes = i.routes;
}

IsTracked-retries :
    (r : Response) (s : State) → IsTold 2 r → IsTracked s → IsTracked (count_retries r s)
unfolding count_retries record_retry_reason
IsTracked-retries r s (once _ _ plain) i = rw plain (IsTracked-frame s _ refl refl i)
IsTracked-retries r s (twice _ _ reason) i = elim (Bool-cases (is_empty r.retry_reason)) [
  | inl plain ↦ rw plain (IsTracked-frame s _ refl refl i)
  | inr named ↦
      let t = IsTracked-reason r.retry_reason s reason i in
      rw named (record { reasons = t.reasons; routes = t.routes })
]

IsTracked-routes :
    (name model : Bytes) (r : Response) (s : State)
    → IsTracked s
    → IsTracked (record_response name model r s)
unfolding record_response record_route_metric
IsTracked-routes name model r s i =
    let key : RouteKey = record {
      provider = bounded_metric_label name;
      model = bounded_metric_label model;
    } in
    let (a, b, counted) =
      get_or-AllEntries IsRoute key new_metric s.route_stats
        (
          (length-bounded_metric_label name).1,
          (length-bounded_metric_label model).1,
          record { requests = refl; errors = refl },
        )
        i.routes in
    record {
      reasons = i.reasons;
      routes =
          insert-AllEntries IsRoute key _ s.route_stats
            (a, b, add_to_metric-IsCounted r.status_code r.attempts _ counted) i.routes;
    }

IsTracked-kept : IsKept IsTracked (IsTold 2)
IsTracked-kept = record {
  frame = IsTracked-frame;
  retries = IsTracked-retries;
  routes = IsTracked-routes;
}

Answers-told :
    (json : Json) (worlds : Bytes → ℕ → World) (c : Client)
    → Answers (IsTold 2) (to_api json worlds c)
Answers-told json worlds c =
    let honest = to_api-IsHonest json worlds c in
    record {
      of_chat = λ index request_id body stream r h.
          at_most_two stream r (honest.of_chat index request_id body stream r h);
      of_embedding = honest.of_embedding;
    }
  where
    at_most_two :
        (stream : Bool) (r : Response) → IsTold (most_requests (not stream)) r → IsTold 2 r
    at_most_two stream r (once _ n w) = once (omega arith) n w
    at_most_two stream r (twice _ n w) = twice (omega arith) n w

-- Whatever requests a server with real clients has handled since its start, in turn, and whatever the
-- upstreams answered to each: its map of retry
-- reasons has no other keys than rate_limited and upstream_5xx; the labels of its routes have at most 64
-- bytes; and for each route, modulo 2^64, the count of requests is the sum of the counts of statuses, and
-- the count of errors that of the statuses from 400 on.
pub after_visits-IsTracked :
    (json : Json) (cfg : Config) (codec : Codec) (unmarshal_usage : Bytes → Option (ℤ × ℤ × ℤ))
    (visits : List Visit)
    → IsTracked (
        after_visits codec unmarshal_usage
          (λ worlds. new_server (to_api json worlds) cfg)
          visits
          new_state)
unfolding new_server
after_visits-IsTracked json cfg codec unmarshal_usage visits =
    after_visits_kept IsTracked (IsTold 2) IsTracked-kept codec unmarshal_usage
      (λ worlds. new_server (to_api json worlds) cfg)
      (λ worlds.
        to_clients-All (Answers (IsTold 2)) (to_api json worlds) cfg.providers
          (Answers-told json worlds))
      visits new_state (record { reasons = tt; routes = tt })
