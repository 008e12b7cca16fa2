-- ===== src/Router/Tests/Parts.antt =====
-- Failover, selection, cooldowns, labels and histograms on two providers.
use go_feather_route.Prelude.{
  ℕ, ◌+◌, ◌≡◌, refl, Bool, true, false, none, some, List, [], ◌∷◌, ◌++◌, Bytes, codes, str_eq,
}
use go_feather_route.Prelude.Float64.{finite}
use go_feather_route.Prelude.Int.{ℤ, pos, negsuc}
use go_feather_route.Prelude.Dict.{Dict, lookup, bytes_eq}
use go_feather_route.Wire.{Cause}
use go_feather_route.Config.{ModelRoute}
use go_feather_route.Gateway.{Routes, provider_for}
use go_feather_route.Provider.{ClientApi, Response, ok, Outcome}
use go_feather_route.Router.Health.{
  new_health, provider_available, mark_provider_failure, mark_provider_success,
}
use go_feather_route.Router.Health.Cooldown.{
  failure, success, run, standing, standings, standing-run, two_failures_cool,
}
use go_feather_route.Router.Failover.{chosen, failover}
use go_feather_route.Router.Failover.Choice.{Run, failover-Run}
use go_feather_route.Router.Selection.{clients_for, fallbacks}
use go_feather_route.Router.Selection.Order.{clients_for-eq, candidates, usable, existing}
use go_feather_route.Router.Labels.{request_id, is_safe_request_id}
use go_feather_route.Router.Labels.Bounds.{request_id-is_safe}

abbrev answer : ℕ → Response
answer status = record {
  status_code = status;
  header = [];
  body = record { reads = []; final = codes "{}"; cause = Cause.eof };
  attempts = 1;
  connection_duration = pos 0;
  first_response_duration = pos 0;
  retry_reason = [];
}

-- A client that always answers with one status.
abbrev steady : Bytes → ℕ → ClientApi
steady name status = record {
  provider_name = name;
  chat = λ index id body stream. ok (answer status);
  embedding = λ index id body. ok (answer status);
}

abbrev busy : ClientApi
busy = steady (codes "openai") 503

abbrev local : ClientApi
local = steady (codes "local") 200

abbrev call : ℕ → ClientApi → Outcome
call index client = client.chat index [] [] false

abbrev clock : ℕ → ℕ
clock index = 1000 + index

second_answers :
    (failover call clock 0 (busy ∷ local ∷ []) new_health).0 ≡ chosen (answer 200) local 1
unfolding failover
second_answers = refl

failover-Run_example :
    Run call clock 0 (busy ∷ local ∷ []) new_health (chosen (answer 200) local 1) (
      mark_provider_success
        (codes "local")
        (mark_provider_failure 1000 (codes "openai") new_health))
unfolding failover
failover-Run_example = failover-Run call clock 0 (busy ∷ local ∷ []) new_health

standing-run_example :
    standing
      (codes "a")
      (run new_health (failure 1 (codes "a") ∷ failure 2 (codes "b") ∷ failure 3 (codes "a") ∷ []))
    ≡ standings
        (codes "a")
        (standing (codes "a") new_health)
        (failure 1 (codes "a") ∷ failure 2 (codes "b") ∷ failure 3 (codes "a") ∷ [])
standing-run_example =
    standing-run (codes "a") new_health
      (failure 1 (codes "a") ∷ failure 2 (codes "b") ∷ failure 3 (codes "a") ∷ [])

two_failures_cool_example :
    provider_available 5000000020 (codes "a") (
      run new_health (
        success (codes "a") ∷ (failure 5 (codes "ab") ∷ [])
        ++ (failure 10 (codes "a") ∷ [] ++ (failure 15 (codes "a") ∷ [] ++ []))))
    ≡ true
two_failures_cool_example =
    two_failures_cool (codes "a") new_health 10 5000000020 (failure 5 (codes "ab") ∷ []) []
      (λ p. cc, tt) tt 15 [] tt

abbrev providers : Dict Bytes ClientApi
providers = (codes "openai", busy) ∷ (codes "local", local) ∷ []

abbrev routes : Routes
routes = record { by_model = (codes "fast", codes "openai") ∷ []; rules = [] }

abbrev model_list : List ModelRoute
model_list =
    record {
      model_name = codes "fast";
      provider = codes "openai";
      upstream_model = [];
      fallbacks = codes "gone" ∷ codes "local" ∷ [];
      input_cost = finite false 0;
      output_cost = finite false 0;
      embedding_cost = finite false 0;
    }
    ∷ []

-- The first provider cools down.
abbrev available : Bytes → Bool
available name = str_eq name (codes "local")

routed : provider_for routes (codes "fast") ≡ some (codes "openai")
unfolding provider_for lookup str_eq
routed = refl

clients_for-eq_example :
    clients_for providers available routes model_list (codes "fast") ≡ some (local ∷ [])
unfolding candidates usable existing fallbacks lookup str_eq
clients_for-eq_example =
    clients_for-eq providers available routes model_list (codes "fast") (codes "openai") routed

request_id-is_safe_example : is_safe_request_id (request_id (codes "two words") none 17) ≡ true
request_id-is_safe_example = request_id-is_safe (codes "two words") none 17 (λ value p. cc)

abbrev durations : List ℤ
durations = pos 4000000 ∷ negsuc 5 ∷ pos 20000000000 ∷ []
