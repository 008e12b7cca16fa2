-- ===== src/Router/Tests/Slots.antt =====
-- A chat and an embedding on the server with the default limits.
use go_feather_route.Prelude.{ℕ, ◌*◌, ◌^◌, ◌≤◌, ◌<◌, ◌≡◌, [], ◌∷◌, All, length, arith}
use go_feather_route.Config.{defaults}
use go_feather_route.Router.Server.{new_state}
use go_feather_route.Router.Slots.{
  Kind, chat_kind, stream_kind, embedding_kind, Phase, waiting, holding, left, capacity, take, free,
  Step, cancel, release, System, Service, Reached, fresh, arrive, goes_on, served, admit,
}
use go_feather_route.Router.Slots.Bounded.{IsBounded, Reached-IsBounded}
use go_feather_route.Router.Slots.Progress.{
  Run, done, next, weight, Step-weight, Run-drains, Reached-drains,
}
use go_feather_route.Router.Tests.Handlers.{server}

fits : (k : Kind) → capacity server k < 2 ^ 64
unfolding capacity defaults
fits chat_kind = omega arith
fits stream_kind = omega arith
fits embedding_kind = omega arith

open_slots : (k : Kind) → 1 ≤ capacity server k
unfolding capacity defaults
open_slots chat_kind = omega arith
open_slots stream_kind = omega arith
open_slots embedding_kind = omega arith

abbrev two_wait : System
two_wait = record {
  gauges = new_state.gauges;
  requests = (chat_kind, waiting) ∷ (embedding_kind, waiting) ∷ [];
}

abbrev one_holds : System
one_holds = record {
  gauges = take embedding_kind new_state.gauges;
  requests = (chat_kind, waiting) ∷ (embedding_kind, holding) ∷ [];
}

admits : Service server two_wait one_holds
unfolding capacity defaults
admits = admit new_state.gauges ((chat_kind, waiting) ∷ []) [] embedding_kind (omega arith)

reached : Reached server one_holds
reached = goes_on (arrive chat_kind (arrive embedding_kind fresh)) (served admits)

Reached-IsBounded_example : IsBounded server one_holds embedding_kind
Reached-IsBounded_example = Reached-IsBounded server fits one_holds embedding_kind reached

-- The embedding leaves, and the chat gives up its wait.
abbrev one_left : System
one_left = record {
  gauges = free embedding_kind (take embedding_kind new_state.gauges);
  requests = (chat_kind, waiting) ∷ (embedding_kind, left) ∷ [];
}

abbrev all_left : System
all_left = record one_left { requests = (chat_kind, left) ∷ (embedding_kind, left) ∷ [] }

run : Run (Step server) 2 one_holds all_left
run =
    next
      (served (
        release (take embedding_kind new_state.gauges) ((chat_kind, waiting) ∷ []) []
          embedding_kind))
      (next (cancel one_left.gauges [] ((embedding_kind, left) ∷ []) chat_kind) done)

ended : (u : System) → Step server all_left u → ⊥
unfolding weight
ended u step = let lighter = Step-weight server all_left u step in omega (arith, lighter)

Run-drains_example :
    (2 ≤ 2 * length one_holds.requests) × All (λ (r : Kind × Phase). r.1 ≡ left) all_left.requests
Run-drains_example = Run-drains server fits open_slots 2 one_holds all_left reached run ended

Reached-drains_example :
    (n : ℕ) × (t : System) × Run (Service server) n one_holds t
    × All (λ (r : Kind × Phase). r.1 ≡ left) t.requests
Reached-drains_example = Reached-drains server fits open_slots one_holds reached
