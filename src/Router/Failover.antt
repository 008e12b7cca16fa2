-- ===== src/Router/Failover.antt =====
-- The loop over the selected clients, which `chat` and `embeddings` share.
pub mod Choice
use go_feather_route.Prelude.{
  ℕ, ◌+◌, Bool, true, false, not, ◌||◌, List, [], ◌∷◌, leb, ltb, ◌==◌, if◌then◌else◌,
}
use go_feather_route.Provider.{ClientApi, Response, Failure, Result, ok, err, Outcome}
use go_feather_route.Router.Health.{Health, mark_provider_failure, mark_provider_success}

unfoldable pub retryable_upstream_status : ℕ → Bool
retryable_upstream_status status = (status == 429) || leb 500 status

-- What the loop leaves: an error of a call; or the response of the chosen client, its index and the
-- client; or nothing, where there was no client.
pub data Routed : Type 0 where
  nothing : Routed
  broken : Failure → Routed
  chosen : Response → ClientApi → ℕ → Routed

abbrev pub is_last : List ClientApi → Bool
is_last [] = true
is_last (_ ∷ _) = false

unfoldable pub mark_chosen : Response → ClientApi → Health → Health
mark_chosen response client h =
    if ltb response.status_code 400 then mark_provider_success client.provider_name h else h

-- `call` is the request to a client at an index, and `now` the time of the marks after it.
module _ (call : ℕ → ClientApi → Outcome) (now : ℕ → ℕ) where
  unfoldable pub failover : ℕ → List ClientApi → Health → Routed × Health
  unfolding retryable_upstream_status mark_chosen
  failover index [] h = (nothing, h)
  failover index (client ∷ rest) h = elim (call index client) [
    | err e ↦ (broken e, h)
    | ok response ↦
        let next =
          failover (index + 1) rest (mark_provider_failure (now index) client.provider_name h) in
        if not (retryable_upstream_status response.status_code) || is_last rest
        then (chosen response client index, mark_chosen response client h)
        else next
  ]
