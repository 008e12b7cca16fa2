-- ===== src/Router/Answers/Attempts.antt =====
-- The attempts that a usage event tells of, where the clients are those of the provider package.
use go_feather_route.Prelude.{ℕ, ◌≤◌, ◌≡◌, sym, not, Option, some, Bytes, All-map, subst, arith}
use go_feather_route.Prelude.Int.{ℤ}
use go_feather_route.Prelude.Dict.{bytes_eq}
use go_feather_route.Wire.{Json, content}
use go_feather_route.Config.{Config}
use go_feather_route.Contract.{Codec, ChatRequest, decode_chat_request}
use go_feather_route.Contract.Problems.{good}
use go_feather_route.Provider.{Response, World}
use go_feather_route.Provider.Retry.{most_requests}
use go_feather_route.Provider.Api.{IsTold, once, twice, IsHonest, to_api, to_api-IsHonest}
use go_feather_route.Usage.{Event}
use go_feather_route.Router.Health.{provider_available}
use go_feather_route.Router.Failover.Choice.{failover-Run}
use go_feather_route.Router.Server.{State, new_server}
use go_feather_route.Router.Exchange.{Request, Env}
use go_feather_route.Router.Chat.{chat}
use go_feather_route.Router.Honest.{clients_for-All, to_clients-All, IsAnswered, run-IsAnswered}
use go_feather_route.Router.Answers.{reply_of, asks}
use go_feather_route.Router.Answers.Events.{chat-IsReported}

attempts_of : (most : ℕ) (r : Response) → IsTold most r → (1 ≤ r.attempts) × (r.attempts ≤ most)
attempts_of most r (once h n w) = (omega arith, omega arith)
attempts_of most r (twice h n w) = (omega arith, omega arith)

-- A usage event of a chat tells of one attempt or two, and of exactly one where the body of the request
-- asks for a stream, whatever the configuration is and whichever clients fail over.
pub chat-attempts :
    (json : Json) (worlds : Bytes → ℕ → World) (cfg : Config) (codec : Codec)
    (unmarshal_usage : Bytes → Option (ℤ × ℤ × ℤ)) (env : Env) (request : Request) (s : State)
    (e : Event)
    → (reply_of
        (chat codec unmarshal_usage (new_server (to_api json worlds) cfg) env request s)).event
      ≡ some e
    → (envelope : ChatRequest) × (decode_chat_request codec (content request.body) ≡ good envelope)
      × (1 ≤ e.attempt_count)
      × (e.attempt_count ≤ most_requests (not envelope.stream))
unfolding new_server
chat-attempts json worlds cfg codec unmarshal_usage env request s e h =
    let server = new_server (to_api json worlds) cfg in
    let told = chat-IsReported codec unmarshal_usage server env request s e h in
    let call = asks codec unmarshal_usage server env request told.body told.envelope in
    let most = most_requests (not told.envelope.stream) in
    let honest =
      clients_for-All IsHonest server.providers
        (λ name. provider_available (env.available_at name) name s.health) server.routes
        server.config.model_list told.envelope.model told.clients
        (to_clients-All IsHonest (to_api json worlds) cfg.providers (to_api-IsHonest json worlds))
        told.selected in
    let answered =
      run-IsAnswered call env.now (IsTold most) (failover-Run call env.now 0 told.clients s.health)
        (All-map told.clients
          (λ c good_client i r. good_client.of_chat i _ told.body told.envelope.stream r) honest) in
    let bounds =
      attempts_of most told.response
        (subst (IsAnswered call env.now (IsTold most)) told.routed answered) in
    (
      told.envelope,
      subst (λ b. decode_chat_request codec b ≡ good told.envelope) told.read.same told.decoded,
      subst (λ n. 1 ≤ n) (sym told.attempts) bounds.0,
      subst (λ n. n ≤ most) (sym told.attempts) bounds.1,
    )
