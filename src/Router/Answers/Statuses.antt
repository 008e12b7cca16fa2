-- ===== src/Router/Answers/Statuses.antt =====
-- The statuses that the gateway gives to WriteHeader.
use go_feather_route.Prelude.{
  ℕ, ◌≤◌, ◌≡◌, refl, inl, inr, Option, none, some, List, Bytes, All, All-map, leb, Bool-cases,
  Option-cases, arith,
}
use go_feather_route.Prelude.Int.{ℤ}
use go_feather_route.Prelude.Dict.{bytes_eq}
use go_feather_route.Contract.{Codec, ChatRequest, validate_chat_response}
use go_feather_route.Contract.Problems.{Checked, good, bad}
use go_feather_route.Provider.{ClientApi, Response, Outcome}
use go_feather_route.Router.Health.{Health, provider_available}
use go_feather_route.Router.Failover.{Routed, nothing, broken, chosen}
use go_feather_route.Router.Failover.Choice.{failover-Run}
use go_feather_route.Router.Bodies.{read_bounded}
use go_feather_route.Router.Server.{Server, State}
use go_feather_route.Router.Exchange.{
  Request, Env, Chosen, read_limited_body, copy_upstream_error, relay_body, usage_event,
}
use go_feather_route.Router.Chat.{chat}
use go_feather_route.Router.Honest.{AllValues, clients_for-All, IsAnswered, run-IsAnswered}
use go_feather_route.Router.Sound.Handlers.{Answers}
use go_feather_route.Router.Answers.{
  reply_of, stream_answer, body_answer, chosen_answer, routed_answer, asks, exchange_answer,
  selected_answer, decoded_answer, chat_answer,
}
use go_feather_route.Router.Answers.Branches.{reply_of-chat}

-- What net/http's WriteHeader accepts; it panics at every other status.
abbrev pub IsStatus : ℕ → Type 0
IsStatus status = (100 ≤ status) × (status ≤ 999)

abbrev pub HasStatus : Response → Type 0
HasStatus r = IsStatus r.status_code

module _ (codec : Codec) (unmarshal_usage : Bytes → Option (ℤ × ℤ × ℤ)) (server : Server)
    (honest : AllValues (Answers HasStatus) server.providers) (env : Env) (request : Request) where
  pub error_status : (r : Response) → HasStatus r → IsStatus (copy_upstream_error server r).status
  unfolding copy_upstream_error
  error_status r h =
      elim (Option-cases (read_bounded r.body server.config.server.max_response_bytes)) [
        | inl long ↦ rw (long, copy_upstream_error) (omega arith, omega arith)
        | inr (body, short) ↦ rw (short, copy_upstream_error) h
      ]

  body_status :
      (envelope : ChatRequest) (c : Chosen) (received : Option Bytes)
      → HasStatus c.0
      → IsStatus (body_answer codec unmarshal_usage server env request envelope c received).status
  unfolding body_answer relay_body
  body_status envelope (r, client, index) none h = (omega arith, omega arith)
  body_status envelope (r, client, index) (some body) h =
      elim (Option-cases (validate_chat_response codec body)) [
        | inl valid ↦ rw (valid, body_answer) h
        | inr (p, wrong) ↦ rw (wrong, body_answer) (omega arith, omega arith)
      ]

  chosen_status :
      (envelope : ChatRequest) (c : Chosen)
      → HasStatus c.0
      → IsStatus (chosen_answer codec unmarshal_usage server env request envelope c).status
  unfolding chosen_answer stream_answer
  chosen_status envelope (r, client, index) h = elim (Bool-cases (leb 400 r.status_code)) [
    | inl refused ↦ rw refused (error_status r h)
    | inr fine ↦ elim (Bool-cases envelope.stream) [
      | inl stream ↦ rw (fine, stream) h
      | inr whole ↦ rw (fine, whole) (body_status envelope (r, client, index) _ h)
    ]
  ]

  routed_status :
      (call : ℕ → ClientApi → Outcome) (envelope : ChatRequest) (routed : Routed)
      → IsAnswered call env.now HasStatus routed
      → IsStatus (routed_answer codec unmarshal_usage server env request envelope routed).status
  unfolding routed_answer
  routed_status call envelope nothing h = (omega arith, omega arith)
  routed_status call envelope (broken e) h = (omega arith, omega arith)
  routed_status call envelope (chosen r client index) h =
      chosen_status envelope (r, client, index) h

  selected_status :
      (body : Bytes) (envelope : ChatRequest) (h : Health) (found : Option (List ClientApi))
      → ((clients : List ClientApi) → found ≡ some clients → All (Answers HasStatus) clients)
      → IsStatus
          (selected_answer codec unmarshal_usage server env request body envelope h found).status
  unfolding selected_answer exchange_answer usage_event
  selected_status body envelope h none a = (omega arith, omega arith)
  selected_status body envelope h (some clients) a = elim (Bool-cases env.admitted) [
    | inr late ↦ rw late (omega arith, omega arith)
    | inl admitted ↦
        let call = asks codec unmarshal_usage server env request body envelope in
        let answered =
          run-IsAnswered call env.now HasStatus (failover-Run call env.now 0 clients h)
            (All-map clients (λ c q i r. q.of_chat i _ body envelope.stream r) (a clients refl)) in
        rw admitted (routed_status call envelope _ answered)
  ]

  decoded_status :
      (body : Bytes) (h : Health) (decoded : Checked ChatRequest)
      → IsStatus (decoded_answer codec unmarshal_usage server env request body h decoded).status
  unfolding decoded_answer
  decoded_status body h (bad p) = (omega arith, omega arith)
  decoded_status body h (good envelope) = selected_status body envelope h _ (λ clients.
      clients_for-All (Answers HasStatus) server.providers
        (λ name. provider_available (env.available_at name) name h) server.routes
        server.config.model_list envelope.model clients honest)

  pub chat-status :
      (s : State) → IsStatus (reply_of (chat codec unmarshal_usage server env request s)).status
  unfolding chat_answer
  chat-status s =
      rw (reply_of-chat codec unmarshal_usage server env request s)
        (elim (Option-cases (read_limited_body request.body server.config.server.max_body_bytes)) [
          | inl long ↦ rw (long, chat_answer) (omega arith, omega arith)
          | inr (body, short) ↦ rw (short, chat_answer) (decoded_status body s.health _)
        ])
