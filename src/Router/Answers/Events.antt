-- ===== src/Router/Answers/Events.antt =====
-- The usage events of the chat handler, `reportUsage`.
use go_feather_route.Prelude.{
  ℕ, ◌≡◌, refl, sym, ap, ◌∙◌, inl, inr, false, Option, none, some, List, Bytes, leb, Bool-cases,
  Option-cases, if◌then◌else◌,
}
use go_feather_route.Prelude.Int.{ℤ}
use go_feather_route.Prelude.Dict.{bytes_eq}
use go_feather_route.Contract.{Codec, ChatRequest, decode_chat_request, validate_chat_response}
use go_feather_route.Contract.Problems.{Checked, good, bad}
use go_feather_route.Provider.{ClientApi, Response}
use go_feather_route.Usage.{parse_json}
use go_feather_route.Router.Health.{Health, provider_available}
use go_feather_route.Router.Selection.{clients_for}
use go_feather_route.Router.Failover.{Routed, nothing, broken, chosen, failover}
use go_feather_route.Router.Bodies.{read_bounded}
use go_feather_route.Router.Stream.{stream_response_with_usage}
use go_feather_route.Router.Server.{Server, State}
use go_feather_route.Router.Handling.{request_canceled, Reply, error_reply}
use go_feather_route.Router.Exchange.{
  Request, Env, Chosen, read_limited_body, copy_upstream_error, usage_event, relay_body,
}
use go_feather_route.Router.Chat.{chat}
use go_feather_route.Router.Answers.Read.{IsRead, read_limited_body-IsRead}
use go_feather_route.Router.Answers.{
  reply_of, stream_answer, body_answer, chosen_answer, routed_answer, asks, exchange_answer,
  selected_answer, decoded_answer, chat_answer,
}
use go_feather_route.Router.Answers.Branches.{reply_of-chat}
use go_feather_route.Usage.{Event, Tokens}
use go_feather_route.Prelude.{ltb}

module _ (codec : Codec) (unmarshal_usage : Bytes → Option (ℤ × ℤ × ℤ)) (server : Server)
    (env : Env) (request : Request) where
  -- An event of this call, whose answer is no error.
  FromCall : ChatRequest → Chosen → Event → Type 0
  FromCall envelope (r, client, index) e =
      (tokens : Tokens) × (e
        ≡ usage_event server env request client.provider_name envelope.model tokens r index)
      × (leb 400 r.status_code ≡ false)

  pub some_event : (a b : Event) → some a ≡ some b → b ≡ a
  some_event a b h = cc

  pub no_refused_event :
      (r : Response) (e : Event) → (copy_upstream_error server r).event ≡ some e → ⊥
  unfolding copy_upstream_error
  no_refused_event r e h =
      elim (Option-cases (read_bounded r.body server.config.server.max_response_bytes)) [
        | inl long ↦ absurd (cc (rw (long, copy_upstream_error) at h))
        | inr (body, short) ↦ absurd (cc (rw (short, copy_upstream_error) at h))
      ]

  stream_event :
      (envelope : ChatRequest) (c : Chosen) (e : Event)
      → leb 400 c.0.status_code ≡ false
      → (stream_answer codec unmarshal_usage server env request envelope c).event ≡ some e
      → FromCall envelope c e
  unfolding stream_answer FromCall
  stream_event envelope (r, client, index) e fine h =
      let (completed, relay) = stream_response_with_usage unmarshal_usage env.moments r.body in
      elim (Bool-cases (stream_response_with_usage unmarshal_usage env.moments r.body).0) [
        | inl ended ↦ (relay.stream_usage, some_event _ e (rw ended at h), fine)
        | inr cut ↦ absurd (cc (rw cut at h))
      ]

  body_event :
      (envelope : ChatRequest) (c : Chosen) (received : Option Bytes) (e : Event)
      → leb 400 c.0.status_code ≡ false
      → (body_answer codec unmarshal_usage server env request envelope c received).event ≡ some e
      → FromCall envelope c e
  unfolding body_answer FromCall relay_body
  body_event envelope (r, client, index) none e fine h = absurd (cc h)
  body_event envelope (r, client, index) (some body) e fine h =
      elim (Option-cases (validate_chat_response codec body)) [
        | inl valid ↦
            (parse_json unmarshal_usage body, some_event _ e (rw (valid, body_answer) at h), fine)
        | inr (p, wrong) ↦ absurd (cc (rw (wrong, body_answer) at h))
      ]

  chosen_event :
      (envelope : ChatRequest) (c : Chosen) (e : Event)
      → (chosen_answer codec unmarshal_usage server env request envelope c).event ≡ some e
      → FromCall envelope c e
  unfolding chosen_answer
  chosen_event envelope (r, client, index) e h = elim (Bool-cases (leb 400 r.status_code)) [
    | inl refused ↦ absurd (no_refused_event r e (rw refused at h))
    | inr fine ↦ elim (Bool-cases envelope.stream) [
      | inl stream ↦ stream_event envelope (r, client, index) e fine (rw (fine, stream) at h)
      | inr whole ↦ body_event envelope (r, client, index) _ e fine (rw (fine, whole) at h)
    ]
  ]

  -- Where an event comes from.
  pub record IsReported (h : Health) (e : Event) : Type 0 where
    pub body : Bytes
    pub envelope : ChatRequest
    pub clients : List ClientApi
    pub response : Response
    pub client : ClientApi
    pub index : ℕ
    pub read : IsRead request.body server.config.server.max_body_bytes body
    pub decoded : decode_chat_request codec body ≡ good envelope
    pub selected :
        clients_for server.providers
          (λ name. provider_available (env.available_at name) name h)
          server.routes
          server.config.model_list
          envelope.model
        ≡ some clients
    pub routed :
        (failover
          (asks codec unmarshal_usage server env request body envelope)
          env.now
          0
          clients
          h).0
        ≡ chosen response client index
    pub succeeded : leb 400 response.status_code ≡ false
    pub model : e.model ≡ envelope.model
    pub provider : e.provider ≡ client.provider_name
    pub attempts : e.attempt_count ≡ response.attempts
    pub fallback : e.fallback_used ≡ ltb 0 index

  routed_event :
      (h : Health) (body : Bytes) (envelope : ChatRequest) (clients : List ClientApi)
      (routed : Routed) (e : Event)
      → IsRead request.body server.config.server.max_body_bytes body
      → decode_chat_request codec body ≡ good envelope
      → clients_for server.providers
          (λ name. provider_available (env.available_at name) name h)
          server.routes
          server.config.model_list
          envelope.model
        ≡ some clients
      → (failover
          (asks codec unmarshal_usage server env request body envelope)
          env.now
          0
          clients
          h).0
        ≡ routed
      → (routed_answer codec unmarshal_usage server env request envelope routed).event ≡ some e
      → IsReported h e
  unfolding routed_answer FromCall usage_event
  routed_event h body envelope clients nothing e read d f r p = absurd (cc p)
  routed_event h body envelope clients (broken failure) e read d f r p = absurd (cc p)
  routed_event h body envelope clients (chosen response client index) e read d f r p =
      let (tokens, same, fine) = chosen_event envelope (response, client, index) e p in
      record {
        body = body;
        read = read;
        envelope = envelope;
        clients = clients;
        response = response;
        client = client;
        index = index;
        decoded = d;
        selected = f;
        routed = r;
        succeeded = fine;
        model = ap (λ (x : Event). x.model) same;
        provider = ap (λ (x : Event). x.provider) same;
        attempts = ap (λ (x : Event). x.attempt_count) same;
        fallback = ap (λ (x : Event). x.fallback_used) same;
      }

  selected_event :
      (h : Health) (body : Bytes) (envelope : ChatRequest) (found : Option (List ClientApi))
      (e : Event)
      → IsRead request.body server.config.server.max_body_bytes body
      → decode_chat_request codec body ≡ good envelope
      → clients_for server.providers
          (λ name. provider_available (env.available_at name) name h)
          server.routes
          server.config.model_list
          envelope.model
        ≡ found
      → (selected_answer codec unmarshal_usage server env request body envelope h found).event
        ≡ some e
      → IsReported h e
  unfolding selected_answer exchange_answer
  selected_event h body envelope none e read d f p = absurd (cc p)
  selected_event h body envelope (some clients) e read d f p = elim (Bool-cases env.admitted) [
    | inl admitted ↦
        let gate =
          ap
            (λ b.
              if b
              then exchange_answer codec unmarshal_usage server env request body envelope clients h
              else error_reply 408 request_canceled)
            admitted in
        routed_event h body envelope clients _ e read d f refl
          (ap (λ (r : Reply). r.event) (sym gate) ∙ p)
    | inr late ↦ absurd (cc (rw late at p))
  ]

  decoded_event :
      (h : Health) (body : Bytes) (decoded : Checked ChatRequest) (e : Event)
      → IsRead request.body server.config.server.max_body_bytes body
      → decode_chat_request codec body ≡ decoded
      → (decoded_answer codec unmarshal_usage server env request body h decoded).event ≡ some e
      → IsReported h e
  unfolding decoded_answer
  decoded_event h body (bad q) e read d p = absurd (cc p)
  decoded_event h body (good envelope) e read d p = selected_event h body envelope _ e read d refl p

  answer_event :
      (h : Health) (e : Event)
      → (chat_answer codec unmarshal_usage server env request h).event ≡ some e
      → IsReported h e
  unfolding chat_answer
  answer_event h e p =
      elim (Option-cases (read_limited_body request.body server.config.server.max_body_bytes)) [
        | inl long ↦ absurd (cc (rw (long, chat_answer) at p))
        | inr (body, short) ↦
            decoded_event h body _ e
              (read_limited_body-IsRead request.body server.config.server.max_body_bytes body short)
              refl (rw (short, chat_answer) at p)
      ]

  -- A chat reports a usage event only where the body that the client sent, whole and within the limit,
  -- decodes to a request that had clients, whose failover chose a response with a status below 400; the
  -- event names the decoded model, the chosen client and the
  -- attempts of its response, and a fallback where that client is not the first.
  pub chat-IsReported :
      (s : State) (e : Event)
      → (reply_of (chat codec unmarshal_usage server env request s)).event ≡ some e
      → IsReported s.health e
  chat-IsReported s e h = answer_event s.health e (
      ap (λ (r : Reply). r.event) (sym (reply_of-chat codec unmarshal_usage server env request s))
      ∙ h)
