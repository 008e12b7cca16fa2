-- ===== src/Router/Answers/Embeddings.antt =====
-- The replies of the embeddings handler, `embeddings`, as a function of the request and of the
-- cooldowns, and the handler against it.
pub mod Statuses
pub mod Independent
pub mod Relayed
pub mod Events
use go_feather_route.Prelude.{
  ℕ, ◌≡◌, refl, ◌∙◌, inl, inr, Bool, true, false, Option, none, some, List, Bytes, codes, leb,
  Bool-cases, Option-cases, if◌then◌else◌,
}
use go_feather_route.Prelude.Int.{ℤ}
use go_feather_route.Prelude.Dict.{bytes_eq}
use go_feather_route.Wire.{header_get}
use go_feather_route.Contract.{Codec, EmbeddingRequest, decode_embedding_request}
use go_feather_route.Contract.Problems.{Checked, good, bad}
use go_feather_route.Provider.{ClientApi, Response, Outcome}
use go_feather_route.Usage.{parse_json}
use go_feather_route.Router.Health.{Health, provider_available}
use go_feather_route.Router.Selection.{clients_for}
use go_feather_route.Router.Failover.{Routed, nothing, broken, chosen, failover}
use go_feather_route.Router.Bodies.{read_bounded}
use go_feather_route.Router.Embeddings.{normalize_embedding_response}
use go_feather_route.Router.Server.{Server, State, Gauges}
use go_feather_route.Router.Handling.{
  body_unreadable, no_route, request_canceled, response_too_large, problem, upstream, Reply,
  error_reply, Exit, stop, go, Handler, continue, check, bracket,
}
use go_feather_route.Router.Exchange.{
  Request, Env, Chosen, read_limited_body, read_body, select_clients, continue_selection, admit,
  after_failover, call_upstream, refuse_error, copy_upstream_error, read_response, usage_event,
  relay_body, count_retries, record_response,
}
use go_feather_route.Router.EmbeddingsHandler.{
  embeddings_reply, embeddings_exchange, embeddings_body, embeddings,
}
use go_feather_route.Router.Answers.{reply_of}
use go_feather_route.Router.Answers.Branches.{reply_of-bracket}

module _ (codec : Codec) (unmarshal_usage : Bytes → Option (ℤ × ℤ × ℤ)) (server : Server)
    (env : Env) (request : Request) where
  -- Vectors that answer the inputs are relayed in order, with an event.
  normalized_answer : EmbeddingRequest → Chosen → Checked Bytes → Reply
  normalized_answer envelope c (bad p) = error_reply 502 (problem p)
  normalized_answer envelope (r, client, index) (good body) = relay_body r body (
      usage_event server env request client.provider_name envelope.model
        (parse_json unmarshal_usage body) r index)

  received_answer : Bytes → EmbeddingRequest → Chosen → Option Bytes → Reply
  unfolding normalized_answer
  received_answer asked envelope c none = error_reply 502 response_too_large
  received_answer asked envelope c (some body) =
      normalized_answer envelope c (normalize_embedding_response codec asked body)

  pub vectors_answer : Bytes → EmbeddingRequest → Chosen → Reply
  unfolding received_answer
  vectors_answer asked envelope (r, client, index) =
      if leb 400 r.status_code
      then copy_upstream_error server r
      else received_answer asked envelope (r, client, index)
          (read_bounded r.body server.config.server.max_response_bytes)

  embedded_answer : Bytes → EmbeddingRequest → Routed → Reply
  unfolding vectors_answer
  embedded_answer asked envelope nothing = error_reply 500 no_route
  embedded_answer asked envelope (broken e) = error_reply 502 (upstream e)
  embedded_answer asked envelope (chosen r client index) =
      vectors_answer asked envelope (r, client, index)

  abbrev embeds : Bytes → ℕ → ClientApi → Outcome
  embeds asked i c = c.embedding i (header_get request.header (codes "X-Request-Id")) asked

  clients_answer : Bytes → EmbeddingRequest → Health → Option (List ClientApi) → Reply
  unfolding embedded_answer
  clients_answer asked envelope h none = error_reply 400 no_route
  clients_answer asked envelope h (some clients) =
      if env.admitted
      then embedded_answer asked envelope (failover (embeds asked) env.now 0 clients h).0
      else error_reply 408 request_canceled

  envelope_answer : Bytes → Health → Checked EmbeddingRequest → Reply
  unfolding clients_answer
  envelope_answer asked h (bad p) = error_reply 400 (problem p)
  envelope_answer asked h (good envelope) = clients_answer asked envelope h (
      clients_for server.providers (λ name. provider_available (env.available_at name) name h)
        server.routes server.config.model_list envelope.model)

  -- The reply of the embeddings handler to a request, where the cooldowns are these.
  pub embeddings_answer : Health → Reply
  unfolding envelope_answer
  embeddings_answer h = elim (read_limited_body request.body server.config.server.max_body_bytes) [
    | none ↦ error_reply 413 body_unreadable
    | some asked ↦ envelope_answer asked h (decode_embedding_request codec asked)
  ]

  embeddings_reply_lem :
      (asked : Bytes) (envelope : EmbeddingRequest) (c : Chosen) (s : State)
      → reply_of (embeddings_reply codec unmarshal_usage server env request asked envelope c s)
        ≡ vectors_answer asked envelope c
  unfolding embeddings_reply refuse_error read_response vectors_answer
  embeddings_reply_lem asked envelope (r, client, index) s =
      elim (Bool-cases (leb 400 r.status_code)) [
        | inl refused ↦ rw refused refl
        | inr fine ↦
            elim (Option-cases (read_bounded r.body server.config.server.max_response_bytes)) [
              | inl long ↦ rw fine (rw (long, read_response, received_answer) refl)
              | inr (body, short) ↦ rw fine (
                  rw (short, read_response, received_answer)
                    (normalized_lem (normalize_embedding_response codec asked body)
                      (count_retries r s)))
            ]
      ]
    where
      normalized_lem :
          (n : Checked Bytes) (t : State)
          → reply_of (
              continue (check 502 n t) (λ body u.
                go
                  (relay_body r body (
                    usage_event server env request client.provider_name envelope.model
                      (parse_json unmarshal_usage body)
                      r
                      index))
                  u))
            ≡ normalized_answer envelope (r, client, index) n
      normalized_lem (bad p) t = refl
      normalized_lem (good body) t = refl

  after_embedding :
      (asked : Bytes) (envelope : EmbeddingRequest) (routed : Routed) (s : State)
      → reply_of (
          continue (after_failover routed s) (λ (r, client, index) t.
            embeddings_reply codec unmarshal_usage server env request asked envelope
              (r, client, index)
              (record_response client.provider_name envelope.model r t)))
        ≡ embedded_answer asked envelope routed
  unfolding after_failover embedded_answer
  after_embedding asked envelope nothing s = refl
  after_embedding asked envelope (broken e) s = refl
  after_embedding asked envelope (chosen r client index) s =
      embeddings_reply_lem asked envelope (r, client, index) _

  embeddings_exchange_lem :
      (asked : Bytes) (envelope : EmbeddingRequest) (clients : List ClientApi) (s : State)
      → reply_of
          (embeddings_exchange codec unmarshal_usage server env request asked envelope clients s)
        ≡ embedded_answer asked envelope (failover (embeds asked) env.now 0 clients s.health).0
  unfolding embeddings_exchange call_upstream
  embeddings_exchange_lem asked envelope clients s = after_embedding asked envelope _ _

  module _ (enter leave : Gauges → Gauges) where
    clients_lem :
        (asked : Bytes) (envelope : EmbeddingRequest) (found : Option (List ClientApi)) (s : State)
        → reply_of (
            continue (continue_selection found s) (λ clients t. continue (admit env t) (λ _ u.
              bracket enter leave
                (embeddings_exchange codec unmarshal_usage server env request asked envelope
                  clients)
                u)))
          ≡ clients_answer asked envelope s.health found
    unfolding admit clients_answer embeddings_exchange usage_event call_upstream
    clients_lem asked envelope none s = refl
    clients_lem asked envelope (some clients) s = elim (Bool-cases env.admitted) [
      | inr late ↦ rw late refl
      | inl admitted ↦ rw admitted (
          reply_of-bracket enter leave
            (embeddings_exchange codec unmarshal_usage server env request asked envelope clients) s
          ∙ embeddings_exchange_lem asked envelope clients _)
    ]

    envelope_lem :
        (asked : Bytes) (decoded : Checked EmbeddingRequest) (s : State)
        → reply_of (
            continue (check 400 decoded s) (λ envelope t.
              continue (select_clients server env envelope.model t) (λ clients u.
                continue (admit env u) (λ _ v.
                  bracket enter leave
                    (embeddings_exchange codec unmarshal_usage server env request asked envelope
                      clients)
                    v))))
          ≡ envelope_answer asked s.health decoded
    unfolding select_clients envelope_answer
    envelope_lem asked (bad p) s = refl
    envelope_lem asked (good envelope) s = clients_lem asked envelope _ _

  embeddings_body_lem :
      (s : State)
      → reply_of (embeddings_body codec unmarshal_usage server env request s)
        ≡ embeddings_answer s.health
  unfolding embeddings_body read_body embeddings_answer
  embeddings_body_lem s =
      elim (Option-cases (read_limited_body request.body server.config.server.max_body_bytes)) [
        | inl e ↦ rw (e, read_body, embeddings_answer) refl
        | inr (asked, e) ↦
            rw (e, read_body, embeddings_answer)
              (envelope_lem _ _ asked (decode_embedding_request codec asked) s)
      ]

  -- On every branch the embeddings handler replies what `embeddings_answer` says of the request: the
  -- gauges, the counters, the histograms and the maps of metrics have no influence on a reply.
  pub reply_of-embeddings :
      (s : State)
      → reply_of (embeddings codec unmarshal_usage server env request s)
        ≡ embeddings_answer s.health
  unfolding embeddings
  reply_of-embeddings s =
      reply_of-bracket _ _ (embeddings_body codec unmarshal_usage server env request) s
      ∙ embeddings_body_lem _
