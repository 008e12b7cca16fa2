-- ===== src/Router/Answers.antt =====
-- The replies of the chat handler, `chat`, as a function of the request and of the cooldowns.
pub mod Branches
pub mod Read
pub mod Events
pub mod Statuses
pub mod Embeddings
pub mod Attempts
use go_feather_route.Prelude.{
  ℕ, ◌≡◌, refl, sym, ap, ◌∙◌, inl, inr, Bool, true, false, not, Option, none, some, List, [], ◌∷◌,
  Bytes, codes, leb, Bool-cases, Option-cases, if◌then◌else◌,
}
use go_feather_route.Prelude.Int.{ℤ}
use go_feather_route.Prelude.Dict.{bytes_eq}
use go_feather_route.Wire.{header_get}
use go_feather_route.Contract.{Codec, ChatRequest, decode_chat_request, validate_chat_response}
use go_feather_route.Contract.Problems.{Checked, good, bad}
use go_feather_route.Provider.{ClientApi, Response, Outcome}
use go_feather_route.Usage.{parse_json}
use go_feather_route.Router.Health.{Health, provider_available}
use go_feather_route.Router.Selection.{clients_for}
use go_feather_route.Router.Failover.{Routed, nothing, broken, chosen, failover}
use go_feather_route.Router.Bodies.{read_bounded}
use go_feather_route.Router.Stream.{stream_response_with_usage}
use go_feather_route.Router.Server.{Server, State, Gauges}
use go_feather_route.Router.Handling.{
  body_unreadable, no_route, request_canceled, response_too_large, problem, upstream, raw, Reply,
  error_reply, Exit, stop, go, Handler, continue, check, map_state, on_gauges, bracket,
}
use go_feather_route.Router.Exchange.{
  Request, Env, Chosen, read_limited_body, read_body, select_clients, continue_selection, admit,
  after_failover, call_upstream, refuse_error, copy_upstream_error, read_response, usage_event,
  relay_body, count_retries, record_response,
}
use go_feather_route.Router.Chat.{
  stream_headers, relay_stream, validated, relay_response, chat_reply, chat_exchange, chat_body,
  chat, count_stream, enter_stream, leave_stream, take_slot, free_slot,
}

-- What a handler replies, however it ends.
abbrev pub reply_of : Exit Reply → Reply
reply_of (stop r s) = r
reply_of (go r s) = r

module _ (codec : Codec) (unmarshal_usage : Bytes → Option (ℤ × ℤ × ℤ)) (server : Server)
    (env : Env) (request : Request) where
  -- A stream: what the relay wrote, with an event if it completed.
  stream_answer : ChatRequest → Chosen → Reply
  stream_answer envelope (r, client, index) =
      let (completed, relay) = stream_response_with_usage unmarshal_usage env.moments r.body in
      record {
        status = r.status_code;
        header = stream_headers r.header;
        payload = raw relay.written;
        event =
            if completed
            then some (
                usage_event server env request client.provider_name envelope.model
                  relay.stream_usage r index)
            else none;
      }

  -- A whole body that is within the limit and a chat completion is relayed with an event.
  body_answer : ChatRequest → Chosen → Option Bytes → Reply
  body_answer envelope c none = error_reply 502 response_too_large
  body_answer envelope (r, client, index) (some body) = elim (validate_chat_response codec body) [
    | some p ↦ error_reply 502 (problem p)
    | none ↦ relay_body r body (
        usage_event server env request client.provider_name envelope.model
          (parse_json unmarshal_usage body) r index)
  ]

  -- The answer of the chosen response; from 400 on the upstream's error is relayed.
  chosen_answer : ChatRequest → Chosen → Reply
  unfolding stream_answer body_answer
  chosen_answer envelope (r, client, index) =
      if leb 400 r.status_code
      then copy_upstream_error server r
      else if envelope.stream
      then stream_answer envelope (r, client, index)
      else body_answer envelope (r, client, index)
          (read_bounded r.body server.config.server.max_response_bytes)

  routed_answer : ChatRequest → Routed → Reply
  unfolding chosen_answer
  routed_answer envelope nothing = error_reply 500 no_route
  routed_answer envelope (broken e) = error_reply 502 (upstream e)
  routed_answer envelope (chosen r client index) = chosen_answer envelope (r, client, index)

  -- The client's call of a failover.
  abbrev asks : Bytes → ChatRequest → ℕ → ClientApi → Outcome
  asks body envelope i c =
      c.chat i (header_get request.header (codes "X-Request-Id")) body envelope.stream

  -- The reply once the clients are selected.
  exchange_answer : Bytes → ChatRequest → List ClientApi → Health → Reply
  unfolding routed_answer
  exchange_answer body envelope clients h =
      routed_answer envelope (failover (asks body envelope) env.now 0 clients h).0

  -- The reply once the envelope is decoded: the selection, and the wait for a slot.
  selected_answer : Bytes → ChatRequest → Health → Option (List ClientApi) → Reply
  unfolding exchange_answer
  selected_answer body envelope h none = error_reply 400 no_route
  selected_answer body envelope h (some clients) =
      if env.admitted
      then exchange_answer body envelope clients h
      else error_reply 408 request_canceled

  decoded_answer : Bytes → Health → Checked ChatRequest → Reply
  unfolding selected_answer
  decoded_answer body h (bad p) = error_reply 400 (problem p)
  decoded_answer body h (good envelope) = selected_answer body envelope h (
      clients_for server.providers (λ name. provider_available (env.available_at name) name h)
        server.routes server.config.model_list envelope.model)

  -- The reply of the chat handler to a request, where the cooldowns are these.
  pub chat_answer : Health → Reply
  unfolding decoded_answer
  chat_answer h = elim (read_limited_body request.body server.config.server.max_body_bytes) [
    | none ↦ error_reply 413 body_unreadable
    | some body ↦ decoded_answer body h (decode_chat_request codec body)
  ]
