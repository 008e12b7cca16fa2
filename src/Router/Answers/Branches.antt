-- ===== src/Router/Answers/Branches.antt =====
-- Every branch of the chat handler, `chat`, against its reply.
use go_feather_route.Prelude.{
  ◌≡◌, refl, ◌∙◌, inl, inr, Option, none, some, List, Bytes, leb, Bool-cases, Option-cases,
}
use go_feather_route.Prelude.Int.{ℤ}
use go_feather_route.Prelude.Dict.{bytes_eq}
use go_feather_route.Contract.{Codec, ChatRequest, decode_chat_request, validate_chat_response}
use go_feather_route.Contract.Problems.{Checked, good, bad}
use go_feather_route.Provider.{ClientApi}
use go_feather_route.Router.Failover.{Routed, nothing, broken, chosen}
use go_feather_route.Router.Bodies.{read_bounded}
use go_feather_route.Router.Server.{Server, State, Gauges}
use go_feather_route.Router.Handling.{
  Reply, Exit, stop, go, Handler, continue, check, map_state, on_gauges, bracket,
}
use go_feather_route.Router.Exchange.{
  Request, Env, Chosen, read_limited_body, read_body, select_clients, continue_selection, admit,
  after_failover, call_upstream, refuse_error, read_response, usage_event, count_retries,
  record_response,
}
use go_feather_route.Router.Chat.{
  relay_stream, validated, relay_response, chat_reply, chat_exchange, chat_body, chat, count_stream,
  enter_stream, leave_stream, take_slot, free_slot,
}
use go_feather_route.Router.Answers.{
  reply_of, stream_answer, body_answer, chosen_answer, routed_answer, exchange_answer,
  selected_answer, decoded_answer, chat_answer,
}

reply_of-map_state : (f : State → State) (e : Exit Reply) → reply_of (map_state f e) ≡ reply_of e
reply_of-map_state f (stop r s) = refl
reply_of-map_state f (go r s) = refl

pub reply_of-bracket :
    (enter leave : Gauges → Gauges) (m : Handler Reply) (s : State)
    → reply_of (bracket enter leave m s) ≡ reply_of (m (on_gauges enter s))
unfolding bracket
reply_of-bracket enter leave m s = reply_of-map_state (on_gauges leave) (m (on_gauges enter s))

module _ (codec : Codec) (unmarshal_usage : Bytes → Option (ℤ × ℤ × ℤ)) (server : Server)
    (env : Env) (request : Request) where
  relay_response_lem :
      (envelope : ChatRequest) (c : Chosen) (s : State)
      → reply_of (relay_response codec unmarshal_usage server env request envelope c s)
        ≡ body_answer codec unmarshal_usage server env request envelope c
            (read_bounded c.0.body server.config.server.max_response_bytes)
  unfolding relay_response validated read_response body_answer
  relay_response_lem envelope (r, client, index) s =
      elim (Option-cases (read_bounded r.body server.config.server.max_response_bytes)) [
        | inl e ↦ rw (e, read_response) refl
        | inr (body, e) ↦ elim (Option-cases (validate_chat_response codec body)) [
          | inl fine ↦ rw (e, read_response) (rw (fine, validated, body_answer) refl)
          | inr (p, wrong) ↦ rw (e, read_response) (rw (wrong, validated, body_answer) refl)
        ]
      ]

  relay_stream_lem :
      (envelope : ChatRequest) (c : Chosen) (s : State)
      → reply_of (relay_stream codec unmarshal_usage server env request envelope c s)
        ≡ stream_answer codec unmarshal_usage server env request envelope c
  unfolding relay_stream stream_answer
  relay_stream_lem envelope (r, client, index) s = refl

  chat_reply_lem :
      (envelope : ChatRequest) (c : Chosen) (s : State)
      → reply_of (chat_reply codec unmarshal_usage server env request envelope c s)
        ≡ chosen_answer codec unmarshal_usage server env request envelope c
  unfolding chat_reply refuse_error chosen_answer
  chat_reply_lem envelope (r, client, index) s = elim (Bool-cases (leb 400 r.status_code)) [
    | inl refused ↦ rw refused refl
    | inr fine ↦ elim (Bool-cases envelope.stream) [
      | inl stream ↦
          rw fine (rw stream (relay_stream_lem envelope (r, client, index) (count_retries r s)))
      | inr whole ↦
          rw fine (rw whole (relay_response_lem envelope (r, client, index) (count_retries r s)))
    ]
  ]

  after_failover_lem :
      (envelope : ChatRequest) (routed : Routed) (s : State)
      → reply_of (
          continue (after_failover routed s) (λ (r, client, index) t.
            bracket
              (enter_stream envelope.stream)
              (leave_stream envelope.stream)
              (chat_reply codec unmarshal_usage server env request envelope (r, client, index))
              (count_stream envelope.stream
                (record_response client.provider_name envelope.model r t))))
        ≡ routed_answer codec unmarshal_usage server env request envelope routed
  unfolding after_failover routed_answer
  after_failover_lem envelope nothing s = refl
  after_failover_lem envelope (broken e) s = refl
  after_failover_lem envelope (chosen r client index) s =
      reply_of-bracket (enter_stream envelope.stream) (leave_stream envelope.stream) _ _
      ∙ chat_reply_lem envelope (r, client, index) _

  chat_exchange_lem :
      (body : Bytes) (envelope : ChatRequest) (clients : List ClientApi) (s : State)
      → reply_of (chat_exchange codec unmarshal_usage server env request body envelope clients s)
        ≡ exchange_answer codec unmarshal_usage server env request body envelope clients s.health
  unfolding chat_exchange call_upstream exchange_answer
  chat_exchange_lem body envelope clients s = after_failover_lem envelope _ _

  selected_lem :
      (body : Bytes) (envelope : ChatRequest) (found : Option (List ClientApi)) (s : State)
      → reply_of (
          continue (continue_selection found s) (λ clients t. continue (admit env t) (λ _ u.
            bracket
              (take_slot envelope.stream)
              (free_slot envelope.stream)
              (chat_exchange codec unmarshal_usage server env request body envelope clients)
              u)))
        ≡ selected_answer codec unmarshal_usage server env request body envelope s.health found
  unfolding admit selected_answer chat_exchange usage_event call_upstream
  selected_lem body envelope none s = refl
  selected_lem body envelope (some clients) s = elim (Bool-cases env.admitted) [
    | inr late ↦ rw late refl
    | inl admitted ↦ rw admitted (
        reply_of-bracket (take_slot envelope.stream) (free_slot envelope.stream)
          (chat_exchange codec unmarshal_usage server env request body envelope clients) s
        ∙ chat_exchange_lem body envelope clients _)
  ]

  decoded_lem :
      (body : Bytes) (decoded : Checked ChatRequest) (s : State)
      → reply_of (
          continue (check 400 decoded s) (λ envelope t.
            continue (select_clients server env envelope.model t) (λ clients u.
              continue (admit env u) (λ _ v.
                bracket
                  (take_slot envelope.stream)
                  (free_slot envelope.stream)
                  (chat_exchange codec unmarshal_usage server env request body envelope clients)
                  v))))
        ≡ decoded_answer codec unmarshal_usage server env request body s.health decoded
  unfolding select_clients decoded_answer
  decoded_lem body (bad p) s = refl
  decoded_lem body (good envelope) s = selected_lem body envelope _ _

  chat_body_lem :
      (s : State)
      → reply_of (chat_body codec unmarshal_usage server env request s)
        ≡ chat_answer codec unmarshal_usage server env request s.health
  unfolding chat_body read_body chat_answer
  chat_body_lem s =
      elim (Option-cases (read_limited_body request.body server.config.server.max_body_bytes)) [
        | inl e ↦ rw (e, read_body, chat_answer) refl
        | inr (body, e) ↦
            rw (e, read_body, chat_answer) (decoded_lem body (decode_chat_request codec body) s)
      ]

  -- On every branch the chat handler replies what `chat_answer` says of the request: the gauges, the
  -- counters, the histograms and the maps of metrics have no influence on a reply.
  pub reply_of-chat :
      (s : State)
      → reply_of (chat codec unmarshal_usage server env request s)
        ≡ chat_answer codec unmarshal_usage server env request s.health
  unfolding chat
  reply_of-chat s =
      reply_of-bracket _ _ (chat_body codec unmarshal_usage server env request) s ∙ chat_body_lem _
