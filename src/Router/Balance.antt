-- ===== src/Router/Balance.antt =====
-- The gauges and the semaphores over `chat` and `embeddings`.
use go_feather_route.Prelude.{◌≡◌, refl, Bool, true, false, Option, List, Bytes}
use go_feather_route.Prelude.Int.{ℤ}
use go_feather_route.Contract.{
  Codec, ChatRequest, EmbeddingRequest, decode_chat_request, decode_embedding_request,
  validate_chat_response,
}
use go_feather_route.Provider.{ClientApi}
use go_feather_route.Router.Embeddings.{normalize_embedding_response}
use go_feather_route.Router.Server.{Server, State, Gauges}
use go_feather_route.Router.Exchange.{
  Request, Env, Chosen, record_response, count_retries, relay_body, usage_event,
}
use go_feather_route.Usage.{parse_json}
use go_feather_route.Router.Chat.{
  relay_stream, relay_response, chat_reply, chat_exchange, chat_body, chat, enter_stream,
  leave_stream, count_stream, take_slot, free_slot,
}
use go_feather_route.Router.EmbeddingsHandler.{
  embeddings_reply, embeddings_exchange, embeddings_body, embeddings,
}
use go_feather_route.Router.Keeps.{
  Keeps, exit_state, IsWord, Keeps-pure, Keeps-bind, Keeps-modify, Keeps-if, Keeps-elim,
  Keeps-check, Keeps-bracket,
}
use go_feather_route.Router.Keeps.Words.{
  active_chat_balance, active_embeddings_balance, active_streams_balance, semaphore_balance,
  embedding_semaphore_balance, stream_semaphore_balance,
}
use go_feather_route.Router.Keeps.Steps.{
  Keeps-read_body, Keeps-select_clients, Keeps-admit, Keeps-call_upstream, gauges-record_response,
  gauges-count_retries, Keeps-refuse_error, Keeps-read_response, gauges-count_first_byte,
  gauges-count_stream,
}

stream_balance :
    (stream : Bool) (g : Gauges)
    → IsWord g
    → IsWord (enter_stream stream g) × (leave_stream stream (enter_stream stream g) ≡ g)
stream_balance false g w = (w, refl)
stream_balance true g w = active_streams_balance g w

slot_balance :
    (stream : Bool) (g : Gauges)
    → IsWord g
    → IsWord (take_slot stream g) × (free_slot stream (take_slot stream g) ≡ g)
slot_balance true g w = stream_semaphore_balance g w
slot_balance false g w = semaphore_balance g w

module _ (codec : Codec) (unmarshal_usage : Bytes → Option (ℤ × ℤ × ℤ)) (server : Server)
    (env : Env) (request : Request) where
  Keeps-relay_stream :
      (envelope : ChatRequest) (c : Chosen)
      → Keeps (relay_stream codec unmarshal_usage server env request envelope c)
  unfolding relay_stream
  Keeps-relay_stream envelope c = record { at = λ s w. gauges-count_first_byte _ _ }

  Keeps-relay_response :
      (envelope : ChatRequest) (c : Chosen)
      → Keeps (relay_response codec unmarshal_usage server env request envelope c)
  unfolding relay_response
  Keeps-relay_response envelope (r, client, index) =
      Keeps-bind _ _ (Keeps-read_response server r) (λ body.
        Keeps-bind _ _
          (Keeps-elim (validate_chat_response codec body) _ _ (Keeps-pure tt)
            (λ p. record { at = λ s w. refl }))
          (λ _. Keeps-pure _))

  Keeps-chat_reply :
      (envelope : ChatRequest) (c : Chosen)
      → Keeps (chat_reply codec unmarshal_usage server env request envelope c)
  unfolding chat_reply
  Keeps-chat_reply envelope (r, client, index) =
      Keeps-bind _ _ (Keeps-modify (count_retries r) (gauges-count_retries r)) (λ _.
        Keeps-bind _ _ (Keeps-refuse_error server r) (λ _.
          Keeps-if envelope.stream _ _ (Keeps-relay_stream envelope (r, client, index))
            (Keeps-relay_response envelope (r, client, index))))

  Keeps-chat_exchange :
      (body : Bytes) (envelope : ChatRequest) (clients : List ClientApi)
      → Keeps (chat_exchange codec unmarshal_usage server env request body envelope clients)
  unfolding chat_exchange
  Keeps-chat_exchange body envelope clients =
      Keeps-bind _ _ (Keeps-call_upstream env _ clients) (λ (r, client, index).
        Keeps-bind _ _
          (Keeps-modify (record_response client.provider_name envelope.model r)
            (gauges-record_response client.provider_name envelope.model r))
          (λ _.
            Keeps-bind _ _
              (Keeps-modify (count_stream envelope.stream) (gauges-count_stream envelope.stream))
              (λ _.
                Keeps-bracket (enter_stream envelope.stream) (leave_stream envelope.stream) _
                  (stream_balance envelope.stream) (Keeps-chat_reply envelope (r, client, index)))))

  Keeps-chat_body : Keeps (chat_body codec unmarshal_usage server env request)
  unfolding chat_body
  Keeps-chat_body = Keeps-bind _ _ (Keeps-read_body server request) (λ body.
      Keeps-bind _ _ (Keeps-check 400 (decode_chat_request codec body)) (λ envelope.
        Keeps-bind _ _ (Keeps-select_clients server env envelope.model) (λ clients.
          Keeps-bind _ _ (Keeps-admit env) (λ _.
            Keeps-bracket (take_slot envelope.stream) (free_slot envelope.stream) _
              (slot_balance envelope.stream) (Keeps-chat_exchange body envelope clients)))))

  Keeps-chat : Keeps (chat codec unmarshal_usage server env request)
  unfolding chat
  Keeps-chat =
      Keeps-bracket _ _ (chat_body codec unmarshal_usage server env request) active_chat_balance
        Keeps-chat_body

  -- However the chat handler ends, every gauge and every semaphore is as it was before it: the
  -- request it counted as active, the slot that it took and the stream that it opened are given back.
  pub chat_balance :
      (s : State)
      → IsWord s.gauges
      → (exit_state (chat codec unmarshal_usage server env request s)).gauges ≡ s.gauges
  chat_balance s w = Keeps-chat.at s w

  Keeps-embeddings_reply :
      (body : Bytes) (envelope : EmbeddingRequest) (c : Chosen)
      → Keeps (embeddings_reply codec unmarshal_usage server env request body envelope c)
  unfolding embeddings_reply
  Keeps-embeddings_reply body envelope (r, client, index) =
      Keeps-bind _ _ (Keeps-modify (count_retries r) (gauges-count_retries r)) (λ _.
        Keeps-bind _ _ (Keeps-refuse_error server r) (λ _.
          Keeps-bind _ _ (Keeps-read_response server r) (λ received.
            Keeps-bind _ _ (Keeps-check 502 (normalize_embedding_response codec body received))
              (λ normalized. Keeps-pure (
                relay_body r normalized (
                  usage_event server env request client.provider_name envelope.model
                    (parse_json unmarshal_usage normalized) r index))))))

  Keeps-embeddings_exchange :
      (body : Bytes) (envelope : EmbeddingRequest) (clients : List ClientApi)
      → Keeps (embeddings_exchange codec unmarshal_usage server env request body envelope clients)
  unfolding embeddings_exchange
  Keeps-embeddings_exchange body envelope clients =
      Keeps-bind _ _ (Keeps-call_upstream env _ clients) (λ (r, client, index).
        Keeps-bind _ _
          (Keeps-modify (record_response client.provider_name envelope.model r)
            (gauges-record_response client.provider_name envelope.model r))
          (λ _. Keeps-embeddings_reply body envelope (r, client, index)))

  Keeps-embeddings_body : Keeps (embeddings_body codec unmarshal_usage server env request)
  unfolding embeddings_body
  Keeps-embeddings_body = Keeps-bind _ _ (Keeps-read_body server request) (λ body.
      Keeps-bind _ _ (Keeps-check 400 (decode_embedding_request codec body)) (λ envelope.
        Keeps-bind _ _ (Keeps-select_clients server env envelope.model) (λ clients.
          Keeps-bind _ _ (Keeps-admit env) (λ _.
            Keeps-bracket _ _ _ embedding_semaphore_balance
              (Keeps-embeddings_exchange body envelope clients)))))

  Keeps-embeddings : Keeps (embeddings codec unmarshal_usage server env request)
  unfolding embeddings
  Keeps-embeddings =
      Keeps-bracket _ _ (embeddings_body codec unmarshal_usage server env request)
        active_embeddings_balance Keeps-embeddings_body

  -- However the embeddings handler ends, every gauge and every semaphore is as it was before it.
  pub embeddings_balance :
      (s : State)
      → IsWord s.gauges
      → (exit_state (embeddings codec unmarshal_usage server env request s)).gauges ≡ s.gauges
  embeddings_balance s w = Keeps-embeddings.at s w
