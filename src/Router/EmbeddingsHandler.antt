-- ===== src/Router/EmbeddingsHandler.antt =====
-- The embeddings handler.
use go_feather_route.Prelude.{Option, List, Bytes, codes}
use go_feather_route.Prelude.Int.{ℤ, add64, minus_one}
use go_feather_route.Wire.{header_get}
use go_feather_route.Contract.{Codec, EmbeddingRequest, decode_embedding_request}
use go_feather_route.Provider.{ClientApi}
use go_feather_route.Usage.{parse_json}
use go_feather_route.Router.Embeddings.{normalize_embedding_response}
use go_feather_route.Router.Server.{Server}
use go_feather_route.Router.Handling.{Reply, Handler, ◌>>=◌, ◌>>◌, pure, modify, check, bracket}
use go_feather_route.Router.Exchange.{
  Request, Env, Chosen, read_body, select_clients, admit, call_upstream, record_response,
  count_retries, refuse_error, read_response, usage_event, relay_body,
}

module _ (codec : Codec) (unmarshal_usage : Bytes → Option (ℤ × ℤ × ℤ)) (server : Server)
    (env : Env) (request : Request) where
  -- From the chosen response to the reply.
  unfoldable pub embeddings_reply : Bytes → EmbeddingRequest → Chosen → Handler Reply
  embeddings_reply body envelope (r, client, index) = do
    modify (count_retries r)
    refuse_error server r
    received ← read_response server r
    normalized ← check 502 (normalize_embedding_response codec body received)
    pure (
        relay_body r normalized (
          usage_event server env request client.provider_name envelope.model
            (parse_json unmarshal_usage normalized) r index))

  -- The part that holds a slot.
  unfoldable pub embeddings_exchange : Bytes → EmbeddingRequest → List ClientApi → Handler Reply
  unfolding embeddings_reply
  embeddings_exchange body envelope clients = do
    (r, client, index) ←
        call_upstream env
          (λ i c. c.embedding i (header_get request.header (codes "X-Request-Id")) body) clients
    modify (record_response client.provider_name envelope.model r)
    embeddings_reply body envelope (r, client, index)

  unfoldable pub embeddings_body : Handler Reply
  unfolding embeddings_exchange
  embeddings_body = do
    body ← read_body server request
    envelope ← check 400 (decode_embedding_request codec body)
    clients ← select_clients server env envelope.model
    admit env
    bracket (λ g. record g { embedding_semaphore = add64 g.embedding_semaphore 1 })
        (λ g. record g { embedding_semaphore = add64 g.embedding_semaphore minus_one })
        (embeddings_exchange body envelope clients)

  unfoldable pub embeddings : Handler Reply
  unfolding embeddings_body
  embeddings =
      bracket (λ g. record g { active_embeddings = add64 g.active_embeddings 1 })
        (λ g. record g { active_embeddings = add64 g.active_embeddings minus_one }) embeddings_body
