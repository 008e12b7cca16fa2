-- ===== src/Router/Answers/Embeddings/Relayed.antt =====
-- The answers of the embeddings handler that a usage event goes with.
use go_feather_route.Prelude.{
  ℕ, ◌≡◌, refl, sym, ap, inl, inr, false, Option, none, some, Bytes, leb, Bool-cases,
}
use go_feather_route.Prelude.Int.{ℤ}
use go_feather_route.Prelude.Dict.{bytes_eq}
use go_feather_route.Contract.{Codec, EmbeddingRequest}
use go_feather_route.Contract.Problems.{Checked, good, bad}
use go_feather_route.Provider.{ClientApi, Response}
use go_feather_route.Usage.{Event, parse_json}
use go_feather_route.Router.Bodies.{read_bounded}
use go_feather_route.Router.Embeddings.{normalize_embedding_response}
use go_feather_route.Router.Server.{Server}
use go_feather_route.Router.Handling.{Reply}
use go_feather_route.Router.Exchange.{Request, Env, usage_event, relay_body}
use go_feather_route.Router.Answers.Events.{some_event, no_refused_event}
use go_feather_route.Router.Answers.Embeddings.{normalized_answer, received_answer, vectors_answer}

module _ (codec : Codec) (unmarshal_usage : Bytes → Option (ℤ × ℤ × ℤ)) (server : Server)
    (env : Env) (request : Request) where
  -- The answer to a request, out of a response with a status below 400: its body within the limit,
  -- normalized, and an event of its tokens.
  pub record IsRelayed (asked : Bytes) (envelope : EmbeddingRequest) (response : Response)
      (client : ClientApi) (index : ℕ) (reply : Reply) (e : Event) : Type 0 where
    pub received : Bytes
    pub body : Bytes
    pub succeeded : leb 400 response.status_code ≡ false
    pub whole : read_bounded response.body server.config.server.max_response_bytes ≡ some received
    pub normalized : normalize_embedding_response codec asked received ≡ good body
    pub event_eq :
        e
        ≡ usage_event server env request client.provider_name envelope.model
            (parse_json unmarshal_usage body)
            response
            index
    pub reply_eq : reply ≡ relay_body response body e

  module _ (asked : Bytes) (envelope : EmbeddingRequest) (response : Response) (client : ClientApi)
      (index : ℕ) (e : Event) (succeeded : leb 400 response.status_code ≡ false) where
    normalized_event :
        (received : Bytes) (n : Checked Bytes)
        → read_bounded response.body server.config.server.max_response_bytes ≡ some received
        → normalize_embedding_response codec asked received ≡ n
        → (normalized_answer codec unmarshal_usage server env request envelope
            (response, client, index)
            n).event
          ≡ some e
        → IsRelayed asked envelope response client index
            (normalized_answer codec unmarshal_usage server env request envelope
              (response, client, index)
              n)
            e
    unfolding normalized_answer relay_body
    normalized_event received (bad p) whole normalized h = absurd (cc h)
    normalized_event received (good body) whole normalized h =
        let same = some_event codec unmarshal_usage server env request _ e h in
        record {
          received = received;
          body = body;
          succeeded = succeeded;
          whole = whole;
          normalized = normalized;
          event_eq = same;
          reply_eq = ap (relay_body response body) (sym same);
        }

    received_event :
        (o : Option Bytes)
        → read_bounded response.body server.config.server.max_response_bytes ≡ o
        → (received_answer codec unmarshal_usage server env request asked envelope
            (response, client, index)
            o).event
          ≡ some e
        → IsRelayed asked envelope response client index
            (received_answer codec unmarshal_usage server env request asked envelope
              (response, client, index)
              o)
            e
    unfolding received_answer
    received_event none whole h = absurd (cc h)
    received_event (some received) whole h = normalized_event received _ whole refl h

  pub vectors_event :
      (asked : Bytes) (envelope : EmbeddingRequest) (response : Response) (client : ClientApi)
      (index : ℕ) (e : Event)
      → (vectors_answer codec unmarshal_usage server env request asked envelope
          (response, client, index)).event
        ≡ some e
      → IsRelayed asked envelope response client index
          (vectors_answer codec unmarshal_usage server env request asked envelope
            (response, client, index))
          e
  unfolding vectors_answer
  vectors_event asked envelope response client index e h =
      elim (Bool-cases (leb 400 response.status_code)) [
        | inl refused ↦
            absurd (
              no_refused_event codec unmarshal_usage server env request response e
                (rw refused at h))
        | inr fine ↦
            rw fine
              (received_event asked envelope response client index e fine _ refl (rw fine at h))
      ]
