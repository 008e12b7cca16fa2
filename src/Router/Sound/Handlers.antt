-- ===== src/Router/Sound/Handlers.antt =====
-- An invariant of the maps of metrics over `chat` and `embeddings`.
use go_feather_route.Prelude.{
  ℕ, ◌≡◌, refl, Bool, Option, inl, inr, List, Bytes, All, All-map, Option-cases,
}
use go_feather_route.Prelude.Int.{ℤ}
use go_feather_route.Contract.{
  Codec, ChatRequest, EmbeddingRequest, decode_chat_request, decode_embedding_request,
  validate_chat_response,
}
use go_feather_route.Provider.{ClientApi, Response, ok}
use go_feather_route.Usage.{parse_json}
use go_feather_route.Router.Embeddings.{normalize_embedding_response}
use go_feather_route.Router.Server.{Server, State}
use go_feather_route.Router.Exchange.{
  Request, Env, Chosen, record_response, count_retries, relay_body, usage_event,
}
use go_feather_route.Router.Chat.{
  validated, relay_stream, relay_response, chat_reply, chat_exchange, chat_body, chat, count_stream,
  enter_stream, leave_stream, take_slot, free_slot,
}
use go_feather_route.Router.EmbeddingsHandler.{
  embeddings_reply, embeddings_exchange, embeddings_body, embeddings,
}
use go_feather_route.Router.Honest.{AllValues}
use go_feather_route.Router.Sound.{
  Sound, Framed, Anything, Sound-pure, Sound-if, Sound-check, Sound-modify, Sound-bind,
  Sound-bracket,
}
use go_feather_route.Router.Sound.Steps.{
  Sound-read_body, Sound-admit, Sound-select_clients, OfChosen, Sound-call_upstream,
  Sound-refuse_error, Sound-read_response, count_first_byte_framed, count_stream_framed,
}

-- What a client's calls answer with.
pub record Answers (Q : Response → Type 0) (c : ClientApi) : Type 0 where
  pub of_chat :
      (index : ℕ) (request_id body : Bytes) (stream : Bool) (r : Response)
      → c.chat index request_id body stream ≡ ok r
      → Q r
  pub of_embedding :
      (index : ℕ) (request_id body : Bytes) (r : Response)
      → c.embedding index request_id body ≡ ok r
      → Q r

-- A property of the maps of metrics, and of responses, that the two writes to the maps keep.
pub record IsKept (I : State → Type 0) (Q : Response → Type 0) : Type 0 where
  pub frame : Framed I
  pub retries : (r : Response) (s : State) → Q r → I s → I (count_retries r s)
  pub routes :
      (name model : Bytes) (r : Response) (s : State) → I s → I (record_response name model r s)

module _ (I : State → Type 0) (Q : Response → Type 0) (kept : IsKept I Q) (codec : Codec)
    (unmarshal_usage : Bytes → Option (ℤ × ℤ × ℤ)) (server : Server)
    (honest : AllValues (Answers Q) server.providers) (env : Env) (request : Request) where
  Sound-relay_stream :
      (envelope : ChatRequest) (c : Chosen)
      → Sound I Anything (relay_stream codec unmarshal_usage server env request envelope c)
  unfolding relay_stream
  Sound-relay_stream envelope c = record {
    at = λ s i. (
      kept.frame _ _ refl refl
          (count_first_byte_framed I kept.frame _ _ (kept.frame s _ refl refl i)),
      tt,
    );
  }

  Sound-validated :
      (body : Bytes) → Sound I Anything (validated codec unmarshal_usage server env request body)
  unfolding validated
  Sound-validated body = elim (Option-cases (validate_chat_response codec body)) [
    | inl valid ↦ rw (valid, validated) (Sound-pure I Anything tt tt)
    | inr (p, wrong) ↦ rw (wrong, validated) (record { at = λ s i. i })
  ]

  Sound-relay_response :
      (envelope : ChatRequest) (c : Chosen)
      → Sound I Anything (relay_response codec unmarshal_usage server env request envelope c)
  unfolding relay_response
  Sound-relay_response envelope (r, client, index) =
      Sound-bind I Anything Anything _ _ (Sound-read_response I kept.frame server r) (λ body _.
        Sound-bind I Anything Anything _ _ (Sound-validated body) (λ _ _.
          Sound-pure I Anything
            (relay_body r body (
              usage_event server env request client.provider_name envelope.model
                (parse_json unmarshal_usage body) r index))
            tt))

  Sound-chat_reply :
      (envelope : ChatRequest) (c : Chosen)
      → OfChosen I kept.frame Q c
      → Sound I Anything (chat_reply codec unmarshal_usage server env request envelope c)
  unfolding chat_reply
  Sound-chat_reply envelope (r, client, index) q =
      Sound-bind I Anything Anything _ _
        (Sound-modify I (count_retries r) (λ s. kept.retries r s q))
        (λ _ _.
          Sound-bind I Anything Anything _ _ (Sound-refuse_error I kept.frame server r) (λ _ _.
            Sound-if I Anything envelope.stream _ _ (Sound-relay_stream envelope (r, client, index))
              (Sound-relay_response envelope (r, client, index))))

  Sound-chat_exchange :
      (body : Bytes) (envelope : ChatRequest) (clients : List ClientApi)
      → All (Answers Q) clients
      → Sound I Anything
          (chat_exchange codec unmarshal_usage server env request body envelope clients)
  unfolding chat_exchange
  Sound-chat_exchange body envelope clients h =
      Sound-bind I (OfChosen I kept.frame Q) Anything _ _
        (Sound-call_upstream I kept.frame Q env _ clients
          (All-map clients (λ c a i r. a.of_chat i _ body envelope.stream r) h))
        (λ (r, client, index) q.
          Sound-bind I Anything Anything _ _
            (Sound-modify I (record_response client.provider_name envelope.model r)
              (kept.routes client.provider_name envelope.model r))
            (λ _ _.
              Sound-bind I Anything Anything _ _
                (Sound-modify I (count_stream envelope.stream)
                  (count_stream_framed I kept.frame envelope.stream))
                (λ _ _.
                  Sound-bracket I Anything kept.frame (enter_stream envelope.stream)
                    (leave_stream envelope.stream) _
                    (Sound-chat_reply envelope (r, client, index) q))))

  Sound-chat_body : Sound I Anything (chat_body codec unmarshal_usage server env request)
  unfolding chat_body
  Sound-chat_body =
      Sound-bind I Anything Anything _ _ (Sound-read_body I kept.frame server request) (λ body _.
        Sound-bind I Anything Anything _ _ (Sound-check I 400 (decode_chat_request codec body))
          (λ envelope _.
            Sound-bind I (All (Answers Q)) Anything _ _
              (Sound-select_clients I kept.frame (Answers Q) server env envelope.model honest)
              (λ clients h.
                Sound-bind I Anything Anything _ _ (Sound-admit I kept.frame env) (λ _ _.
                  Sound-bracket I Anything kept.frame (take_slot envelope.stream)
                    (free_slot envelope.stream) _ (Sound-chat_exchange body envelope clients h)))))

  pub Sound-chat : Sound I Anything (chat codec unmarshal_usage server env request)
  unfolding chat
  Sound-chat = Sound-bracket I Anything kept.frame _ _ _ Sound-chat_body

  Sound-embeddings_reply :
      (body : Bytes) (envelope : EmbeddingRequest) (c : Chosen)
      → OfChosen I kept.frame Q c
      → Sound I Anything (embeddings_reply codec unmarshal_usage server env request body envelope c)
  unfolding embeddings_reply
  Sound-embeddings_reply body envelope (r, client, index) q =
      Sound-bind I Anything Anything _ _
        (Sound-modify I (count_retries r) (λ s. kept.retries r s q))
        (λ _ _.
          Sound-bind I Anything Anything _ _ (Sound-refuse_error I kept.frame server r) (λ _ _.
            Sound-bind I Anything Anything _ _ (Sound-read_response I kept.frame server r)
              (λ received _.
                Sound-bind I Anything Anything _ _
                  (Sound-check I 502 (normalize_embedding_response codec body received))
                  (λ normalized _.
                    Sound-pure I Anything
                      (relay_body r normalized (
                        usage_event server env request client.provider_name envelope.model
                          (parse_json unmarshal_usage normalized) r index))
                      tt))))

  Sound-embeddings_exchange :
      (body : Bytes) (envelope : EmbeddingRequest) (clients : List ClientApi)
      → All (Answers Q) clients
      → Sound I Anything
          (embeddings_exchange codec unmarshal_usage server env request body envelope clients)
  unfolding embeddings_exchange
  Sound-embeddings_exchange body envelope clients h =
      Sound-bind I (OfChosen I kept.frame Q) Anything _ _
        (Sound-call_upstream I kept.frame Q env _ clients
          (All-map clients (λ c a i r. a.of_embedding i _ body r) h))
        (λ (r, client, index) q.
          Sound-bind I Anything Anything _ _
            (Sound-modify I (record_response client.provider_name envelope.model r)
              (kept.routes client.provider_name envelope.model r))
            (λ _ _. Sound-embeddings_reply body envelope (r, client, index) q))

  Sound-embeddings_body :
      Sound I Anything (embeddings_body codec unmarshal_usage server env request)
  unfolding embeddings_body
  Sound-embeddings_body =
      Sound-bind I Anything Anything _ _ (Sound-read_body I kept.frame server request) (λ body _.
        Sound-bind I Anything Anything _ _ (Sound-check I 400 (decode_embedding_request codec body))
          (λ envelope _.
            Sound-bind I (All (Answers Q)) Anything _ _
              (Sound-select_clients I kept.frame (Answers Q) server env envelope.model honest)
              (λ clients h.
                Sound-bind I Anything Anything _ _ (Sound-admit I kept.frame env) (λ _ _.
                  Sound-bracket I Anything kept.frame _ _ _
                    (Sound-embeddings_exchange body envelope clients h)))))

  pub Sound-embeddings : Sound I Anything (embeddings codec unmarshal_usage server env request)
  unfolding embeddings
  Sound-embeddings = Sound-bracket I Anything kept.frame _ _ _ Sound-embeddings_body
