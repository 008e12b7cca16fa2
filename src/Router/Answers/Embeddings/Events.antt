-- ===== src/Router/Answers/Embeddings/Events.antt =====
-- The usage events of the embeddings handler.
use go_feather_route.Prelude.{
  ℕ, ◌≡◌, refl, sym, ap, subst, ◌∙◌, inl, inr, Option, none, some, List, Bytes, Bool-cases,
  Option-cases, if◌then◌else◌,
}
use go_feather_route.Prelude.Int.{ℤ}
use go_feather_route.Prelude.Dict.{bytes_eq}
use go_feather_route.Contract.{Codec, EmbeddingRequest, decode_embedding_request}
use go_feather_route.Contract.Problems.{Checked, good, bad}
use go_feather_route.Provider.{ClientApi, Response}
use go_feather_route.Usage.{Event}
use go_feather_route.Router.Health.{Health, provider_available}
use go_feather_route.Router.Selection.{clients_for}
use go_feather_route.Router.Failover.{Routed, nothing, broken, chosen, failover}
use go_feather_route.Router.Server.{Server, State}
use go_feather_route.Router.Handling.{Reply, request_canceled, error_reply}
use go_feather_route.Router.Exchange.{Request, Env, read_limited_body}
use go_feather_route.Router.EmbeddingsHandler.{embeddings}
use go_feather_route.Router.Answers.{reply_of}
use go_feather_route.Router.Answers.Embeddings.{
  embedded_answer, embeds, clients_answer, envelope_answer, embeddings_answer, reply_of-embeddings,
}
use go_feather_route.Router.Answers.Embeddings.Relayed.{IsRelayed, vectors_event}

module _ (codec : Codec) (unmarshal_usage : Bytes → Option (ℤ × ℤ × ℤ)) (server : Server)
    (env : Env) (request : Request) where
  -- Where an event comes from, and the reply that goes with it.
  pub record IsReported (h : Health) (reply : Reply) (e : Event) : Type 0 where
    pub asked : Bytes
    pub envelope : EmbeddingRequest
    pub clients : List ClientApi
    pub response : Response
    pub client : ClientApi
    pub index : ℕ
    pub read : read_limited_body request.body server.config.server.max_body_bytes ≡ some asked
    pub decoded : decode_embedding_request codec asked ≡ good envelope
    pub selected :
        clients_for server.providers
          (λ name. provider_available (env.available_at name) name h)
          server.routes
          server.config.model_list
          envelope.model
        ≡ some clients
    pub routed :
        (failover (embeds codec unmarshal_usage server env request asked) env.now 0 clients h).0
        ≡ chosen response client index
    pub relayed :
        IsRelayed codec unmarshal_usage server env request asked envelope response client index
          reply e

  module _ (h : Health) (asked : Bytes)
      (read : read_limited_body request.body server.config.server.max_body_bytes ≡ some asked) where
    embedded_event :
        (envelope : EmbeddingRequest) (clients : List ClientApi) (routed : Routed) (e : Event)
        → decode_embedding_request codec asked ≡ good envelope
        → clients_for server.providers
            (λ name. provider_available (env.available_at name) name h)
            server.routes
            server.config.model_list
            envelope.model
          ≡ some clients
        → (failover (embeds codec unmarshal_usage server env request asked) env.now 0 clients h).0
          ≡ routed
        → (embedded_answer codec unmarshal_usage server env request asked envelope routed).event
          ≡ some e
        → IsReported h
            (embedded_answer codec unmarshal_usage server env request asked envelope routed)
            e
    unfolding embedded_answer
    embedded_event envelope clients nothing e d f r p = absurd (cc p)
    embedded_event envelope clients (broken failure) e d f r p = absurd (cc p)
    embedded_event envelope clients (chosen response client index) e d f r p = record {
      asked = asked;
      envelope = envelope;
      clients = clients;
      response = response;
      client = client;
      index = index;
      read = read;
      decoded = d;
      selected = f;
      routed = r;
      relayed =
          vectors_event codec unmarshal_usage server env request asked envelope response client
            index e p;
    }

    clients_event :
        (envelope : EmbeddingRequest) (found : Option (List ClientApi)) (e : Event)
        → decode_embedding_request codec asked ≡ good envelope
        → clients_for server.providers
            (λ name. provider_available (env.available_at name) name h)
            server.routes
            server.config.model_list
            envelope.model
          ≡ found
        → (clients_answer codec unmarshal_usage server env request asked envelope h found).event
          ≡ some e
        → IsReported h
            (clients_answer codec unmarshal_usage server env request asked envelope h found)
            e
    unfolding clients_answer
    clients_event envelope none e d f p = absurd (cc p)
    clients_event envelope (some clients) e d f p = elim (Bool-cases env.admitted) [
      | inr late ↦ absurd (cc (rw late at p))
      | inl admitted ↦
          let gate =
            ap
              (λ b.
                if b
                then embedded_answer codec unmarshal_usage server env request asked envelope
                    (failover (embeds codec unmarshal_usage server env request asked) env.now 0
                      clients h).0
                else error_reply 408 request_canceled)
              admitted in
          subst (λ reply. IsReported h reply e) (sym gate)
            (embedded_event envelope clients _ e d f refl
              (ap (λ (r : Reply). r.event) (sym gate) ∙ p))
    ]

    envelope_event :
        (decoded : Checked EmbeddingRequest) (e : Event)
        → decode_embedding_request codec asked ≡ decoded
        → (envelope_answer codec unmarshal_usage server env request asked h decoded).event ≡ some e
        → IsReported h (envelope_answer codec unmarshal_usage server env request asked h decoded) e
    unfolding envelope_answer
    envelope_event (bad q) e d p = absurd (cc p)
    envelope_event (good envelope) e d p = clients_event envelope _ e d refl p

  answer_event :
      (h : Health) (e : Event)
      → (embeddings_answer codec unmarshal_usage server env request h).event ≡ some e
      → IsReported h (embeddings_answer codec unmarshal_usage server env request h) e
  unfolding embeddings_answer
  answer_event h e p =
      elim (Option-cases (read_limited_body request.body server.config.server.max_body_bytes)) [
        | inl long ↦ absurd (cc (rw (long, embeddings_answer) at p))
        | inr (asked, short) ↦
            rw (short, embeddings_answer)
              (envelope_event h asked short _ e refl (rw (short, embeddings_answer) at p))
      ]

  pub embeddings-IsReported :
      (s : State) (e : Event)
      → (reply_of (embeddings codec unmarshal_usage server env request s)).event ≡ some e
      → IsReported s.health (reply_of (embeddings codec unmarshal_usage server env request s)) e
  embeddings-IsReported s e h =
      let answer = reply_of-embeddings codec unmarshal_usage server env request s in
      rw answer (answer_event s.health e (rw answer at h))
