-- ===== src/Router/Answers/Embeddings/Statuses.antt =====
-- The statuses of the embeddings handler.
use go_feather_route.Prelude.{
  ℕ, ◌≡◌, refl, inl, inr, Option, none, some, List, Bytes, All, All-map, leb, Bool-cases,
  Option-cases, arith,
}
use go_feather_route.Prelude.Int.{ℤ}
use go_feather_route.Prelude.Dict.{bytes_eq}
use go_feather_route.Contract.{Codec, EmbeddingRequest}
use go_feather_route.Contract.Problems.{Checked, good, bad}
use go_feather_route.Provider.{ClientApi, Outcome}
use go_feather_route.Router.Health.{Health, provider_available}
use go_feather_route.Router.Failover.{Routed, nothing, broken, chosen}
use go_feather_route.Router.Failover.Choice.{failover-Run}
use go_feather_route.Router.Server.{Server, State}
use go_feather_route.Router.Exchange.{
  Request, Env, Chosen, read_limited_body, relay_body, usage_event,
}
use go_feather_route.Router.EmbeddingsHandler.{embeddings}
use go_feather_route.Router.Honest.{AllValues, clients_for-All, IsAnswered, run-IsAnswered}
use go_feather_route.Router.Sound.Handlers.{Answers}
use go_feather_route.Router.Answers.{reply_of}
use go_feather_route.Router.Answers.Statuses.{IsStatus, HasStatus, error_status}
use go_feather_route.Router.Answers.Embeddings.{
  normalized_answer, received_answer, vectors_answer, embedded_answer, embeds, clients_answer,
  envelope_answer, embeddings_answer, reply_of-embeddings,
}

module _ (codec : Codec) (unmarshal_usage : Bytes → Option (ℤ × ℤ × ℤ)) (server : Server)
    (honest : AllValues (Answers HasStatus) server.providers) (env : Env) (request : Request) where
  normalized_status :
      (envelope : EmbeddingRequest) (c : Chosen) (n : Checked Bytes)
      → HasStatus c.0
      → IsStatus (normalized_answer codec unmarshal_usage server env request envelope c n).status
  unfolding normalized_answer relay_body
  normalized_status envelope c (bad p) h = (omega arith, omega arith)
  normalized_status envelope (r, client, index) (good body) h = h

  received_status :
      (asked : Bytes) (envelope : EmbeddingRequest) (c : Chosen) (received : Option Bytes)
      → HasStatus c.0
      → IsStatus
          (received_answer codec unmarshal_usage server env request asked envelope c
            received).status
  unfolding received_answer
  received_status asked envelope c none h = (omega arith, omega arith)
  received_status asked envelope c (some body) h = normalized_status envelope c _ h

  vectors_status :
      (asked : Bytes) (envelope : EmbeddingRequest) (c : Chosen)
      → HasStatus c.0
      → IsStatus (vectors_answer codec unmarshal_usage server env request asked envelope c).status
  unfolding vectors_answer
  vectors_status asked envelope (r, client, index) h = elim (Bool-cases (leb 400 r.status_code)) [
    | inl refused ↦ rw refused (error_status codec unmarshal_usage server honest env request r h)
    | inr fine ↦ rw fine (received_status asked envelope (r, client, index) _ h)
  ]

  embedded_status :
      (call : ℕ → ClientApi → Outcome) (asked : Bytes) (envelope : EmbeddingRequest)
      (routed : Routed)
      → IsAnswered call env.now HasStatus routed
      → IsStatus
          (embedded_answer codec unmarshal_usage server env request asked envelope routed).status
  unfolding embedded_answer
  embedded_status call asked envelope nothing h = (omega arith, omega arith)
  embedded_status call asked envelope (broken e) h = (omega arith, omega arith)
  embedded_status call asked envelope (chosen r client index) h =
      vectors_status asked envelope (r, client, index) h

  clients_status :
      (asked : Bytes) (envelope : EmbeddingRequest) (h : Health) (found : Option (List ClientApi))
      → ((clients : List ClientApi) → found ≡ some clients → All (Answers HasStatus) clients)
      → IsStatus
          (clients_answer codec unmarshal_usage server env request asked envelope h found).status
  unfolding clients_answer usage_event
  clients_status asked envelope h none a = (omega arith, omega arith)
  clients_status asked envelope h (some clients) a = elim (Bool-cases env.admitted) [
    | inr late ↦ rw late (omega arith, omega arith)
    | inl admitted ↦
        let call = embeds codec unmarshal_usage server env request asked in
        let answered =
          run-IsAnswered call env.now HasStatus (failover-Run call env.now 0 clients h)
            (All-map clients (λ c q i r. q.of_embedding i _ asked r) (a clients refl)) in
        rw admitted (embedded_status call asked envelope _ answered)
  ]

  envelope_status :
      (asked : Bytes) (h : Health) (decoded : Checked EmbeddingRequest)
      → IsStatus (envelope_answer codec unmarshal_usage server env request asked h decoded).status
  unfolding envelope_answer
  envelope_status asked h (bad p) = (omega arith, omega arith)
  envelope_status asked h (good envelope) = clients_status asked envelope h _ (λ clients.
      clients_for-All (Answers HasStatus) server.providers
        (λ name. provider_available (env.available_at name) name h) server.routes
        server.config.model_list envelope.model clients honest)

  pub embeddings-status :
      (s : State)
      → IsStatus (reply_of (embeddings codec unmarshal_usage server env request s)).status
  unfolding embeddings_answer
  embeddings-status s =
      rw (reply_of-embeddings codec unmarshal_usage server env request s)
        (elim (Option-cases (read_limited_body request.body server.config.server.max_body_bytes)) [
          | inl long ↦ rw (long, embeddings_answer) (omega arith, omega arith)
          | inr (asked, short) ↦ rw (short, embeddings_answer) (envelope_status asked s.health _)
        ])
