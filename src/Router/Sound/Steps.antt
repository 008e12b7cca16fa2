-- ===== src/Router/Sound/Steps.antt =====
-- The maps of metrics over the steps that `chat` and `embeddings` share.
use go_feather_route.Prelude.{
  ℕ, ◌≡◌, refl, Bool, true, false, Option, none, some, List, Bytes, leb, Bool-cases, inl, inr,
  Option-cases, All,
}
use go_feather_route.Prelude.Int.{ℤ, not_positive}
use go_feather_route.Provider.{ClientApi, Response, Outcome, ok}
use go_feather_route.Router.Health.{provider_available}
use go_feather_route.Router.Failover.{Routed, nothing, broken, chosen}
use go_feather_route.Router.Failover.Choice.{failover-Run}
use go_feather_route.Router.Bodies.{read_bounded}
use go_feather_route.Router.Server.{Server, State}
use go_feather_route.Router.Exchange.{
  Request, Env, Chosen, read_body, read_limited_body, select_clients, continue_selection, admit,
  after_failover, call_upstream, refuse_error, read_response,
}
use go_feather_route.Router.Honest.{AllValues, clients_for-All, IsAnswered, run-IsAnswered}
use go_feather_route.Router.Chat.{count_first_byte, count_stream}
use go_feather_route.Router.Sound.{Ends, Sound, Framed, Anything, Sound-pure, Sound-if}

module _ (I : State → Type 0) (frame : Framed I) where
  pub Sound-read_body :
      (server : Server) (request : Request) → Sound I Anything (read_body server request)
  unfolding read_body
  Sound-read_body server request =
      elim (Option-cases (read_limited_body request.body server.config.server.max_body_bytes)) [
        | inl long ↦ rw (long, read_body) (record { at = λ s i. frame s _ refl refl i })
        | inr (body, short) ↦ rw (short, read_body) (Sound-pure I Anything body tt)
      ]

  pub Sound-admit : (env : Env) → Sound I Anything (admit env)
  unfolding admit
  Sound-admit env =
      Sound-if I Anything env.admitted _ _ (Sound-pure I Anything tt tt)
        (record { at = λ s i. frame s _ refl refl i })

  module _ (P : ClientApi → Type 0) where
    selection :
        (found : Option (List ClientApi)) (s : State)
        → ((clients : List ClientApi) → found ≡ some clients → All P clients)
        → I s
        → Ends I (All P) (continue_selection found s)
    selection none s h i = i
    selection (some clients) s h i = (i, h clients refl)

    pub Sound-select_clients :
        (server : Server) (env : Env) (model : Bytes)
        → AllValues P server.providers
        → Sound I (All P) (select_clients server env model)
    unfolding select_clients
    Sound-select_clients server env model h = record {
      at = λ s i.
          selection _ _
            (λ clients found.
              clients_for-All P server.providers
                (λ name. provider_available (env.available_at name) name s.health) server.routes
                server.config.model_list model clients h found)
            (frame s _ refl refl i);
    }

  module _ (Q : Response → Type 0) where
    -- The response of a chosen client.
    abbrev pub OfChosen : Chosen → Type 0
    OfChosen (r, client, index) = Q r

    Sound-after_failover :
        (env : Env) (call : ℕ → ClientApi → Outcome) (routed : Routed)
        → IsAnswered call env.now Q routed
        → Sound I OfChosen (after_failover routed)
    unfolding after_failover
    Sound-after_failover env call nothing h = record { at = λ s i. i }
    Sound-after_failover env call (broken e) h = record { at = λ s i. frame s _ refl refl i }
    Sound-after_failover env call (chosen r c i) h = record { at = λ s i'. (i', h) }

    pub Sound-call_upstream :
        (env : Env) (call : ℕ → ClientApi → Outcome) (clients : List ClientApi)
        → All (λ c. (i : ℕ) (r : Response) → call i c ≡ ok r → Q r) clients
        → Sound I OfChosen (call_upstream env call clients)
    unfolding call_upstream
    Sound-call_upstream env call clients h = record {
      at = λ s i.
          (Sound-after_failover env call _
              (run-IsAnswered call env.now Q (failover-Run call env.now 0 clients s.health) h)).at
            _ (frame s _ refl refl i);
    }

  pub Sound-refuse_error :
      (server : Server) (r : Response) → Sound I Anything (refuse_error server r)
  unfolding refuse_error
  Sound-refuse_error server r =
      Sound-if I Anything (leb 400 r.status_code) _ _ (record { at = λ s i. frame s _ refl refl i })
        (Sound-pure I Anything tt tt)

  pub Sound-read_response :
      (server : Server) (r : Response) → Sound I Anything (read_response server r)
  unfolding read_response
  Sound-read_response server r =
      elim (Option-cases (read_bounded r.body server.config.server.max_response_bytes)) [
        | inl long ↦ rw (long, read_response) (record { at = λ s i. i })
        | inr (body, short) ↦ rw (short, read_response) (Sound-pure I Anything body tt)
      ]

  pub count_first_byte_framed : (d : ℤ) (s : State) → I s → I (count_first_byte d s)
  unfolding count_first_byte
  count_first_byte_framed d s i = elim (Bool-cases (not_positive d)) [
    | inl nothing_sent ↦ rw nothing_sent i
    | inr sent ↦ rw sent (frame s _ refl refl i)
  ]

  pub count_stream_framed : (stream : Bool) (s : State) → I s → I (count_stream stream s)
  count_stream_framed true s i = frame s _ refl refl i
  count_stream_framed false s i = i
