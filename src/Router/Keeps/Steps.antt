-- ===== src/Router/Keeps/Steps.antt =====
-- The gauges over the steps that `chat` and `embeddings` share.
use go_feather_route.Prelude.{
  ℕ, ◌≡◌, refl, Bool, true, false, Option, none, some, List, Bytes, is_empty, leb, Bool-cases, inl,
  inr,
}
use go_feather_route.Prelude.Int.{ℤ, not_positive}
use go_feather_route.Provider.{ClientApi, Response, Outcome}
use go_feather_route.Router.Failover.{Routed, nothing, broken, chosen}
use go_feather_route.Router.Bodies.{read_bounded}
use go_feather_route.Router.Server.{Server, State}
use go_feather_route.Router.Exchange.{
  Request, Env, read_body, read_limited_body, select_clients, continue_selection, admit,
  after_failover, call_upstream, record_response, count_retries, refuse_error, read_response,
}
use go_feather_route.Router.Chat.{count_first_byte, count_stream}
use go_feather_route.Router.Keeps.{Keeps, exit_state, Keeps-pure, Keeps-if, Keeps-elim}

pub Keeps-read_body : (server : Server) (request : Request) → Keeps (read_body server request)
unfolding read_body
Keeps-read_body server request =
    Keeps-elim (read_limited_body request.body server.config.server.max_body_bytes) _ _
      (record { at = λ s w. refl }) Keeps-pure

pub Keeps-admit : (env : Env) → Keeps (admit env)
unfolding admit
Keeps-admit env = Keeps-if env.admitted _ _ (Keeps-pure tt) (record { at = λ s w. refl })

select_gauges :
    (found : Option (List ClientApi)) (s : State)
    → (exit_state (continue_selection found s)).gauges ≡ s.gauges
select_gauges none s = refl
select_gauges (some clients) s = refl

pub Keeps-select_clients :
    (server : Server) (env : Env) (model : Bytes) → Keeps (select_clients server env model)
unfolding select_clients
Keeps-select_clients server env model = record { at = λ s w. select_gauges _ _ }

pub Keeps-after_failover : (routed : Routed) → Keeps (after_failover routed)
unfolding after_failover
Keeps-after_failover nothing = record { at = λ s w. refl }
Keeps-after_failover (broken e) = record { at = λ s w. refl }
Keeps-after_failover (chosen r c i) = record { at = λ s w. refl }

pub Keeps-call_upstream :
    (env : Env) (call : ℕ → ClientApi → Outcome) (clients : List ClientApi)
    → Keeps (call_upstream env call clients)
unfolding call_upstream
Keeps-call_upstream env call clients = record { at = λ s w. (Keeps-after_failover _).at _ w }

pub gauges-record_response :
    (name model : Bytes) (r : Response) (s : State)
    → (record_response name model r s).gauges ≡ s.gauges
unfolding record_response
gauges-record_response name model r s = refl

pub gauges-count_retries : (r : Response) (s : State) → (count_retries r s).gauges ≡ s.gauges
unfolding count_retries
gauges-count_retries r s = elim (Bool-cases (is_empty r.retry_reason)) [
  | inl plain ↦ rw (plain)
  | inr retried ↦ rw (retried)
]

pub Keeps-refuse_error : (server : Server) (r : Response) → Keeps (refuse_error server r)
unfolding refuse_error
Keeps-refuse_error server r =
    Keeps-if (leb 400 r.status_code) _ _ (record { at = λ s w. refl }) (Keeps-pure tt)

pub Keeps-read_response : (server : Server) (r : Response) → Keeps (read_response server r)
unfolding read_response
Keeps-read_response server r =
    Keeps-elim (read_bounded r.body server.config.server.max_response_bytes) _ _
      (record { at = λ s w. refl }) Keeps-pure

pub gauges-count_first_byte : (d : ℤ) (s : State) → (count_first_byte d s).gauges ≡ s.gauges
unfolding count_first_byte
gauges-count_first_byte d s = elim (Bool-cases (not_positive d)) [
  | inl nothing_sent ↦ rw (nothing_sent)
  | inr sent ↦ rw (sent)
]

pub gauges-count_stream : (stream : Bool) (s : State) → (count_stream stream s).gauges ≡ s.gauges
gauges-count_stream true s = refl
gauges-count_stream false s = refl
