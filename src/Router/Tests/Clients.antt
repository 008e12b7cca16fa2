-- ===== src/Router/Tests/Clients.antt =====
-- The gateway with a client of the provider package behind it.
use go_feather_route.Prelude.{
  ℕ, ◌≤◌, ◌≡◌, refl, subst, true, false, not, none, some, [], ◌∷◌, Bytes, codes, contains,
  has_prefix, str_eq, strip_prefix?, arith,
}
use go_feather_route.Prelude.Float64.{
  finite, of_int, multiply, divide, add, round, or_infinite, nearest_units, nearest, quantum,
}
use go_feather_route.Prelude.Int.{pos, add64}
use go_feather_route.Prelude.Dict.{lookup, bytes_eq}
use go_feather_route.Wire.{Json, Cause, content, header_get, malformed}
use go_feather_route.Config.{Config, defaults}
use go_feather_route.Contract.{ChatRequest, decode_chat_request}
use go_feather_route.Contract.Problems.{good}
use go_feather_route.Gateway.{provider_for, new_routes_with_rules}
use go_feather_route.Provider.{World, Response, received, new_client, ok}
use go_feather_route.Provider.Prepare.{prepare_chat_body}
use go_feather_route.Provider.Call as Call
use go_feather_route.Provider.Retry.{most_requests}
use go_feather_route.Provider.Api.{to_api}
use go_feather_route.Usage.{Event, parse_sse}
use go_feather_route.Router.Stream.{stream_response_with_usage}
use go_feather_route.Router.DoneMarker.{stream_contains_done}
use go_feather_route.Router.Server.{new_server, new_state}
use go_feather_route.Router.Handling.{bracket, error_reply, model_not_configured}
use go_feather_route.Router.Exchange.{
  read_body, select_clients, admit, call_upstream, refuse_error, count_retries, record_response,
  usage_event,
}
use go_feather_route.Router.Chat.{chat}
use go_feather_route.Router.Answers.{reply_of}
use go_feather_route.Router.Answers.Attempts.{chat-attempts}
use go_feather_route.Router.Answers.Statuses.{IsStatus, HasStatus}
use go_feather_route.Router.Mux.{Mux, gateway}
use go_feather_route.Router.Mux.Statuses.{gateway_status}
use go_feather_route.Router.Honest.{AllValues}
use go_feather_route.Router.Sound.Handlers.{Answers}
use go_feather_route.Router.Sound.Whole.{Visit, after_visits}
use go_feather_route.Router.Metrics.Tracked.{IsTracked, after_visits-IsTracked}
use go_feather_route.Router.Tests.Handlers.{codec, no_usage, server, env, request, incoming, answer}

-- A decoder that finds no object, so that bodies are sent as they came.
abbrev plain_json : Json
plain_json = record {
  unmarshal_object = λ s. malformed;
  unmarshal_string = λ s. some s;
  marshal_string = λ s. s;
  marshal_object = λ m. none;
}

-- An upstream that answers every request with a stream.
abbrev worlds : Bytes → ℕ → World
worlds name index = record {
  creates = λ url. true;
  transport = λ attempt sent.
      received 200 [] (record { reads = []; final = codes "data: [DONE]\n\n"; cause = Cause.eof }) 0
        [];
  parse_time = λ s. none;
  jitter = λ attempt. none;
  wait = λ attempt delay. none;
}

abbrev cfg : Config
unfolding defaults
cfg = record defaults {
  providers =
      (
        codes "local",
        record {
          base_url = codes "http://localhost:11434";
          api_key_env = codes "KEY";
          kind = codes "openai-compatible";
          models = [];
          model_aliases = [];
          api_key = codes "secret";
        },
      )
      ∷ [];
  routes = (codes "fast", codes "local") ∷ [];
}

-- A mux that leads to the chat handler.
abbrev chats : Mux
chats = record {
  pick = λ method path. some (codes "POST /v1/chat/completions", []);
  refusal = λ method path. error_reply 404 (model_not_configured []);
}

abbrev visit : Visit
visit = record { worlds = worlds; env = env; mux = chats; incoming = incoming }

abbrev event : Event
event = record {
  request_id = [];
  user_id = [];
  project_id = [];
  instance_id = [];
  operation = [];
  gateway = codes "go-feather-route";
  provider = codes "local";
  model = codes "fast";
  input_tokens = pos 0;
  output_tokens = pos 0;
  total_tokens = pos 0;
  estimated_cost = finite false 0;
  status = codes "completed";
  duration_ms = pos 3;
  fallback_used = false;
  attempt_count = 1;
}

reported :
    (reply_of
      (chat codec no_usage (new_server (to_api plain_json worlds) cfg) env request new_state)).event
    ≡ some event
unfolding chat defaults lookup str_eq contains has_prefix content bracket read_body
    decode_chat_request select_clients provider_for admit call_upstream refuse_error
    stream_response_with_usage stream_contains_done add64 count_retries record_response usage_event
    header_get parse_sse strip_prefix? of_int multiply divide add round or_infinite nearest_units
    nearest quantum new_server to_api Call.chat new_client prepare_chat_body new_routes_with_rules
reported = refl

chat-attempts_example :
    (envelope : ChatRequest) × (decode_chat_request codec (content request.body) ≡ good envelope)
    × (1 ≤ event.attempt_count)
    × (event.attempt_count ≤ most_requests (not envelope.stream))
chat-attempts_example =
    chat-attempts plain_json worlds cfg codec no_usage env request new_state event reported

after_visits-IsTracked_example : IsTracked (
    after_visits codec no_usage
      (λ w. new_server (to_api plain_json w) cfg)
      (visit ∷ visit ∷ [])
      new_state)
after_visits-IsTracked_example =
    after_visits-IsTracked plain_json cfg codec no_usage (visit ∷ visit ∷ [])

ok-injective : {a b : Response} → ok a ≡ ok b → a ≡ b
ok-injective h = cc

fine : (r : Response) (s : Bytes) → ok (answer s) ≡ ok r → IsStatus r.status_code
fine r s h =
    subst (λ (x : Response). IsStatus x.status_code) (ok-injective h) (omega arith, omega arith)

Answers-fine : AllValues (Answers HasStatus) server.providers
unfolding defaults
Answers-fine = (
  record {
    of_chat = λ index id body stream r h. fine r (codes "data: [DONE]\n\n") h;
    of_embedding = λ index id body r h. fine r (codes "{}") h;
  },
  tt,
)

gateway_status_example :
    IsStatus (gateway codec no_usage server env chats incoming new_state).0.status
gateway_status_example =
    gateway_status codec no_usage server Answers-fine env chats
      (λ method path. (omega arith, omega arith)) incoming new_state
