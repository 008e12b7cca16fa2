-- ===== src/Router/Exchange.antt =====
-- The steps that `chat` and `embeddings` share: the body, the selection, the slot, the upstream.
use go_feather_route.Prelude.{
  ℕ, zero, suc, ◌+◌, ◌/◌, Bool, false, Option, none, some, List, [], Bytes, codes, is_empty, length,
  leb, ltb, if◌then◌else◌,
}
use go_feather_route.Prelude.Int.{ℤ, pos, negsuc, add64, to_nat}
use go_feather_route.Prelude.Dict.{insert, bytes_eq}
use go_feather_route.Wire.{Headers, header_get, Body, is_eof, is_context_error, content}
use go_feather_route.Provider.{ClientApi, Response, Failure, call_failed, wait_failed, Outcome}
use go_feather_route.Usage.{Tokens, Event}
use go_feather_route.Router.Histogram.{observe, record_duration}
use go_feather_route.Router.Health.{provider_available}
use go_feather_route.Router.Selection.{clients_for}
use go_feather_route.Router.Failover.{Routed, nothing, broken, chosen, failover}
use go_feather_route.Router.Bodies.{read_bounded}
use go_feather_route.Router.Costs.{model_cost, estimated_cost}
use go_feather_route.Router.Stream.{Moment}
use go_feather_route.Router.Server.{
  Server, State, Counters, retry_count, record_route_metric, record_retry_reason,
}
use go_feather_route.Router.Handling.{
  body_unreadable, no_route, request_canceled, response_too_large, error_response_too_large,
  upstream, raw, Reply, Handler, ◌>>◌, pure, return, fail, on_counters, error_reply,
}

pub record Request : Type 0 where
  pub header : Headers
  pub body : Body

-- What surrounds the handling of one request: the clock, the measured durations, which way the wait
-- for a slot ends, the moments of a stream, and whether the client has gone when the stream ends.
pub record Env : Type 0 where
  pub available_at : Bytes → ℕ
  pub now : ℕ → ℕ
  pub selection_time : ℤ
  pub upstream_time : ℤ
  pub stream_time : ℤ
  pub admitted : Bool
  pub moments : ℕ → Moment
  pub gone : Bool

-- io.ReadAll over http.MaxBytesReader
unfoldable pub read_limited_body : Body → ℤ → Option Bytes
read_limited_body body limit =
    if is_eof body.cause
    then (if leb (length (content body)) (to_nat limit) then some (content body) else none)
    else none

unfoldable pub read_body : Server → Request → Handler Bytes
unfolding read_limited_body
read_body server request =
    elim (read_limited_body request.body server.config.server.max_body_bytes) [
      | some body ↦ pure body
      | none ↦ do
        on_counters (λ c. record c { limit_rejections = add64 c.limit_rejections 1 })
        fail 413 body_unreadable
    ]

abbrev pub continue_selection : Option (List ClientApi) → Handler (List ClientApi)
continue_selection none = fail 400 no_route
continue_selection (some clients) = pure clients

unfoldable pub select_clients : Server → Env → Bytes → Handler (List ClientApi)
unfolding clients_for provider_available
select_clients server env model s =
    let found =
      clients_for server.providers
        (λ name. provider_available (env.available_at name) name s.health) server.routes
        server.config.model_list model in
    let timed = record s {
      counters = record s.counters {
        selection_ms = record_duration s.counters.selection_ms env.selection_time;
      };
    } in
    continue_selection found timed

-- The `select` on a slot and the end of the request, where the request ends first.
unfoldable pub admit : Env → Handler (Unit {0})
admit env = if env.admitted then pure tt else (do
  on_counters (λ c. record c {
    cancellations = add64 c.cancellations 1;
    limit_rejections = add64 c.limit_rejections 1;
  })
  fail 408 request_canceled)

-- The error of a call is the context's, or wraps it.
abbrev pub is_cancellation : Failure → Bool
is_cancellation (call_failed cause) = is_context_error cause
is_cancellation (wait_failed cause) = is_context_error cause
is_cancellation _ = false

abbrev pub count_failure : Failure → Counters → Counters
count_failure e c = record c {
  cancellations = if is_cancellation e then add64 c.cancellations 1 else c.cancellations;
  provider_errors = add64 c.provider_errors 1;
}

-- The response, the client and the client's index.
abbrev pub Chosen : Type 0
Chosen = Response × ClientApi × ℕ

-- What follows the loop over the clients. Without any client Go would dereference nil; `clientsFor`
-- never gives an empty list.
unfoldable pub after_failover : Routed → Handler Chosen
after_failover nothing = fail 500 no_route
after_failover (broken e) = do on_counters (count_failure e); fail 502 (upstream e)
after_failover (chosen response client index) = pure (response, client, index)

unfoldable pub call_upstream : Env → (ℕ → ClientApi → Outcome) → List ClientApi → Handler Chosen
unfolding failover after_failover
call_upstream env call clients s =
    let (routed, health) = failover call env.now 0 clients s.health in
    after_failover routed (record s {
      health = health;
      counters = record s.counters {
        upstream_ms = record_duration s.counters.upstream_ms env.upstream_time;
      };
      upstream_histogram = observe env.upstream_time s.upstream_histogram;
    })

-- The durations and the route metric of a chosen response.
unfoldable pub record_response : Bytes → Bytes → Response → State → State
unfolding record_route_metric
record_response provider_name model r s =
    record_route_metric provider_name model r.status_code r.attempts (record s {
      counters = record s.counters {
        connection_ms = record_duration s.counters.connection_ms r.connection_duration;
        first_response_ms = record_duration s.counters.first_response_ms r.first_response_duration;
      };
    })

unfoldable pub count_retries : Response → State → State
unfolding record_retry_reason retry_count
count_retries r s =
    let retried = record s {
      counters = record s.counters { retries = add64 s.counters.retries (retry_count r.attempts) };
    } in
    if is_empty r.retry_reason
    then retried
    else (let named = record_retry_reason r.retry_reason retried in
        record named {
          counters = record named.counters {
            provider_errors = add64 named.counters.provider_errors 1;
          };
        })

abbrev pub copy_header : Bytes → Headers → Headers → Headers
copy_header name source destination =
    let value = header_get source name in
    if is_empty value then destination else insert name value destination

-- `copyHeaders`, over canonical names.
unfoldable pub copy_headers : Headers → Headers → Headers
copy_headers destination source = copy_header (codes "X-Ratelimit-Reset") source (
    copy_header (codes "X-Ratelimit-Remaining") source (
      copy_header (codes "X-Ratelimit-Limit") source (
        copy_header (codes "Retry-After") source
          (copy_header (codes "Content-Type") source destination))))

unfoldable pub copy_upstream_error : Server → Response → Reply
unfolding copy_headers
copy_upstream_error server r = elim (read_bounded r.body server.config.server.max_response_bytes) [
  | none ↦ error_reply 502 error_response_too_large
  | some body ↦ record {
    status = r.status_code;
    header = copy_headers [] r.header;
    payload = raw body;
    event = none;
  }
]

-- The reply to an upstream status of an error; other responses go on.
unfoldable pub refuse_error : Server → Response → Handler (Unit {0})
unfolding copy_upstream_error
refuse_error server r =
    if leb 400 r.status_code
    then (do
      on_counters (λ c. record c { provider_errors = add64 c.provider_errors 1 })
      return (copy_upstream_error server r))
    else pure tt

unfoldable pub read_response : Server → Response → Handler Bytes
read_response server r = elim (read_bounded r.body server.config.server.max_response_bytes) [
  | none ↦ fail 502 response_too_large
  | some body ↦ pure body
]

-- duration.Milliseconds(), which rounds toward zero
unfoldable pub milliseconds : ℤ → ℤ
milliseconds (pos n) = pos (n / 1000000)
milliseconds (negsuc n) = elim ((n + 1) / 1000000) [ zero ↦ pos 0 | suc m ↦ negsuc m ]

-- The event of `reportUsage`.
unfoldable pub usage_event : Server → Env → Request → Bytes → Bytes → Tokens → Response → ℕ → Event
unfolding milliseconds model_cost estimated_cost
usage_event server env request provider_name model tokens r index = record {
  request_id = header_get request.header (codes "X-Request-Id");
  user_id = header_get request.header (codes "X-Thingd-User-Id");
  project_id = header_get request.header (codes "X-Thingd-Project-Id");
  instance_id = header_get request.header (codes "X-Thingd-Instance-Id");
  operation = header_get request.header (codes "X-Thingd-Operation");
  gateway = codes "go-feather-route";
  provider = provider_name;
  model = model;
  input_tokens = tokens.input;
  output_tokens = tokens.output;
  total_tokens = tokens.total;
  estimated_cost = estimated_cost (model_cost server.config.model_list model) tokens;
  status = codes "completed";
  duration_ms = milliseconds env.upstream_time;
  fallback_used = ltb 0 index;
  attempt_count = r.attempts;
}

-- The relay of a whole body to the client.
unfoldable pub relay_body : Response → Bytes → Event → Reply
unfolding copy_headers
relay_body r body event = record {
  status = r.status_code;
  header = copy_headers [] r.header;
  payload = raw body;
  event = some event;
}
