-- ===== src/Router/Http.antt =====
-- The outer handler: `Handler`, `isPublicPath` and `authorized`.
pub mod Refusal
use go_feather_route.Prelude.{
  ℕ, Bool, true, false, not, ◌&&◌, ◌||◌, Option, List, [], ◌∷◌, ◌++◌, Bytes, codes, str_eq,
  is_empty, leb, ltb, if◌then◌else◌,
}
use go_feather_route.Prelude.Int.{ℤ, add64, minus_one}
use go_feather_route.Prelude.Dict.{insert, bytes_eq}
use go_feather_route.Wire.{Headers, header_get}
use go_feather_route.Router.Labels.{request_id}
use go_feather_route.Router.Histogram.{observe, record_duration}
use go_feather_route.Router.Server.{Server, State, Counters}
use go_feather_route.Router.Handling.{
  invalid_token, Reply, error_reply, Exit, stop, go, Handler, on_gauges,
}
use go_feather_route.Router.Exchange.{Request}

-- A request with its method and path, and what surrounds it: the random bytes for an ID, the clock, the
-- measured duration, and how many bytes of a reply the connection takes.
pub record Incoming : Type 0 where
  pub method : Bytes
  pub path : Bytes
  pub request : Request
  pub random : Option Bytes
  pub now : ℕ
  pub duration : ℤ
  pub bytes : Reply → ℕ

unfoldable pub is_public_path : Bytes → Bool
is_public_path path =
    str_eq path (codes "/health/live")
    || str_eq path (codes "/health/liveliness")
    || str_eq path (codes "/ready")
    || str_eq path (codes "/status")
    || str_eq path (codes "/metrics")

unfoldable pub authorized : Server → Headers → Bool
authorized server header =
    if is_empty server.config.auth.api_key
    then true
    else str_eq (header_get header (codes "Authorization"))
        (codes "Bearer " ++ server.config.auth.api_key)

-- The request with the ID that it carries on.
unfoldable pub with_id : Incoming → Request
with_id incoming = record incoming.request {
  header =
      insert (codes "X-Request-Id")
        (request_id (header_get incoming.request.header (codes "X-Request-Id")) incoming.random
          incoming.now)
        incoming.request.header;
}

-- The counters of the deferred function.
unfoldable pub count_request : Incoming → Reply → Counters → Counters
count_request incoming reply c = record c {
  requests = add64 c.requests 1;
  errors = if leb 400 reply.status then add64 c.errors 1 else c.errors;
  bytes = if ltb 0 (incoming.bytes reply) then add64 c.bytes (incoming.bytes reply) else c.bytes;
  duration_ms = record_duration c.duration_ms incoming.duration;
}

unfoldable pub finish : Incoming → Reply → State → Reply × State
unfolding count_request
finish incoming reply s =
    let left = on_gauges (λ g. record g { active = add64 g.active minus_one }) s in
    (
      reply,
      record left {
        counters = count_request incoming reply left.counters;
        request_histogram = observe incoming.duration left.request_histogram;
      },
    )

unfoldable pub finish_exit : Incoming → Exit Reply → Reply × State
unfolding finish
finish_exit incoming (stop reply s) = finish incoming reply s
finish_exit incoming (go reply s) = finish incoming reply s

abbrev pub enter : State → State
enter s = on_gauges (λ g. record g { active = add64 g.active 1 }) s

abbrev pub count_refusal : State → State
count_refusal s = record s {
  counters = record s.counters { auth_failures = add64 s.counters.auth_failures 1 };
}

-- `inner` is what the mux calls.
unfoldable pub handle : Server → (Request → Handler Reply) → Incoming → State → Reply × State
unfolding is_public_path authorized with_id finish_exit
handle server inner incoming s = finish_exit incoming (
    if not (is_public_path incoming.path) && not (authorized server (with_id incoming).header)
    then stop (error_reply 401 invalid_token) (count_refusal (enter s))
    else inner (with_id incoming) (enter s))
