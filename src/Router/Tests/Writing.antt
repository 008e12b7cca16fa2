-- ===== src/Router/Tests/Writing.antt =====
-- The counting writer, the watchdog of a stream and the values of log lines.
use go_feather_route.Prelude.{◌≡◌, refl, true, List, All, [], ◌∷◌, codes, arith}
use go_feather_route.Prelude.Int.{pos}
use go_feather_route.Prelude.{Bytes, some}
use go_feather_route.Prelude.Dict.{lookup, bytes_eq}
use go_feather_route.Router.Handling.{error_reply, invalid_token}
use go_feather_route.Router.Http.{Incoming}
use go_feather_route.Router.Tests.Handlers.{incoming, request}
use go_feather_route.Router.Logging.Line.{text, log_line, log_line-IsPrinted}
use go_feather_route.Router.Logging.Controls.{IsPrinted}
use go_feather_route.Router.Writer.{
  Call, write_header_call, write_call, flush_call, new_writer, run_calls,
}
use go_feather_route.Router.Writer.Status.{IsBegun, run_calls-IsBegun}
use go_feather_route.Router.Watchdog.{
  Watchdog, new_stream_watchdog, pass, fire, close_reader, return_closed, Reached, created, goes_on,
  time_passes, timer_fired, reader_shut, returned,
}
use go_feather_route.Router.Watchdog.Idle.{IsTimely, Reached-IsTimely}

-- An error after a body has begun is not sent.
abbrev calls : List Call
calls = flush_call ∷ write_header_call 500 ∷ []

run_calls-IsBegun_example :
    IsBegun 200 (run_calls (write_call (codes "{}") 2 ∷ calls) (new_writer true))
run_calls-IsBegun_example = run_calls-IsBegun (write_call (codes "{}") 2) calls true tt

abbrev first : Watchdog
unfolding new_stream_watchdog
first = new_stream_watchdog (pos 5) 10

abbrev due : Watchdog
due = pass 6 first

abbrev last : Watchdog
unfolding fire close_reader return_closed
last = return_closed (close_reader (fire due))

fired : Reached (pos 5) 10 last
unfolding new_stream_watchdog fire close_reader return_closed last
fired =
    goes_on
      (goes_on
        (goes_on (goes_on created (time_passes first 6)) (timer_fired due refl refl (omega arith)))
        (reader_shut (fire due) refl refl refl))
      (returned (close_reader (fire due)) refl refl)

Reached-IsTimely_example : IsTimely (pos 5) last
Reached-IsTimely_example = Reached-IsTimely (pos 5) 10 last fired

abbrev visit : Incoming
visit = record incoming {
  request = record request { header = (codes "X-Request-Id", codes "a\nb") ∷ [] };
}

log_line-IsPrinted_example :
    (value : Bytes) × (lookup (codes "request_id") (log_line visit (error_reply 401 invalid_token))
      ≡ some (text value))
    × All IsPrinted value
log_line-IsPrinted_example = log_line-IsPrinted visit (error_reply 401 invalid_token)
