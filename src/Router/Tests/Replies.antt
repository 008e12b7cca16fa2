-- ===== src/Router/Tests/Replies.antt =====
-- The reply and the usage event of one streaming chat.
use go_feather_route.Prelude.{
  ◌≡◌, refl, false, some, [], ◌∷◌, codes, contains, has_prefix, str_eq, strip_prefix?,
}
use go_feather_route.Prelude.Int.{pos, add64}
use go_feather_route.Prelude.Float64.{
  finite, of_int, multiply, divide, add, round, or_infinite, nearest_units, nearest, quantum,
}
use go_feather_route.Prelude.Dict.{lookup, bytes_eq}
use go_feather_route.Wire.{content, header_get}
use go_feather_route.Config.{defaults}
use go_feather_route.Contract.{decode_chat_request}
use go_feather_route.Gateway.{provider_for}
use go_feather_route.Usage.{Event, parse_sse}
use go_feather_route.Router.Stream.{stream_response_with_usage}
use go_feather_route.Router.DoneMarker.{stream_contains_done}
use go_feather_route.Router.Server.{State, new_state}
use go_feather_route.Router.Handling.{bracket}
use go_feather_route.Router.Exchange.{
  read_body, select_clients, admit, call_upstream, refuse_error, count_retries, record_response,
  usage_event,
}
use go_feather_route.Router.Chat.{chat}
use go_feather_route.Router.Answers.{reply_of}
use go_feather_route.Router.Answers.Events.{IsReported, chat-IsReported}
use go_feather_route.Router.Tests.Handlers.{codec, no_usage, server, env, request}

-- A state with the cooldowns of a new server, and other counts.
abbrev busy : State
busy = record new_state {
  counters = record new_state.counters { requests = 7; errors = 2 };
  gauges = record new_state.gauges { active_chat = 3; semaphore = 3 };
  retry_reasons = (codes "rate_limited", 2) ∷ [];
}

abbrev pub event : Event
event = record {
  request_id = [];
  user_id = [];
  project_id = [];
  instance_id = [];
  operation = [];
  gateway = codes "go-feather-route";
  provider = codes "local";
  model = codes "fast";
  input_tokens = pos 0;
  output_tokens = pos 0;
  total_tokens = pos 0;
  estimated_cost = finite false 0;
  status = codes "completed";
  duration_ms = pos 3;
  fallback_used = false;
  attempt_count = 1;
}

reports : (reply_of (chat codec no_usage server env request new_state)).event ≡ some event
unfolding chat defaults lookup str_eq contains has_prefix content bracket read_body
    decode_chat_request select_clients provider_for admit call_upstream refuse_error
    stream_response_with_usage stream_contains_done add64 count_retries record_response usage_event
    header_get parse_sse strip_prefix? of_int multiply divide add round or_infinite nearest_units
    nearest quantum
reports = refl

chat-IsReported_example : IsReported codec no_usage server env request new_state.health event
chat-IsReported_example = chat-IsReported codec no_usage server env request new_state event reports
