-- ===== src/Router/Tests/Handlers.antt =====
-- The two handlers on one request each.
use go_feather_route.Prelude.{
  ℕ, ◌≡◌, refl, true, false, Option, none, some, [], ◌∷◌, Bytes, codes, contains, has_prefix,
  str_eq, arith,
}
use go_feather_route.Prelude.Float64.{finite}
use go_feather_route.Prelude.Int.{ℤ, pos, add64}
use go_feather_route.Prelude.Dict.{lookup, bytes_eq}
use go_feather_route.Wire.{eof, Body, content, object}
use go_feather_route.Config.{defaults}
use go_feather_route.Contract.{Codec, decode_chat_request, decode_embedding_request, input_count}
use go_feather_route.Provider.{ClientApi, Response, ok}
use go_feather_route.Router.Stream.{stream_response_with_usage}
use go_feather_route.Router.DoneMarker.{stream_contains_done}
use go_feather_route.Router.Bodies.{read_bounded}
use go_feather_route.Router.Embeddings.{normalize_embedding_response}
use go_feather_route.Gateway.{provider_for}
use go_feather_route.Router.Server.{Server, new_state}
use go_feather_route.Router.Handling.{Exit, stop, go, Reply, bracket}
use go_feather_route.Router.Exchange.{
  Request, Env, read_body, select_clients, admit, call_upstream, refuse_error, count_retries,
  record_response, read_response, relay_body,
}
use go_feather_route.Router.Chat.{chat}
use go_feather_route.Router.EmbeddingsHandler.{embeddings}
use go_feather_route.Router.Keeps.{IsWord, exit_state}
use go_feather_route.Router.Http.{Incoming}

abbrev pub whole : Bytes → Body
whole s = record { reads = []; final = s; cause = eof }

abbrev pub answer : Bytes → Response
answer s = record {
  status_code = 200;
  header = [];
  body = whole s;
  attempts = 1;
  connection_duration = pos 0;
  first_response_duration = pos 0;
  retry_reason = [];
}

abbrev local : ClientApi
local = record {
  provider_name = codes "local";
  chat = λ index id body stream. ok (answer (codes "data: [DONE]\n\n"));
  embedding = λ index id body. ok (answer (codes "{}"));
}

-- Every body is a streaming chat of the model "fast", or one input of it; every answer one vector.
abbrev pub codec : Codec
codec = record {
  json = record {
    unmarshal_object = λ s. object ((codes "data", codes "[]") ∷ []);
    unmarshal_string = λ s. some s;
    marshal_string = λ s. s;
    marshal_object = λ m. some (codes "{}");
  };
  unmarshal_chat = λ s. some (record {
    model = codes "fast";
    messages = codes "[]";
    max_tokens = pos 0;
    stream = true;
    response_format = none;
  });
  unmarshal_embedding = λ s. some (record { model = codes "fast"; input = codes "\"x\"" });
  unmarshal_array = λ s. none;
  unmarshal_data = λ s. some (record { index = pos 0; embedding = finite false 1 ∷ [] } ∷ []);
  marshal_data = λ items. some (codes "[]");
}

abbrev pub no_usage : Bytes → Option (ℤ × ℤ × ℤ)
no_usage s = none

abbrev pub server : Server
unfolding defaults
server = record {
  config = defaults;
  routes = record { by_model = (codes "fast", codes "local") ∷ []; rules = [] };
  providers = (codes "local", local) ∷ [];
  usage_reporter = record { endpoint = []; api_key = []; timeout = pos 0 };
}

abbrev pub env : Env
env = record {
  available_at = λ name. 1;
  now = λ index. 1;
  selection_time = pos 0;
  upstream_time = pos 3000000;
  stream_time = pos 5000000;
  admitted = true;
  moments = λ index. record { expired = false; write_fails = false; since_start = pos 4000000 };
  gone = false;
}

abbrev pub request : Request
request = record { header = []; body = whole (codes "{}") }

pub initial-IsWord : IsWord new_state.gauges
initial-IsWord = record {
  active = omega arith;
  active_chat = omega arith;
  active_embeddings = omega arith;
  active_streams = omega arith;
  semaphore = omega arith;
  embedding_semaphore = omega arith;
  stream_semaphore = omega arith;
}

abbrev status_of : Exit Reply → ℕ
status_of (stop r s) = r.status
status_of (go r s) = r.status

stream_completes :
    (exit_state (chat codec no_usage server env request new_state)).counters.stream_completed ≡ 1
unfolding chat defaults lookup str_eq contains has_prefix content bracket read_body
    decode_chat_request select_clients provider_for admit call_upstream refuse_error
    stream_response_with_usage stream_contains_done add64 count_retries record_response
stream_completes = refl

embeddings_relays : status_of (embeddings codec no_usage server env request new_state) ≡ 200
unfolding embeddings defaults lookup str_eq content bracket read_body decode_embedding_request
    select_clients provider_for admit call_upstream refuse_error read_response read_bounded
    normalize_embedding_response input_count relay_body
embeddings_relays = refl

abbrev pub incoming : Incoming
incoming = record {
  method = codes "POST";
  path = codes "/v1/chat/completions";
  request = request;
  random = none;
  now = 1700000000000000000;
  duration = pos 6000000;
  bytes = λ reply. 14;
}

abbrev pub locked : Server
locked = record server {
  config = record server.config { auth = record { api_key_env = []; api_key = codes "secret" } };
}
