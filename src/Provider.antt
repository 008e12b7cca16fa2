-- ===== src/Provider.antt =====
-- internal/provider/provider.go: the client of one upstream provider.

pub mod Transport
pub mod Trace
pub mod Prepare
pub mod Wait
pub mod Call
pub mod Loop
pub mod Retry
pub mod Api
pub mod Delay
mod Tests
use go_feather_route.Prelude.{
  ℕ, zero, suc, ◌+◌, ◌^◌, ◌-◌, ◌*◌, ◌%◌, Bool, true, false, not, ◌&&◌, ◌||◌, Option, none, some,
  List, [], ◌∷◌, ◌++◌, Bytes, codes, str_eq, is_empty, cut, leb, ltb, ◌==◌, if◌then◌else◌,
}
use go_feather_route.Prelude.Int.{ℤ, pos, negsuc, to_int64}
use go_feather_route.Prelude.Numbers.{atoi, trim_space}
use go_feather_route.Provider.Trace.{Hook, new_trace, run_hooks}
use go_feather_route.Prelude.Dict.{Dict, lookup, insert, delete, get_or, bytes_eq}
use go_feather_route.Prelude.Maybe.{◌>>=◌}
use go_feather_route.Wire.{
  Headers, header_get, Cause, canceled, Body, Parsed, malformed, null, object, Json,
}

pub record Client : Type 0 where
  pub name : Bytes
  pub base_url : Bytes
  pub api_key : Bytes
  pub kind : Bytes
  pub model_aliases : Dict Bytes Bytes

-- The error values that the client returns. `nil_map_write` is the panic of a write to a nil map.
pub data Failure : Type 0 where
  not_configured prepare_failed nil_map_write : Failure
  create_failed : Failure
  call_failed wait_failed : Cause → Failure

pub record Response : Type 0 where
  pub status_code : ℕ
  pub header : Headers
  pub body : Body
  pub attempts : ℕ
  pub connection_duration : ℤ
  pub first_response_duration : ℤ
  pub retry_reason : Bytes

-- A result or an error.
pub data Result {ℓ} (A : Type ℓ) : Type ℓ where
  ok : A → Result A
  err : Failure → Result A

infixl 5 ◌>>=!◌
abbrev pub ◌>>=!◌ {ℓ κ} : {A : Type ℓ} {B : Type κ} → Result A → (A → Result B) → Result B
ok a >>=! f = f a
err e >>=! f = err e

abbrev pub or_fail {ℓ} : {A : Type ℓ} → Option A → Failure → Result A
or_fail none e = err e
or_fail (some a) e = ok a

abbrev pub Outcome : Type 0
Outcome = Result Response

-- The provider capability that the gateway requires. The first argument is the moment of the call,
-- the second the request ID that the context carries.
pub record ClientApi : Type 0 where
  pub provider_name : Bytes
  pub chat : ℕ → Bytes → Bytes → Bool → Outcome
  pub embedding : ℕ → Bytes → Bytes → Outcome

unfoldable pub new_client : Bytes → Bytes → Bytes → Client
new_client name base_url api_key = record {
  name = name;
  base_url = base_url;
  api_key = api_key;
  kind = codes "openai-compatible";
  model_aliases = [];
}

unfoldable pub retry_reason_for_status : ℕ → Bytes
retry_reason_for_status status =
    if status == 429
    then codes "rate_limited"
    else if leb 500 status
    then codes "upstream_5xx"
    else codes "other"

-- What the client puts on the wire.
pub record HttpRequest : Type 0 where
  pub endpoint : Bytes
  pub header : Headers
  pub payload : Bytes

-- What http.Client.Do gives back, with the clock at the start of `doJSON` and the calls of the hooks.
pub data Sent : Type 0 where
  received : (status_code : ℕ) → Headers → Body → (started : ℕ) → List Hook → Sent
  broken : Cause → Sent

-- strings.TrimRight(s, "/")
unfoldable pub trim_right_slash : Bytes → Bytes
trim_right_slash [] = []
trim_right_slash (c ∷ s) =
    let rest = trim_right_slash s in if (c == b'/') && is_empty rest then [] else c ∷ rest

abbrev pub with_request_id : Bytes → Headers → Headers
with_request_id request_id headers =
    if is_empty request_id then headers else insert (codes "X-Request-Id") request_id headers

-- The request of `doJSON`.
unfoldable pub json_request : Client → Bytes → Bytes → Bytes → Bytes → HttpRequest
json_request c request_id endpoint body accept = record {
  endpoint = endpoint;
  header = with_request_id request_id (
      insert (codes "Accept") accept (
        insert (codes "Content-Type") (codes "application/json")
          (insert (codes "Authorization") (codes "Bearer " ++ c.api_key) [])));
  payload = body;
}

-- `doChat`
abbrev pub do_chat : Client → Bytes → Bytes → Bytes → HttpRequest
do_chat c request_id endpoint body =
    json_request c request_id endpoint body (codes "application/json, text/event-stream")

-- `doJSON` on what the transport answers.
unfoldable pub to_response : Sent → Outcome
unfolding run_hooks
to_response (broken cause) = err (call_failed cause)
to_response (received status headers body started hooks) =
    let trace = run_hooks started hooks new_trace in
    ok (record {
      status_code = status;
      header = headers;
      body = body;
      attempts = 0;
      connection_duration = trace.connection_duration;
      first_response_duration = trace.first_response_duration;
      retry_reason = [];
    })

unfoldable pub is_final_status : ℕ → Bool
is_final_status status = ltb status 500 && not (status == 429)

-- The environment of one call.
pub record World : Type 0 where
  -- whether http.NewRequestWithContext accepts a URL
  pub creates : Bytes → Bool
  -- the transport's answer to each attempt
  pub transport : ℕ → HttpRequest → Sent
  -- http.ParseTime, with the time left until then
  pub parse_time : Bytes → Option ℤ
  -- rand.Int below 25 milliseconds
  pub jitter : ℕ → Option ℕ
  -- the error of the context, where it ends the wait of an attempt before its timer does
  pub wait : ℕ → ℕ → Option Cause

abbrev pub millisecond : ℕ
millisecond = 1000000

abbrev pub second : ℕ
second = 1000000000
