-- ===== src/Provider/Call.antt =====
-- `Chat` and `Embedding`, with the requests that they put on the wire.
use go_feather_route.Prelude.{
  ℕ, zero, suc, ◌+◌, Bool, true, not, ◌&&◌, none, some, List, [], ◌∷◌, ◌++◌, Bytes, codes, is_empty,
  ◌==◌, if◌then◌else◌,
}
use go_feather_route.Prelude.Int.{pos}
use go_feather_route.Prelude.Dict.{bytes_eq}
use go_feather_route.Wire.{Cause, Json}
use go_feather_route.Provider.{
  Client, HttpRequest, Outcome, Response, Result, World, create_failed, err, is_final_status,
  json_request, do_chat, not_configured, ok, retry_reason_for_status, to_response, trim_right_slash,
  wait_failed, ◌>>=!◌,
}
use go_feather_route.Provider.Prepare.{prepare_chat_body, prepare_model_body}
use go_feather_route.Provider.Wait.{wait_for_retry}

unfoldable pub create : World → HttpRequest → Result HttpRequest
create world request = if world.creates request.endpoint then ok request else err create_failed

-- A call's result and the requests that it put on the wire.
abbrev pub Traced : Type 0
Traced = Outcome × List HttpRequest

abbrev pub and_before : HttpRequest → Traced → Traced
and_before request (outcome, sent) = (outcome, request ∷ sent)

-- The loop `for attempt := 0; attempt < 2; attempt++`, by the rounds that are left. `may_retry` is
-- `attempt == 0 && !stream` for chat and `attempt == 0` for embeddings.
module _ (world : World) (prepared : Result HttpRequest) (retries_allowed : Bool) where
  abbrev zero_response : Response
  zero_response = record {
    status_code = 0;
    header = [];
    body = record { reads = []; final = []; cause = Cause.eof };
    attempts = 0;
    connection_duration = pos 0;
    first_response_duration = pos 0;
    retry_reason = [];
  }

  unfoldable pub attempt_loop : ℕ → ℕ → Bytes → Traced
  unfolding to_response is_final_status retry_reason_for_status wait_for_retry
  attempt_loop zero attempt retry_reason = (ok zero_response, [])
  attempt_loop (suc rounds) attempt retry_reason = elim prepared [
    | err e ↦ (err e, [])
    | ok request ↦ elim (to_response (world.transport attempt request)) [
      | err e ↦ (err e, request ∷ [])
      | ok raw ↦
          let response = record raw { attempts = attempt + 1; retry_reason = retry_reason } in
          let next = attempt_loop rounds (attempt + 1) (retry_reason_for_status raw.status_code) in
          if is_final_status raw.status_code
          then (ok response, request ∷ [])
          else if (attempt == 0) && retries_allowed
          then elim (wait_for_retry world raw.header attempt) [
            | some cause ↦ (err (wait_failed cause), request ∷ [])
            | none ↦ and_before request next
          ]
          else (ok response, request ∷ [])
    ]
  ]

module _ (json : Json) (world : World) (c : Client) (request_id : Bytes) where
  unfoldable pub chat_request : Bytes → Result HttpRequest
  chat_request body = prepare_chat_body json c body >>=! λ payload.
      create world
        (do_chat c request_id (trim_right_slash c.base_url ++ codes "/chat/completions") payload)

  unfoldable pub embedding_request : Bytes → Result HttpRequest
  embedding_request body = prepare_model_body json c body >>=! λ payload. create world (
      json_request c request_id (trim_right_slash c.base_url ++ codes "/embeddings") payload
        (codes "application/json"))

  unfoldable pub chat : Bytes → Bool → Traced
  unfolding chat_request create attempt_loop
  chat body stream =
      if is_empty c.api_key
      then (err not_configured, [])
      else attempt_loop world (chat_request body) (not stream) 2 0 []

  unfoldable pub embedding : Bytes → Traced
  unfolding embedding_request create attempt_loop
  embedding body =
      if is_empty c.api_key
      then (err not_configured, [])
      else attempt_loop world (embedding_request body) true 2 0 []
