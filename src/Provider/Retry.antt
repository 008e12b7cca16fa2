-- ===== src/Provider/Retry.antt =====
-- How often a call goes on the wire, and what its response records.
use go_feather_route.Prelude.{
  leb, ◌==◌, ℕ, ◌≤◌, ◌≡◌, refl, inl, inr, Bool, true, false, not, [], ◌∷◌, Bytes, codes, is_empty,
  length, Bool-cases, arith,
}
use go_feather_route.Wire.{Cause, Json}
use go_feather_route.Provider.{
  Client, Response, Result, ok, err, Failure, not_configured, call_failed, wait_failed, World,
  HttpRequest, broken, to_response, is_final_status, retry_reason_for_status,
}
use go_feather_route.Provider.Call.{
  Traced, attempt_loop, chat_request, embedding_request, chat, embedding,
}
use go_feather_route.Provider.Loop.{
  Ends, broke_first, answered_first, gave_up, broke_second, answered_second, loop_broken, loop-Ends,
}

-- What the reason of a retry says of the status that led to it.
pub data HasReason (status : ℕ) : Bytes → Type 0 where
  rate_limited : status ≡ 429 → HasReason status (codes "rate_limited")
  upstream_5xx : 500 ≤ status → HasReason status (codes "upstream_5xx")

-- How a call may end that sends at most `most` requests: it fails before the first request, after it, or
-- after a second one that is the same; or it has the answer to its one request, with no reason of a retry;
-- or it has the answer to a second request, the same as the first, with the reason that the status of the
-- first answer gives.
pub data IsBounded (world : World) (most : ℕ) : Traced → Type 0 where
  refused : (e : Failure) → IsBounded world most (err e, [])
  failed_first :
      (e : Failure) (request : HttpRequest) → 1 ≤ most → IsBounded world most (err e, request ∷ [])
  failed_second :
      (e : Failure) (request : HttpRequest)
      → 2 ≤ most
      → IsBounded world most (err e, request ∷ request ∷ [])
  first :
      (r raw : Response) (request : HttpRequest)
      → 1 ≤ most
      → to_response (world.transport 0 request) ≡ ok raw
      → r ≡ record raw { attempts = 1; retry_reason = [] }
      → IsBounded world most (ok r, request ∷ [])
  second :
      (r raw raw' : Response) (request : HttpRequest)
      → 2 ≤ most
      → to_response (world.transport 0 request) ≡ ok raw
      → to_response (world.transport 1 request) ≡ ok raw'
      → HasReason raw.status_code r.retry_reason
      → r ≡ record raw' { attempts = 2; retry_reason = r.retry_reason }
      → IsBounded world most (ok r, request ∷ request ∷ [])

-- The requests that a call may send: a second one only where retries are allowed.
abbrev pub most_requests : Bool → ℕ
most_requests true = 2
most_requests false = 1

retry_reason-HasReason :
    (status : ℕ)
    → is_final_status status ≡ false
    → HasReason status (retry_reason_for_status status)
unfolding is_final_status retry_reason_for_status
retry_reason-HasReason status h = elim (Bool-cases (status == 429)) [
  | inl limited ↦ rw limited (rate_limited (ground arith))
  | inr other ↦ elim (Bool-cases (leb 500 status)) [
    | inl failing ↦ rw (other, failing) (upstream_5xx (ground arith))
    | inr final ↦ absurd (ground arith)
  ]
]

one-le : (allowed : Bool) → 1 ≤ most_requests allowed
one-le true = omega arith
one-le false = omega arith

Ends-IsBounded :
    {world : World} {request : HttpRequest} {allowed : Bool} {t : Traced}
    → Ends world request allowed t
    → IsBounded world (most_requests allowed) t
Ends-IsBounded {allowed} (broke_first e h) = failed_first e _ (one-le allowed)
Ends-IsBounded {allowed} (answered_first raw h w) = first _ raw _ (one-le allowed) h refl
Ends-IsBounded {allowed} (gave_up cause raw h again y) =
    failed_first (wait_failed cause) _ (one-le allowed)
Ends-IsBounded {allowed} (broke_second e raw h again y) = failed_second e _ (rw y (omega arith))
Ends-IsBounded {allowed} (answered_second raw raw' h h' again y) =
    second _ raw raw' _ (rw y (omega arith)) h h' (retry_reason-HasReason raw.status_code again)
      refl

attempt_loop-IsBounded :
    (world : World) (prepared : Result HttpRequest) (allowed : Bool)
    → IsBounded world (most_requests allowed) (attempt_loop world prepared allowed 2 0 [])
attempt_loop-IsBounded world (ok request) allowed = Ends-IsBounded (loop-Ends world request allowed)
attempt_loop-IsBounded world (err e) allowed = unfold attempt_loop in refused e

-- A chat call sends at most two requests, and at most one of a streaming chat; a second request is
-- the first one again, also where the call fails; its response is the answer to the last request, with
-- the number of requests as its attempts; and the reason of a retry is "rate_limited" only where the first
-- answer had the status 429, "upstream_5xx" only where it had a status from 500 on, and empty without one.
pub chat-IsBounded :
    (json : Json) (world : World) (c : Client) (request_id body : Bytes) (stream : Bool)
    → IsBounded world (most_requests (not stream)) (chat json world c request_id body stream)
unfolding chat
chat-IsBounded json world c request_id body stream = elim (Bool-cases (is_empty c.api_key)) [
  | inl missing ↦ rw missing (refused not_configured)
  | inr present ↦
      rw present
        (attempt_loop-IsBounded world (chat_request json world c request_id body) (not stream))
]

-- An embeddings call sends at most two requests, and its response tells of them in the same way.
pub embedding-IsBounded :
    (json : Json) (world : World) (c : Client) (request_id body : Bytes)
    → IsBounded world 2 (embedding json world c request_id body)
unfolding embedding
embedding-IsBounded json world c request_id body = elim (Bool-cases (is_empty c.api_key)) [
  | inl missing ↦ rw missing (refused not_configured)
  | inr present ↦
      rw present
        (attempt_loop-IsBounded world (embedding_request json world c request_id body) true)
]

broken_loop :
    (world : World) (prepared : Result HttpRequest) (allowed : Bool) (cause : Cause)
    → ((request : HttpRequest) → world.transport 0 request ≡ broken cause)
    → (length (attempt_loop world prepared allowed 2 0 []).1 ≤ 1)
      × ((e : Failure) × ((attempt_loop world prepared allowed 2 0 []).0 ≡ err e))
broken_loop world (err e) allowed cause h = unfold attempt_loop in (omega arith, (e, refl))
broken_loop world (ok request) allowed cause h =
    rw
      (loop_broken world request allowed (call_failed cause) (unfold to_response in rw (h request)))
      (omega arith, (call_failed cause, refl))

-- A transport error is never replayed: where the transport fails on the first attempt, a chat call
-- fails, and it has sent one request at most.
pub chat-broken :
    (json : Json) (world : World) (c : Client) (request_id body : Bytes) (stream : Bool)
    (cause : Cause)
    → ((request : HttpRequest) → world.transport 0 request ≡ broken cause)
    → (length (chat json world c request_id body stream).1 ≤ 1)
      × ((e : Failure) × ((chat json world c request_id body stream).0 ≡ err e))
unfolding chat
chat-broken json world c request_id body stream cause h = elim (Bool-cases (is_empty c.api_key)) [
  | inl missing ↦ rw missing (omega arith, (not_configured, refl))
  | inr present ↦
      rw present
        (broken_loop world (chat_request json world c request_id body) (not stream) cause h)
]
