-- ===== src/Router/Stream.antt =====
-- The relay of a stream: `streamResponseWithUsage`.
pub mod Relayed
pub mod Counted
use go_feather_route.Prelude.{
  ℕ, zero, suc, ◌+◌, Bool, true, false, not, ◌&&◌, ◌||◌, Option, none, some, List, [], ◌∷◌, ◌++◌,
  Bytes, codes, length, is_empty, has_prefix, ◌==◌, if◌then◌else◌,
}
use go_feather_route.Prelude.Int.{ℤ, pos, negsuc, not_positive}
use go_feather_route.Wire.{Body, Cause, eof, deadline_exceeded, is_eof}
use go_feather_route.Usage.{Tokens, no_tokens, parse_sse}
use go_feather_route.Router.DoneMarker.{stream_contains_done, scan}

-- What surrounds one read: whether the watchdog has expired when it returns, whether the client takes
-- the chunk, and the time since the start.
pub record Moment : Type 0 where
  pub expired : Bool
  pub write_fails : Bool
  pub since_start : ℤ

-- The variables of the loop, with what was written to the client.
pub record Relay : Type 0 where
  pub first_byte : ℤ
  pub stream_usage : Tokens
  pub usage_tail : Bytes
  pub stream_tail : Bytes
  pub done : Bool
  pub written : Bytes

abbrev pub new_relay : Relay
new_relay = record {
  first_byte = pos 0;
  stream_usage = no_tokens;
  usage_tail = [];
  stream_tail = [];
  done = false;
  written = [];
}

-- The text up to and with its last separator "\n\n", and the text after it.
unfoldable pub split_last_event : Bytes → Option (Bytes × Bytes)
split_last_event [] = none
split_last_event (c ∷ s) = elim (split_last_event s) [
  | some (before, after) ↦ some (c ∷ before, after)
  | none ↦ elim s [
    | [] ↦ none
    | d ∷ rest ↦ if (c == 10) && (d == 10) then some (10 ∷ 10 ∷ [], rest) else none
  ]
]

abbrev pub is_zero_duration : ℤ → Bool
is_zero_duration (pos zero) = true
is_zero_duration _ = false

module _ (unmarshal : Bytes → Option (ℤ × ℤ × ℤ)) where
  -- The usage of the whole events that the tail with a chunk holds, and the new tail.
  unfoldable pub collect_usage : Bytes → Tokens → Tokens × Bytes
  unfolding split_last_event
  collect_usage usage_tail stream_usage = elim (split_last_event usage_tail) [
    | none ↦ (stream_usage, usage_tail)
    | some (events, rest) ↦
        let parsed = parse_sse unmarshal events in
        ((if not_positive parsed.total then stream_usage else parsed), rest)
  ]

  -- A chunk that is not empty, or the write error of the client.
  unfoldable pub relay_chunk : Moment → Bytes → Relay → Relay × Bool
  unfolding collect_usage
  relay_chunk moment chunk r =
      let first_byte = if is_zero_duration r.first_byte then moment.since_start else r.first_byte in
      if moment.write_fails
      then (record r { first_byte = first_byte }, false)
      else (let (usage, usage_tail) = collect_usage (r.usage_tail ++ chunk) r.stream_usage in
          let (seen, stream_tail) = stream_contains_done r.stream_tail chunk in
          (
            record {
              first_byte = first_byte;
              stream_usage = usage;
              usage_tail = usage_tail;
              stream_tail = stream_tail;
              done = r.done || seen;
              written = r.written ++ chunk;
            },
            true,
          ))

  unfoldable pub relay_read : Moment → Bytes → Relay → Relay × Bool
  unfolding relay_chunk
  relay_read moment [] r = (r, true)
  relay_read moment (c ∷ chunk) r = relay_chunk moment (c ∷ chunk) r

  -- The error that the loop sees after a read.
  abbrev pub seen_cause : Moment → Cause → Cause
  seen_cause moment cause = if moment.expired then deadline_exceeded else cause

  -- The last read, with the error of the body.
  unfoldable pub relay_final : Moment → Body → Relay → Bool × Relay
  unfolding relay_read
  relay_final moment body r =
      let (r', written) = relay_read moment body.final r in
      if written then (r'.done && is_eof (seen_cause moment body.cause), r') else (false, r')

  -- The reads of the loop in turn; `at` gives the moment of each.
  unfoldable pub relay_loop : (ℕ → Moment) → ℕ → List Bytes → Body → Relay → Bool × Relay
  unfolding relay_final
  relay_loop at index [] body r = relay_final (at index) body r
  relay_loop at index (chunk ∷ chunks) body r =
      let (r', written) = relay_read (at index) chunk r in
      let rest = relay_loop at (index + 1) chunks body r' in
      if not written then (false, r') else if (at index).expired then (false, r') else rest

  -- Whether the stream completed, and the variables at the end.
  unfoldable pub stream_response_with_usage : (ℕ → Moment) → Body → Bool × Relay
  unfolding relay_loop
  stream_response_with_usage at body = relay_loop at 0 body.reads body new_relay

  -- The same without the usage.
  unfoldable pub stream_response : (ℕ → Moment) → Body → Bool × ℤ
  unfolding stream_response_with_usage
  stream_response at body =
      let (completed, relay) = stream_response_with_usage at body in (completed, relay.first_byte)
