-- ===== src/Router/Writer.antt =====
-- The response writer that counts: `metricsResponseWriter`.
pub mod Status
use go_feather_route.Prelude.{ℕ, Bool, true, false, List, [], ◌∷◌, ◌++◌, Bytes, ◌==◌, if◌then◌else◌}
use go_feather_route.Prelude.Int.{add64}

-- The calls that reach the wrapped http.ResponseWriter.
pub data Event : Type 0 where
  wrote_header : ℕ → Event
  wrote : Bytes → Event
  flushed : Event

-- `bytes` is the bit pattern of an int64; `sent` is what the wrapped writer saw, in order.
pub record Writer : Type 0 where
  pub status_code : ℕ
  pub bytes : ℕ
  pub can_flush : Bool
  pub sent : List Event

abbrev pub new_writer : Bool → Writer
new_writer can_flush = record { status_code = 0; bytes = 0; can_flush = can_flush; sent = [] }

unfoldable pub write_header : ℕ → Writer → Writer
write_header status_code w =
    if w.status_code == 0
    then record w { status_code = status_code; sent = w.sent ++ (wrote_header status_code ∷ []) }
    else w

-- `if w.statusCode == 0 { w.WriteHeader(http.StatusOK) }`
unfoldable pub with_status : Writer → Writer
unfolding write_header
with_status w = if w.status_code == 0 then write_header 200 w else w

-- `count` is the number of bytes that the wrapped writer takes.
unfoldable pub write : Bytes → ℕ → Writer → Writer
unfolding with_status
write data' count w =
    let w' = with_status w in
    record w' { bytes = add64 w'.bytes count; sent = w'.sent ++ (wrote data' ∷ []) }

-- The wrapped writer is flushed if it is an http.Flusher.
abbrev pub pass_flush : Writer → Writer
pass_flush w = if w.can_flush then record w { sent = w.sent ++ (flushed ∷ []) } else w

unfoldable pub flush : Writer → Writer
unfolding with_status
flush w = pass_flush (with_status w)

-- A call of a handler.
pub data Call : Type 0 where
  write_header_call : ℕ → Call
  write_call : Bytes → ℕ → Call
  flush_call : Call

unfoldable pub apply : Call → Writer → Writer
unfolding write flush
apply (write_header_call status) w = write_header status w
apply (write_call data' count) w = write data' count w
apply flush_call w = flush w

unfoldable pub run_calls : List Call → Writer → Writer
unfolding apply
run_calls [] w = w
run_calls (call ∷ calls) w = run_calls calls (apply call w)
