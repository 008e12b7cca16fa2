-- ===== src/Router/Watchdog.antt =====
-- The watchdog of a stream: `newStreamWatchdog`, its goroutine, `Reset`, `Expired` and `Stop`.
pub mod Idle
use go_feather_route.Prelude.{ℕ, ◌+◌, ◌≤◌, ◌≡◌, Bool, true, false, not, if◌then◌else◌}
use go_feather_route.Prelude.Int.{ℤ, not_positive, to_nat}

-- `running` is false once the channel `done` is closed; `pending` is the one place of the channel
-- `reset`. The timer fires at `deadline`. `armed` is the time when it was last set.
pub record Watchdog : Type 0 where
  pub timeout : ℤ
  pub pending : Bool
  pub stop_closed : Bool
  pub expired : Bool
  pub running : Bool
  pub reader_closed : Bool
  pub deadline : ℕ
  pub armed : ℕ
  pub now : ℕ

unfoldable pub new_stream_watchdog : ℤ → ℕ → Watchdog
new_stream_watchdog timeout now = record {
  timeout = timeout;
  pending = false;
  stop_closed = false;
  expired = false;
  running = not (not_positive timeout);
  reader_closed = false;
  deadline = now + to_nat timeout;
  armed = now;
  now = now;
}

-- `Reset`: a place that is taken is left as it is.
unfoldable pub reset : Watchdog → Watchdog
reset w = record w { pending = true }

-- The three cases of the goroutine's select. A value that the timer sent before it was stopped is
-- taken out of its channel.
unfoldable pub handle_reset : Watchdog → Watchdog
handle_reset w = record w { pending = false; deadline = w.now + to_nat w.timeout; armed = w.now }

unfoldable pub fire : Watchdog → Watchdog
fire w = record w { expired = true }

-- What follows the timer's value, each a step of its own: `reader.Close()`, and the return with its
-- deferred `close(done)`.
unfoldable pub close_reader : Watchdog → Watchdog
close_reader w = record w { reader_closed = true }

unfoldable pub return_closed : Watchdog → Watchdog
return_closed w = record w { running = false }

unfoldable pub handle_stop : Watchdog → Watchdog
handle_stop w = record w { running = false }

-- `Stop` up to its wait for `done`: a watchdog that is done is left as it is.
unfoldable pub stop : Watchdog → Watchdog
stop w = if w.running then record w { stop_closed = true } else w

abbrev pub pass : ℕ → Watchdog → Watchdog
pass time w = record w { now = w.now + time }

-- What happens to a watchdog, in any order; a select takes any of its cases that are ready. Once the
-- goroutine has taken the timer's value, which `expired` tells, it is at its select no more.
pub data Step : Watchdog → Watchdog → Type 0 where
  time_passes : (w : Watchdog) (time : ℕ) → Step w (pass time w)
  reset_called : (w : Watchdog) → Step w (reset w)
  stop_called : (w : Watchdog) → Step w (stop w)
  reset_handled :
      (w : Watchdog)
      → w.running ≡ true
      → w.expired ≡ false
      → w.pending ≡ true
      → Step w (handle_reset w)
  timer_fired :
      (w : Watchdog) → w.running ≡ true → w.expired ≡ false → w.deadline ≤ w.now → Step w (fire w)
  stop_handled :
      (w : Watchdog)
      → w.running ≡ true
      → w.expired ≡ false
      → w.stop_closed ≡ true
      → Step w (handle_stop w)
  reader_shut :
      (w : Watchdog)
      → w.running ≡ true
      → w.expired ≡ true
      → w.reader_closed ≡ false
      → Step w (close_reader w)
  returned : (w : Watchdog) → w.running ≡ true → w.reader_closed ≡ true → Step w (return_closed w)

pub data Reached (timeout : ℤ) (start : ℕ) : Watchdog → Type 0 where
  created : Reached timeout start (new_stream_watchdog timeout start)
  goes_on : {w w' : Watchdog} → Reached timeout start w → Step w w' → Reached timeout start w'
