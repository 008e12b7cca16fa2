-- ===== src/Provider/Trace.antt =====
-- The trace hooks of `doJSON` and the two durations that they measure.
pub mod Bounds
use go_feather_route.Prelude.{ℕ, ◌-◌, Option, none, some, List, [], ◌∷◌, leb, if◌then◌else◌}
use go_feather_route.Prelude.Int.{ℤ, pos, negsuc}

-- time.Since(then) at a reading of the clock, in nanoseconds.
unfoldable pub since : ℕ → ℕ → ℤ
since then_at now = if leb then_at now then pos (now - then_at) else negsuc (then_at - now - 1)

-- The calls of the hooks, each with the clock that it reads.
pub data Hook : Type 0 where
  connect_start connect_done got_first_response_byte : ℕ → Hook

-- The variables that the hooks write. `none` is the zero time.
pub record Trace : Type 0 where
  pub connect_started : Option ℕ
  pub connection_duration : ℤ
  pub first_response_duration : ℤ

abbrev pub new_trace : Trace
new_trace = record {
  connect_started = none;
  connection_duration = pos 0;
  first_response_duration = pos 0;
}

unfoldable pub connected : ℕ → Option ℕ → Trace → Trace
unfolding since
connected now none t = t
connected now (some then_at) t = record t { connection_duration = since then_at now }

unfoldable pub run_hook : ℕ → Hook → Trace → Trace
unfolding connected since
run_hook started (connect_start now) t = record t { connect_started = some now }
run_hook started (connect_done now) t = connected now t.connect_started t
run_hook started (got_first_response_byte now) t = record t {
  first_response_duration = since started now;
}

-- The hooks of one request that started then, in the order of their calls.
unfoldable pub run_hooks : ℕ → List Hook → Trace → Trace
unfolding run_hook
run_hooks started [] t = t
run_hooks started (hook ∷ hooks) t = run_hooks started hooks (run_hook started hook t)
