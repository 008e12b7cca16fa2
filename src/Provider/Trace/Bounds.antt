-- ===== src/Provider/Trace/Bounds.antt =====
-- What the measured durations are.
use go_feather_route.Prelude.{ℕ, ◌+◌, ◌-◌, ◌≤◌, ◌≡◌, refl, Option, none, some, List, [], ◌∷◌, arith}
use go_feather_route.Prelude.Int.{ℤ, pos}
use go_feather_route.Provider.Trace.{
  since, Hook, connect_start, connect_done, got_first_response_byte, Trace, new_trace, connected,
  run_hook, run_hooks,
}

abbrev pub clock : Hook → ℕ
clock (connect_start now) = now
clock (connect_done now) = now
clock (got_first_response_byte now) = now

-- The hooks read a clock that does not run backwards, from `first` to `last`.
abbrev pub InOrder : ℕ → List Hook → ℕ → Type 0
InOrder first [] last = first ≤ last
InOrder first (hook ∷ hooks) last = (first ≤ clock hook) × InOrder (clock hook) hooks last

-- A duration that lies between two readings.
abbrev pub Within : ℕ → ℕ → ℤ → Type 0
Within first last d = (n : ℕ) × (d ≡ pos n) × (first + n ≤ last)

-- The start of a connection, if there was one, is not before the request.
abbrev StartedAfter : ℕ → ℕ → Option ℕ → Type 0
StartedAfter started now none = Unit
StartedAfter started now (some then_at) = (started ≤ then_at) × (then_at ≤ now)

record IsMeasured (started now : ℕ) (t : Trace) : Type 0 where
  start : StartedAfter started now t.connect_started
  connection : Within started now t.connection_duration
  response : Within started now t.first_response_duration

since-Within :
    (started then_at now : ℕ)
    → started ≤ then_at
    → then_at ≤ now
    → Within started now (since then_at now)
unfolding since
since-Within started then_at now a b = (now - then_at, ground arith, omega arith)

Within-later :
    (started now later : ℕ) (d : ℤ) → now ≤ later → Within started now d → Within started later d
Within-later started now later d h (n, e, b) = (n, e, omega arith)

start_later :
    (started now later : ℕ) (o : Option ℕ)
    → now ≤ later
    → StartedAfter started now o
    → StartedAfter started later o
start_later started now later none h s = tt
start_later started now later (some t) h (a, b) = (a, omega arith)

later-IsMeasured :
    (started now later : ℕ) (t : Trace)
    → now ≤ later
    → IsMeasured started now t
    → IsMeasured started later t
later-IsMeasured started now later t h m = record {
  start = start_later started now later t.connect_started h m.start;
  connection = Within-later started now later _ h m.connection;
  response = Within-later started now later _ h m.response;
}

connected-IsMeasured :
    (started now : ℕ) (o : Option ℕ) (t : Trace)
    → StartedAfter started now o
    → IsMeasured started now t
    → IsMeasured started now (connected now o t)
unfolding connected
connected-IsMeasured started now none t s m = m
connected-IsMeasured started now (some then_at) t (a, b) m = record {
  start = m.start;
  connection = since-Within started then_at now a b;
  response = m.response;
}

run_hook-IsMeasured :
    (started now : ℕ) (hook : Hook) (t : Trace)
    → started ≤ now
    → now ≤ clock hook
    → IsMeasured started now t
    → IsMeasured started (clock hook) (run_hook started hook t)
unfolding run_hook
run_hook-IsMeasured started now (connect_start n) t a h m =
    let m' = later-IsMeasured started now n t h m in
    record {
      start = (omega arith, omega arith);
      connection = m'.connection;
      response = m'.response;
    }
run_hook-IsMeasured started now (connect_done n) t a h m =
    let m' = later-IsMeasured started now n t h m in
    connected-IsMeasured started n t.connect_started t m'.start m'
run_hook-IsMeasured started now (got_first_response_byte n) t a h m =
    let m' = later-IsMeasured started now n t h m in
    record {
      start = m'.start;
      connection = m'.connection;
      response = since-Within started started n (omega arith) (omega arith);
    }

run_hooks-IsMeasured :
    (started now last : ℕ) (hooks : List Hook) (t : Trace)
    → started ≤ now
    → InOrder now hooks last
    → IsMeasured started now t
    → IsMeasured started last (run_hooks started hooks t)
unfolding run_hooks
run_hooks-IsMeasured started now last [] t a h m = later-IsMeasured started now last t h m
run_hooks-IsMeasured started now last (hook ∷ hooks) t a (b, h) m =
    run_hooks-IsMeasured started (clock hook) last hooks (run_hook started hook t) (omega arith) h
      (run_hook-IsMeasured started now hook t a b m)

-- Where the clock does not run backwards, the two durations of a response, however the hooks are
-- called, are not negative and at most the time that its request took.
pub run_hooks-Within :
    (started last : ℕ) (hooks : List Hook)
    → InOrder started hooks last
    → Within started last (run_hooks started hooks new_trace).connection_duration
      × Within started last (run_hooks started hooks new_trace).first_response_duration
run_hooks-Within started last hooks h =
    let m = run_hooks-IsMeasured started started last hooks new_trace (omega arith) h (record {
      start = tt;
      connection = (0, refl, omega arith);
      response = (0, refl, omega arith);
    }) in
    (m.connection, m.response)
