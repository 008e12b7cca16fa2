-- ===== src/Router/Watchdog/Idle.antt =====
-- When the watchdog expires and closes the reader, and when it no longer can.
use go_feather_route.Prelude.{
  ℕ, ◌+◌, ◌≤◌, ◌≡◌, refl, sym, ap, subst, inl, inr, Bool, true, false, not, Bool-cases, arith,
  if◌then◌else◌,
}
use go_feather_route.Prelude.Int.{ℤ, not_positive, to_nat}
use go_feather_route.Router.Watchdog.{
  Watchdog, new_stream_watchdog, reset, handle_reset, fire, close_reader, return_closed,
  handle_stop, stop, Step, time_passes, reset_called, stop_called, reset_handled, timer_fired,
  stop_handled, reader_shut, returned, Reached, created, goes_on,
}

record IsTimed (timeout : ℤ) (w : Watchdog) : Type 0 where
  same : w.timeout ≡ timeout
  positive : w.running ≡ true → not_positive timeout ≡ false
  due : w.deadline ≡ w.armed + to_nat timeout
  idle : w.expired ≡ true → w.deadline ≤ w.now
  positive_expired : w.expired ≡ true → not_positive timeout ≡ false
  closed : w.reader_closed ≡ true → w.expired ≡ true
  ended : w.expired ≡ true → w.running ≡ false → w.reader_closed ≡ true

not-true : (b : Bool) → not b ≡ true → b ≡ false
not-true true h = cc
not-true false h = refl

created-IsTimed : (timeout : ℤ) (start : ℕ) → IsTimed timeout (new_stream_watchdog timeout start)
unfolding new_stream_watchdog
created-IsTimed timeout start = record {
  same = refl;
  positive = λ h. not-true (not_positive timeout) h;
  due = refl;
  idle = λ h. absurd (cc h);
  positive_expired = λ h. absurd (cc h);
  closed = λ h. absurd (cc h);
  ended = λ h. absurd (cc h);
}

stop_running : (w : Watchdog) → w.running ≡ true → stop w ≡ record w { stop_closed = true }
unfolding stop
stop_running w h = ap (λ b. if b then record w { stop_closed = true } else w) h

stop_done : (w : Watchdog) → w.running ≡ false → stop w ≡ w
unfolding stop
stop_done w h = ap (λ b. if b then record w { stop_closed = true } else w) h

Step-IsTimed : (timeout : ℤ) (w w' : Watchdog) → Step w w' → IsTimed timeout w → IsTimed timeout w'
unfolding reset handle_reset fire handle_stop close_reader return_closed
Step-IsTimed timeout _ _ (time_passes w time) t = record {
  same = t.same;
  positive = t.positive;
  due = t.due;
  idle = λ h. let due = t.idle h in omega (arith, due);
  positive_expired = t.positive_expired;
  closed = t.closed;
  ended = t.ended;
}
Step-IsTimed timeout _ _ (reset_called w) t = record {
  same = t.same;
  positive = t.positive;
  due = t.due;
  idle = t.idle;
  positive_expired = t.positive_expired;
  closed = t.closed;
  ended = t.ended;
}
Step-IsTimed timeout _ _ (stop_called w) t = elim (Bool-cases w.running) [
  | inl running ↦ subst (IsTimed timeout) (sym (stop_running w running)) (record {
    same = t.same;
    positive = t.positive;
    due = t.due;
    idle = t.idle;
    positive_expired = t.positive_expired;
    closed = t.closed;
    ended = t.ended;
  })
  | inr done ↦ subst (IsTimed timeout) (sym (stop_done w done)) t
]
Step-IsTimed timeout _ _ (reset_handled w running unexpired pending) t = record {
  same = t.same;
  positive = t.positive;
  due = ap (λ d. w.now + to_nat d) t.same;
  idle = λ h. absurd (cc (h, unexpired));
  positive_expired = t.positive_expired;
  closed = t.closed;
  ended = t.ended;
}
Step-IsTimed timeout _ _ (timer_fired w running unexpired passed) t = record {
  same = t.same;
  positive = t.positive;
  due = t.due;
  idle = λ h. passed;
  positive_expired = λ h. t.positive running;
  closed = λ h. refl;
  ended = λ h k. absurd (cc (running, k));
}
Step-IsTimed timeout _ _ (stop_handled w running unexpired closed) t = record {
  same = t.same;
  positive = λ h. absurd (cc h);
  due = t.due;
  idle = t.idle;
  positive_expired = t.positive_expired;
  closed = t.closed;
  ended = λ h. absurd (cc (h, unexpired));
}
Step-IsTimed timeout _ _ (reader_shut w running expired unclosed) t = record {
  same = t.same;
  positive = t.positive;
  due = t.due;
  idle = t.idle;
  positive_expired = t.positive_expired;
  closed = λ h. expired;
  ended = λ h k. refl;
}
Step-IsTimed timeout _ _ (returned w running closed) t = record {
  same = t.same;
  positive = λ h. absurd (cc h);
  due = t.due;
  idle = t.idle;
  positive_expired = t.positive_expired;
  closed = t.closed;
  ended = λ h k. closed;
}

Reached-IsTimed :
    (timeout : ℤ) (start : ℕ) (w : Watchdog) → Reached timeout start w → IsTimed timeout w
Reached-IsTimed timeout start w created = created-IsTimed timeout start
Reached-IsTimed timeout start w (goes_on r step) =
    Step-IsTimed timeout _ _ step (Reached-IsTimed timeout start _ r)

-- The timeout is positive and has passed since the timer was last set.
abbrev pub IsOverdue : ℤ → Watchdog → Type 0
IsOverdue timeout w = (not_positive timeout ≡ false) × (w.armed + to_nat timeout ≤ w.now)

-- Neither expired nor closed; or expired, and the goroutine has yet to end; or done with the reader
-- closed.
pub data IsTimely (timeout : ℤ) (w : Watchdog) : Type 0 where
  silent : w.expired ≡ false → w.reader_closed ≡ false → IsTimely timeout w
  expiring : w.expired ≡ true → w.running ≡ true → IsOverdue timeout w → IsTimely timeout w
  shut :
      w.expired ≡ true
      → w.running ≡ false
      → w.reader_closed ≡ true
      → IsOverdue timeout w
      → IsTimely timeout w

-- However a watchdog's goroutine and its callers interleave: where it has not expired, it has not closed
-- the reader; where it has, its timeout is positive and its timer was last set, when it started or took a
-- reset, at least the timeout ago; and once its goroutine has ended after that, the reader is closed.
pub Reached-IsTimely :
    (timeout : ℤ) (start : ℕ) (w : Watchdog) → Reached timeout start w → IsTimely timeout w
Reached-IsTimely timeout start w r =
    let t = Reached-IsTimed timeout start w r in
    let due = t.due in
    elim (Bool-cases w.expired) [
      | inr unexpired ↦ elim (Bool-cases w.reader_closed) [
        | inl closed ↦ absurd (cc (t.closed closed, unexpired))
        | inr unclosed ↦ silent unexpired unclosed
      ]
      | inl expired ↦
          let idle = t.idle expired in
          let overdue : IsOverdue timeout w =
            (t.positive_expired expired, omega (arith, due, idle)) in
          elim (Bool-cases w.running) [
            | inl running ↦ expiring expired running overdue
            | inr ended ↦ shut expired ended (t.ended expired ended) overdue
          ]
    ]

-- A watchdog that is done: what it has done stays, whatever is called after that.
pub data Later : Watchdog → Watchdog → Type 0 where
  now : {w : Watchdog} → Later w w
  after : {w w' w'' : Watchdog} → Later w w' → Step w' w'' → Later w w''

record IsQuiet (w w' : Watchdog) : Type 0 where
  running : w'.running ≡ false
  expired : w'.expired ≡ w.expired
  reader_closed : w'.reader_closed ≡ w.reader_closed

Step-IsQuiet : (w v v' : Watchdog) → Step v v' → IsQuiet w v → IsQuiet w v'
unfolding reset
Step-IsQuiet w _ _ (time_passes v time) q = record {
  running = q.running;
  expired = q.expired;
  reader_closed = q.reader_closed;
}
Step-IsQuiet w _ _ (reset_called v) q = record {
  running = q.running;
  expired = q.expired;
  reader_closed = q.reader_closed;
}
Step-IsQuiet w _ _ (stop_called v) q = subst (IsQuiet w) (sym (stop_done v q.running)) q
Step-IsQuiet w _ _ (reset_handled v running unexpired pending) q = absurd (cc (q.running))
Step-IsQuiet w _ _ (timer_fired v running unexpired passed) q = absurd (cc (q.running))
Step-IsQuiet w _ _ (stop_handled v running unexpired closed) q = absurd (cc (q.running))
Step-IsQuiet w _ _ (reader_shut v running expired unclosed) q = absurd (cc (q.running))
Step-IsQuiet w _ _ (returned v running closed) q = absurd (cc (q.running))

-- Once `Stop` has seen the watchdog done, it neither expires nor closes the reader any more.
pub done_quiet :
    (w w' : Watchdog)
    → w.running ≡ false
    → Later w w'
    → (w'.expired ≡ w.expired) × (w'.reader_closed ≡ w.reader_closed)
done_quiet w w' done later = let q = quiet w' later in (q.expired, q.reader_closed)
  where
    quiet : (v : Watchdog) → Later w v → IsQuiet w v
    quiet v now = record { running = done; expired = refl; reader_closed = refl }
    quiet v (after l step) = Step-IsQuiet w _ v step (quiet _ l)
