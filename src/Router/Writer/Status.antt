-- ===== src/Router/Writer/Status.antt =====
-- The status that is counted, against the one that is sent.
use go_feather_route.Prelude.{
  ℕ, ◌≡◌, refl, sym, ap, subst, ◌∙◌, inl, inr, Bool, true, false, List, [], ◌∷◌, ◌++◌, ◌==◌,
  Bool-cases, if◌then◌else◌,
}
use go_feather_route.Router.Writer.{
  Event, wrote_header, wrote, flushed, Writer, new_writer, write_header, with_status, write,
  pass_flush, flush, Call, write_header_call, write_call, flush_call, apply, run_calls,
}

-- The statuses that the wrapped writer was told.
unfoldable pub statuses : List Event → List ℕ
statuses [] = []
statuses (wrote_header status ∷ events) = status ∷ statuses events
statuses (wrote _ ∷ events) = statuses events
statuses (flushed ∷ events) = statuses events

statuses-append : (l l' : List Event) → statuses (l ++ l') ≡ statuses l ++ statuses l'
unfolding statuses
statuses-append [] l' = refl
statuses-append (wrote_header status ∷ l) l' = ap (λ x. status ∷ x) (statuses-append l l')
statuses-append (wrote d ∷ l) l' = statuses-append l l'
statuses-append (flushed ∷ l) l' = statuses-append l l'

-- The status was sent first, it is the one that is kept, and no other was sent after it.
pub record IsBegun (status : ℕ) (w : Writer) : Type 0 where
  pub kept : w.status_code ≡ status
  pub events : List Event
  pub first : w.sent ≡ wrote_header status ∷ events
  pub once : statuses events ≡ []

abbrev pub IsStatus : Call → Type 0
IsStatus (write_header_call status) = (status == 0) ≡ false
IsStatus _ = Unit

-- The status of a reply that begins with a call.
abbrev pub first_status : Call → ℕ
first_status (write_header_call status) = status
first_status _ = 200

silent :
    (events : List Event) (e : Event)
    → statuses events ≡ []
    → statuses (e ∷ []) ≡ []
    → statuses (events ++ (e ∷ [])) ≡ []
silent events e h k = statuses-append events (e ∷ []) ∙ rw (h, k) refl

first-IsBegun :
    (call : Call) (can_flush : Bool)
    → IsBegun (first_status call) (apply call (new_writer can_flush))
unfolding apply write flush with_status write_header statuses
first-IsBegun (write_header_call status) f = record {
  kept = refl;
  events = [];
  first = refl;
  once = refl;
}
first-IsBegun (write_call d n) f = record {
  kept = refl;
  events = wrote d ∷ [];
  first = refl;
  once = refl;
}
first-IsBegun flush_call true = record {
  kept = refl;
  events = flushed ∷ [];
  first = refl;
  once = refl;
}
first-IsBegun flush_call false = record { kept = refl; events = []; first = refl; once = refl }

-- One more event that is no status.
after-IsBegun :
    (status : ℕ) (w w' : Writer) (e : Event)
    → statuses (e ∷ []) ≡ []
    → w'.status_code ≡ w.status_code
    → w'.sent ≡ w.sent ++ (e ∷ [])
    → IsBegun status w
    → IsBegun status w'
after-IsBegun status w w' e h same added b = record {
  kept = same ∙ b.kept;
  events = b.events ++ (e ∷ []);
  first = added ∙ ap (λ l. l ++ (e ∷ [])) b.first;
  once = silent b.events e b.once h;
}

with_status_lem :
    (status : ℕ) (w : Writer) → (status == 0) ≡ false → w.status_code ≡ status → with_status w ≡ w
unfolding with_status
with_status_lem status w h e =
    ap (λ b. if b then write_header 200 w else w) (ap (λ n. n == 0) e ∙ h)

write_header_lem :
    (status code : ℕ) (w : Writer)
    → (status == 0) ≡ false
    → w.status_code ≡ status
    → write_header code w ≡ w
unfolding write_header
write_header_lem status code w h e =
    ap
      (λ b.
        if b then record w { status_code = code; sent = w.sent ++ (wrote_header code ∷ []) } else w)
      (ap (λ n. n == 0) e ∙ h)

pass_flush-IsBegun : (status : ℕ) (w : Writer) → IsBegun status w → IsBegun status (pass_flush w)
unfolding statuses
pass_flush-IsBegun status w b = elim (Bool-cases w.can_flush) [
  | inl can ↦
      let same = ap (λ c. if c then record w { sent = w.sent ++ (flushed ∷ []) } else w) can in
      after-IsBegun status w (pass_flush w) flushed refl (ap (λ (v : Writer). v.status_code) same)
        (ap (λ (v : Writer). v.sent) same) b
  | inr cannot ↦
      subst (IsBegun status)
        (sym (ap (λ c. if c then record w { sent = w.sent ++ (flushed ∷ []) } else w) cannot)) b
]

apply-IsBegun :
    (status : ℕ) (call : Call) (w : Writer)
    → (status == 0) ≡ false
    → IsBegun status w
    → IsBegun status (apply call w)
unfolding apply write flush statuses
apply-IsBegun status (write_header_call code) w h b =
    subst (IsBegun status) (sym (write_header_lem status code w h b.kept)) b
apply-IsBegun status (write_call d n) w h b =
    let same = with_status_lem status w h b.kept in
    after-IsBegun status w _ (wrote d) refl (ap (λ (v : Writer). v.status_code) same)
      (ap (λ (v : Writer). v.sent ++ (wrote d ∷ [])) same) b
apply-IsBegun status flush_call w h b =
    subst (IsBegun status) (ap pass_flush (sym (with_status_lem status w h b.kept)))
      (pass_flush-IsBegun status w b)

run-IsBegun :
    (status : ℕ) (calls : List Call) (w : Writer)
    → (status == 0) ≡ false
    → IsBegun status w
    → IsBegun status (run_calls calls w)
unfolding run_calls
run-IsBegun status [] w h b = b
run-IsBegun status (call ∷ calls) w h b =
    run-IsBegun status calls (apply call w) h (apply-IsBegun status call w h b)

first_status_ne : (call : Call) → IsStatus call → (first_status call == 0) ≡ false
first_status_ne (write_header_call status) h = h
first_status_ne (write_call d n) h = refl
first_status_ne flush_call h = refl

-- Where the first call of a handler is not WriteHeader(0), which net/http answers with a panic, the client
-- is told exactly one status, whatever is called after that, before anything else, and it is the one that
-- is kept for the counters: that of the first call where this is WriteHeader, and else 200.
pub run_calls-IsBegun :
    (call : Call) (calls : List Call) (can_flush : Bool)
    → IsStatus call
    → IsBegun (first_status call) (run_calls (call ∷ calls) (new_writer can_flush))
unfolding run_calls
run_calls-IsBegun call calls can_flush h =
    run-IsBegun (first_status call) calls (apply call (new_writer can_flush))
      (first_status_ne call h) (first-IsBegun call can_flush)
