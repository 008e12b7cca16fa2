-- ===== src/Router/Stream/Counted.antt =====
-- The usage that `streamResponseWithUsage` and `collectSSEUsage` gather, against the whole stream.
use mathlib.Core.List.{append_assoc, append-nil}
use go_feather_route.Prelude.{
  ℕ, ◌+◌, ◌≡◌, refl, sym, ap, ◌∙◌, ◌⊎◌, inl, inr, true, false, ◌&&◌, Option, none, some, List, [],
  ◌∷◌, ◌++◌, Bytes, if◌then◌else◌, Bool-cases, Option-cases, arith, ◌==◌,
}
use go_feather_route.Prelude.Int.{ℤ}
use go_feather_route.Wire.{Body, content, concat}
use go_feather_route.Router.Stream.Relayed.{chunk_written, loop_goes_on, regroup}
use go_feather_route.Usage.{parse_sse}
use go_feather_route.Usage.Lines.{both-break}
use go_feather_route.Usage.Joined.{
  IsClosed, closed_nil, IsClosed-append, later, parse_sse-append, parse_sse_nil,
}
use go_feather_route.Router.Stream.{
  Moment, Relay, new_relay, split_last_event, collect_usage, relay_chunk, relay_read, relay_final,
  relay_loop, stream_response_with_usage,
}

-- What the separator's text is split into.
record IsLast (s before after : Bytes) : Type 0 where
  start : Bytes
  ended : before ≡ start ++ (10 ∷ 10 ∷ [])
  joined : s ≡ before ++ after
  open_after : split_last_event after ≡ none

abbrev Splits : Bytes → Type 0
Splits s =
    (before : Bytes) × (after : Bytes) × (split_last_event s ≡ some (before, after))
    × IsLast s before after

IsLast-cons :
    (c : ℕ) {s before after : Bytes} → IsLast s before after → IsLast (c ∷ s) (c ∷ before) after
IsLast-cons c l = record {
  start = c ∷ l.start;
  ended = ap (λ x. c ∷ x) l.ended;
  joined = ap (λ x. c ∷ x) l.joined;
  open_after = l.open_after;
}

IsLast-here :
    (c d : ℕ) (rest : Bytes)
    → ((c == 10) && (d == 10)) ≡ true
    → split_last_event rest ≡ none
    → IsLast (c ∷ d ∷ rest) (10 ∷ 10 ∷ []) rest
IsLast-here c d rest both last = record {
  start = [];
  ended = refl;
  joined = let (e, f) = both-break c d both in rw (e, f) refl;
  open_after = last;
}

split_last_event-rest :
    (d : ℕ) (rest : Bytes) → split_last_event (d ∷ rest) ≡ none → split_last_event rest ≡ none
unfolding split_last_event
split_last_event-rest d rest h = elim (Option-cases (split_last_event rest)) [
  | inl e ↦ e
  | inr (x, e) ↦ absurd (cc (rw e at h))
]

split_last_event-parts : (s : Bytes) → (split_last_event s ≡ none) ⊎ Splits s
unfolding split_last_event
split_last_event-parts [] = inl refl
split_last_event-parts (c ∷ []) = inl refl
split_last_event-parts (c ∷ d ∷ rest) = elim (split_last_event-parts (d ∷ rest)) [
  | inr (before, after, e, l) ↦
      inr (c ∷ before, after, rw (e, split_last_event) refl, IsLast-cons c l)
  | inl e ↦ elim (Bool-cases ((c == 10) && (d == 10))) [
    | inr other ↦ inl (rw (e, split_last_event) (rw other refl))
    | inl both ↦ inr (
      10 ∷ 10 ∷ [],
      rest,
      rw (e, split_last_event) (rw both refl),
      IsLast-here c d rest both (split_last_event-rest d rest e),
    )
  ]
]

module _ (unmarshal : Bytes → Option (ℤ × ℤ × ℤ)) where
  -- The relay after the bytes of `stream`: the usage of its whole events, and the rest of it.
  record Counts (stream : Bytes) (r : Relay) : Type 0 where
    events : Bytes
    closed : IsClosed events
    joined : stream ≡ events ++ r.usage_tail
    usage : r.stream_usage ≡ parse_sse unmarshal events
    open_tail : split_last_event r.usage_tail ≡ none

  chunk-Counts :
      (moment : Moment) (stream chunk : Bytes) (r : Relay)
      → moment.write_fails ≡ false
      → Counts stream r
      → Counts (stream ++ chunk) (relay_chunk unmarshal moment chunk r).0
  unfolding relay_chunk collect_usage later
  chunk-Counts moment stream chunk r fine t =
      let regroup : stream ++ chunk ≡ t.events ++ (r.usage_tail ++ chunk) =
        ap (λ s. s ++ chunk) t.joined ∙ append_assoc t.events r.usage_tail chunk in
      elim (split_last_event-parts (r.usage_tail ++ chunk)) [
        | inl e ↦ rw fine (
            rw (e, collect_usage)
              (record {
                events = t.events;
                closed = t.closed;
                joined = regroup;
                usage = t.usage;
                open_tail = e;
              }))
        | inr (before, after, e, l) ↦ rw fine (
            rw (e, collect_usage)
              (record {
                events = t.events ++ before;
                closed = rw (l.ended) (IsClosed-append t.events l.start);
                joined =
                    regroup
                    ∙ ap (λ s. t.events ++ s) l.joined
                    ∙ sym (append_assoc t.events before after);
                usage =
                    ap (λ u. later u (parse_sse unmarshal before)) t.usage
                    ∙ sym (parse_sse-append unmarshal t.events before t.closed);
                open_tail = l.open_after;
              }))
      ]

  read-Counts :
      (moment : Moment) (stream chunk : Bytes) (r : Relay)
      → (relay_read unmarshal moment chunk r).1 ≡ true
      → Counts stream r
      → Counts (stream ++ chunk) (relay_read unmarshal moment chunk r).0
  unfolding relay_read
  read-Counts moment stream [] r h t = rw (append-nil stream) t
  read-Counts moment stream (c ∷ chunk) r h t =
      chunk-Counts moment stream (c ∷ chunk) r
        (ground (arith, chunk_written unmarshal moment (c ∷ chunk) r)) t

  final-Counts :
      (moment : Moment) (stream : Bytes) (body : Body) (r : Relay)
      → Counts stream r
      → (relay_final unmarshal moment body r).0 ≡ true
      → Counts (stream ++ body.final) (relay_final unmarshal moment body r).1
  unfolding relay_final
  final-Counts moment stream body r t h =
      elim (Bool-cases (relay_read unmarshal moment body.final r).1) [
        | inr lost ↦ absurd (cc (rw lost at h))
        | inl kept ↦ rw (kept, if◌then◌else◌) (read-Counts moment stream body.final r kept t)
      ]

  loop-Counts :
      (at : ℕ → Moment) (index : ℕ) (stream : Bytes) (chunks : List Bytes) (body : Body) (r : Relay)
      → Counts stream r
      → (relay_loop unmarshal at index chunks body r).0 ≡ true
      → Counts
          (stream ++ (concat chunks ++ body.final))
          (relay_loop unmarshal at index chunks body r).1
  unfolding relay_loop concat
  loop-Counts at index stream [] body r t h = final-Counts (at index) stream body r t h
  loop-Counts at index stream (chunk ∷ chunks) body r t h =
      let (kept, running) = loop_goes_on unmarshal at index chunk chunks body r h in
      rw (kept, running, ← regroup stream chunk chunks body.final)
        (loop-Counts at (index + 1) (stream ++ chunk) chunks body
          (relay_read unmarshal (at index) chunk r).0 (read-Counts (at index) stream chunk r kept t)
          (rw (kept, running) at h))

  new-Counts : Counts [] new_relay
  unfolding split_last_event
  new-Counts = record {
    events = [];
    closed = closed_nil;
    joined = refl;
    usage = sym (parse_sse_nil unmarshal);
    open_tail = refl;
  }

  -- However a completed stream is cut into reads, the usage that the relay reports for it is that of
  -- its events: the stream parsed at once has this usage, unless the text after its last empty line,
  -- in which no event ends, tells another.
  pub stream_usage_lem :
      (at : ℕ → Moment) (body : Body)
      → (stream_response_with_usage unmarshal at body).0 ≡ true
      → let relay = (stream_response_with_usage unmarshal at body).1 in
        (parse_sse unmarshal (content body)
          ≡ later relay.stream_usage (parse_sse unmarshal relay.usage_tail))
        × (split_last_event relay.usage_tail ≡ none)
        × (events : Bytes) × (content body ≡ events ++ relay.usage_tail)
        × (relay.stream_usage ≡ parse_sse unmarshal events)
  unfolding stream_response_with_usage content
  stream_usage_lem at body h =
      let rest =
        parse_sse unmarshal (relay_loop unmarshal at 0 body.reads body new_relay).1.usage_tail in
      let t = loop-Counts at 0 [] body.reads body new_relay new-Counts h in
      (
        ap (parse_sse unmarshal) t.joined
            ∙ parse_sse-append unmarshal t.events _ t.closed
            ∙ ap (λ u. later u rest) (sym t.usage),
        t.open_tail,
        t.events,
        t.joined,
        t.usage,
      )
