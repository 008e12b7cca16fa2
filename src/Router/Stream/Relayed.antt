-- ===== src/Router/Stream/Relayed.antt =====
-- What reaches the client, and when a stream counts as completed.
use mathlib.Core.List.{append_assoc, append-nil}
use go_feather_route.Prelude.{
  ℕ, ◌+◌, ◌≡◌, refl, sym, ap, ◌∙◌, inl, inr, true, false, not, ◌&&◌, ◌||◌, Option, List, [], ◌∷◌,
  ◌++◌, Bytes, contains, has_prefix, if◌then◌else◌, Bool-cases, arith,
}
use go_feather_route.Prelude.Int.{ℤ}
use go_feather_route.Wire.{Body, Cause, eof, is_eof, content, concat}
use go_feather_route.Router.DoneMarker.{done_marker, stream_contains_done}
use go_feather_route.Router.DoneMarker.Split.{IsTail}
use go_feather_route.Router.DoneMarker.Scan.{
  empty-IsTail, update_stream_tail-IsTail, flag_step, tail_lem,
}
use go_feather_route.Router.Stream.{
  Moment, Relay, new_relay, relay_chunk, relay_read, relay_final, relay_loop,
  stream_response_with_usage,
}

-- The relay after the bytes of `stream`.
record Follows (stream : Bytes) (r : Relay) : Type 0 where
  written : r.written ≡ stream
  done : r.done ≡ contains done_marker stream
  tail : IsTail stream r.stream_tail

pub regroup :
    (stream chunk : Bytes) (chunks : List Bytes) (final : Bytes)
    → (stream ++ chunk) ++ (concat chunks ++ final) ≡ stream ++ ((chunk ++ concat chunks) ++ final)
regroup stream chunk chunks final =
    append_assoc stream chunk (concat chunks ++ final)
    ∙ ap (λ s. stream ++ s) (sym (append_assoc chunk (concat chunks) final))

module _ (unmarshal : Bytes → Option (ℤ × ℤ × ℤ)) where
  chunk-Follows :
      (moment : Moment) (stream chunk : Bytes) (r : Relay)
      → moment.write_fails ≡ false
      → Follows stream r
      → Follows (stream ++ chunk) (relay_chunk unmarshal moment chunk r).0
  unfolding relay_chunk
  chunk-Follows moment stream chunk r fine f = rw fine (record {
    written = ap (λ w. w ++ chunk) f.written;
    done =
        ap (λ b. b || (stream_contains_done r.stream_tail chunk).0) f.done
        ∙ flag_step stream r.stream_tail chunk f.tail;
    tail =
        rw (tail_lem r.stream_tail chunk)
          (update_stream_tail-IsTail stream r.stream_tail chunk f.tail);
  })

  pub chunk_written :
      (moment : Moment) (chunk : Bytes) (r : Relay)
      → (relay_chunk unmarshal moment chunk r).1 ≡ not moment.write_fails
  unfolding relay_chunk
  chunk_written moment chunk r = elim (Bool-cases moment.write_fails) [
    | inl fails ↦ rw (fails)
    | inr fine ↦ rw (fine)
  ]

  -- A read whose bytes were written.
  read-Follows :
      (moment : Moment) (stream chunk : Bytes) (r : Relay)
      → (relay_read unmarshal moment chunk r).1 ≡ true
      → Follows stream r
      → Follows (stream ++ chunk) (relay_read unmarshal moment chunk r).0
  unfolding relay_read
  read-Follows moment stream [] r h f = rw (append-nil stream) f
  read-Follows moment stream (c ∷ chunk) r h f =
      chunk-Follows moment stream (c ∷ chunk) r (ground (arith, chunk_written moment (c ∷ chunk) r))
        f

  -- What holds at the end of a completed stream.
  abbrev IsComplete : Bytes → Body → Relay → Type 0
  IsComplete stream body r =
      (r.written ≡ stream) × (contains done_marker stream ≡ true) × (is_eof body.cause ≡ true)

  final-IsComplete :
      (moment : Moment) (stream : Bytes) (body : Body) (r : Relay)
      → Follows stream r
      → (relay_final unmarshal moment body r).0 ≡ true
      → IsComplete (stream ++ body.final) body (relay_final unmarshal moment body r).1
  unfolding relay_final
  final-IsComplete moment stream body r f h =
      elim (Bool-cases (relay_read unmarshal moment body.final r).1) [
        | inr lost ↦ absurd (cc (rw lost at h))
        | inl kept ↦
            let f' = read-Follows moment stream body.final r kept f in
            let done = f'.done in
            let ended : ((relay_read unmarshal moment body.final r).0.done
                  && is_eof (if moment.expired then Cause.deadline_exceeded else body.cause))
                ≡ true =
              rw kept at h in
            rw kept (f'.written, ground arith, ground arith)
      ]

  -- In a stream that completes, every read before the last is written in time.
  pub loop_goes_on :
      (at : ℕ → Moment) (index : ℕ) (chunk : Bytes) (chunks : List Bytes) (body : Body) (r : Relay)
      → (relay_loop unmarshal at index (chunk ∷ chunks) body r).0 ≡ true
      → ((relay_read unmarshal (at index) chunk r).1 ≡ true) × ((at index).expired ≡ false)
  unfolding relay_loop
  loop_goes_on at index chunk chunks body r h =
      elim (Bool-cases (relay_read unmarshal (at index) chunk r).1) [
        | inr lost ↦ absurd (cc (rw lost at h))
        | inl kept ↦ elim (Bool-cases (at index).expired) [
          | inl expired ↦ absurd (cc (rw (kept, expired) at h))
          | inr running ↦ (kept, running)
        ]
      ]

  loop-IsComplete :
      (at : ℕ → Moment) (index : ℕ) (stream : Bytes) (chunks : List Bytes) (body : Body) (r : Relay)
      → Follows stream r
      → (relay_loop unmarshal at index chunks body r).0 ≡ true
      → IsComplete
          (stream ++ (concat chunks ++ body.final))
          body
          (relay_loop unmarshal at index chunks body r).1
  unfolding relay_loop concat
  loop-IsComplete at index stream [] body r f h = final-IsComplete (at index) stream body r f h
  loop-IsComplete at index stream (chunk ∷ chunks) body r f h =
      let (kept, running) = loop_goes_on at index chunk chunks body r h in
      rw (kept, running, ← regroup stream chunk chunks body.final)
        (loop-IsComplete at (index + 1) (stream ++ chunk) chunks body
          (relay_read unmarshal (at index) chunk r).0
          (read-Follows (at index) stream chunk r kept f) (rw (kept, running) at h))

  new-Follows : Follows [] new_relay
  unfolding contains has_prefix
  new-Follows = record { written = refl; done = refl; tail = empty-IsTail }

  -- A stream counts as completed only if every byte of the upstream's body was written to the
  -- client, in order, the body contains the end marker, and it ended without an error.
  pub completed_sound :
      (at : ℕ → Moment) (body : Body)
      → (stream_response_with_usage unmarshal at body).0 ≡ true
      → ((stream_response_with_usage unmarshal at body).1.written ≡ content body)
        × (contains done_marker (content body) ≡ true)
        × (body.cause ≡ eof)
  unfolding stream_response_with_usage content
  completed_sound at body h =
      let (all_written, marked, ended) =
        loop-IsComplete at 0 [] body.reads body new_relay new-Follows h in
      (all_written, marked, ground arith)

  read_written :
      (moment : Moment) (chunk : Bytes) (r : Relay)
      → moment.write_fails ≡ false
      → (relay_read unmarshal moment chunk r).1 ≡ true
  unfolding relay_read
  read_written moment [] r fine = refl
  read_written moment (c ∷ chunk) r fine = chunk_written moment (c ∷ chunk) r ∙ ap not fine

  final_completes :
      (moment : Moment) (stream : Bytes) (body : Body) (r : Relay)
      → Follows stream r
      → moment.write_fails ≡ false
      → moment.expired ≡ false
      → is_eof body.cause ≡ true
      → contains done_marker (stream ++ body.final) ≡ true
      → (relay_final unmarshal moment body r).0 ≡ true
  unfolding relay_final
  final_completes moment stream body r f fine running ended marked =
      let kept = read_written moment body.final r fine in
      let done = (read-Follows moment stream body.final r kept f).done in
      rw kept (rw (done, marked, running, ended) refl)

  loop_completes :
      (at : ℕ → Moment) (index : ℕ) (stream : Bytes) (chunks : List Bytes) (body : Body) (r : Relay)
      → Follows stream r
      → ((i : ℕ) → (at i).write_fails ≡ false)
      → ((i : ℕ) → (at i).expired ≡ false)
      → is_eof body.cause ≡ true
      → contains done_marker (stream ++ (concat chunks ++ body.final)) ≡ true
      → (relay_loop unmarshal at index chunks body r).0 ≡ true
  unfolding relay_loop concat
  loop_completes at index stream [] body r f fine running ended marked =
      final_completes (at index) stream body r f (fine index) (running index) ended marked
  loop_completes at index stream (chunk ∷ chunks) body r f fine running ended marked =
      let kept = read_written (at index) chunk r (fine index) in
      rw (kept, running index)
        (loop_completes at (index + 1) (stream ++ chunk) chunks body
          (relay_read unmarshal (at index) chunk r).0
          (read-Follows (at index) stream chunk r kept f) fine running ended
          (ap (contains done_marker) (regroup stream chunk chunks body.final) ∙ marked))

  -- A stream that nothing disturbs completes: where every write to the client succeeds, the watchdog
  -- never expires, the body ends without an error and contains the end marker, however it is cut
  -- into reads.
  pub undisturbed_completes :
      (at : ℕ → Moment) (body : Body)
      → ((i : ℕ) → (at i).write_fails ≡ false)
      → ((i : ℕ) → (at i).expired ≡ false)
      → body.cause ≡ eof
      → contains done_marker (content body) ≡ true
      → (stream_response_with_usage unmarshal at body).0 ≡ true
  unfolding stream_response_with_usage content
  undisturbed_completes at body fine running ended marked =
      loop_completes at 0 [] body.reads body new_relay new-Follows fine running (ap is_eof ended)
        marked
