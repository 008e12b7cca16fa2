-- ===== src/Router/DoneMarker/Scan.antt =====
-- The marker search over all chunks of a stream.
use mathlib.Core.List.{append_assoc, append-nil}
use go_feather_route.Prelude.{
  ◌+◌, ◌-◌, ◌≤◌, ◌<◌, ◌≡◌, refl, sym, ap, ◌∙◌, ◌⊎◌, inl, inr, Bool, true, false, ◌||◌, List, [],
  ◌∷◌, ◌++◌, Bytes, contains, has_prefix, length, length-append, length-drop, take, drop,
  take_of_le, leb, ltb, Bool-cases, arith,
}
use go_feather_route.Prelude.Factors.{
  Factor, contains→Factor, Factor→contains, Factor-append_left, Factor-append_right,
  take_append_drop,
}
use go_feather_route.Wire.{concat}
use go_feather_route.Router.DoneMarker.{done_marker, update_stream_tail, stream_contains_done, scan}
use go_feather_route.Router.DoneMarker.Split.{IsTail, Factor-cases, combined-Factor}

pub empty-IsTail : IsTail [] []
empty-IsTail = record { front = []; splits = refl; fits = omega arith; full = inr refl }

long_chunk-IsTail :
    (stream chunk : Bytes)
    → 11 ≤ length chunk
    → IsTail (stream ++ chunk) (drop (length chunk - 11) chunk)
long_chunk-IsTail stream chunk h = record {
  front = stream ++ take (length chunk - 11) chunk;
  splits =
      ap (λ c. stream ++ c) (sym (take_append_drop (length chunk - 11) chunk))
      ∙ sym (append_assoc stream (take (length chunk - 11) chunk) (drop (length chunk - 11) chunk));
  fits = omega (arith, length-drop (length chunk - 11) chunk);
  full = inl (omega (arith, length-drop (length chunk - 11) chunk));
}

shifted-IsTail :
    (stream tail chunk : Bytes)
    → IsTail stream tail
    → length chunk < 11
    → 11 < length tail + length chunk
    → IsTail (stream ++ chunk) (drop (length tail + length chunk - 11) tail ++ chunk)
shifted-IsTail stream tail chunk t small over =
    let n = length tail + length chunk - 11 in
    let size : length (drop n tail ++ chunk) ≡ 11 =
      omega (arith, length-append (drop n tail) chunk, length-drop n tail, t.fits) in
    record {
      front = t.front ++ take n tail;
      splits =
          ap (λ s. s ++ chunk) (t.splits ∙ ap (λ s. t.front ++ s) (sym (take_append_drop n tail)))
          ∙ ap (λ s. s ++ chunk) (sym (append_assoc t.front (take n tail) (drop n tail)))
          ∙ append_assoc (t.front ++ take n tail) (drop n tail) chunk;
      fits = omega arith;
      full = inl size;
    }

joined-IsTail :
    (stream tail chunk : Bytes)
    → IsTail stream tail
    → length tail + length chunk ≤ 11
    → IsTail (stream ++ chunk) (tail ++ chunk)
joined-IsTail stream tail chunk t h = record {
  front = t.front;
  splits = ap (λ s. s ++ chunk) t.splits ∙ append_assoc t.front tail chunk;
  fits = omega (arith, length-append tail chunk);
  full = still_full t.full;
}
  where
    still_full :
        (length tail ≡ 11) ⊎ (t.front ≡ []) → (length (tail ++ chunk) ≡ 11) ⊎ (t.front ≡ [])
    still_full (inl e) = inl (omega (arith, length-append tail chunk))
    still_full (inr e) = inr e

pub update_stream_tail-IsTail :
    (stream tail chunk : Bytes)
    → IsTail stream tail
    → IsTail (stream ++ chunk) (update_stream_tail tail chunk)
unfolding update_stream_tail
update_stream_tail-IsTail stream tail chunk t = elim (Bool-cases (leb 11 (length chunk))) [
  | inl long ↦ rw long (long_chunk-IsTail stream chunk (ground arith))
  | inr short ↦ elim (Bool-cases (ltb 11 (length tail + length chunk))) [
    | inl over ↦
        let s = shifted-IsTail stream tail chunk t (ground arith) (ground arith) in
        rw (short, over) (rw (take_of_le 11 _ s.fits) s)
    | inr room ↦
        let s = joined-IsTail stream tail chunk t (ground arith) in
        rw (short, room) (rw (take_of_le 11 _ s.fits) s)
  ]
]

seen_lem :
    (tail chunk : Bytes)
    → (stream_contains_done tail chunk).0
      ≡ (contains done_marker chunk || contains done_marker (take 23 (tail ++ chunk)))
unfolding stream_contains_done
seen_lem tail chunk = elim (Bool-cases (contains done_marker chunk)) [
  | inl inside ↦ rw (inside)
  | inr outside ↦ elim (Bool-cases (contains done_marker (take 23 (tail ++ chunk)))) [
    | inl across ↦ rw (outside, across)
    | inr nowhere ↦ rw (outside, nowhere)
  ]
]

pub tail_lem :
    (tail chunk : Bytes) → (stream_contains_done tail chunk).1 ≡ update_stream_tail tail chunk
unfolding stream_contains_done
tail_lem tail chunk = elim (Bool-cases (contains done_marker chunk)) [
  | inl inside ↦ rw (inside)
  | inr outside ↦ elim (Bool-cases (contains done_marker (take 23 (tail ++ chunk)))) [
    | inl across ↦ rw (outside, across)
    | inr nowhere ↦ rw (outside, nowhere)
  ]
]

or-true : (a b c : Bool) → (a ≡ true) ⊎ (b ≡ true) ⊎ (c ≡ true) → (a || (b || c)) ≡ true
or-true a b c h = ground arith

true-or : (a b c : Bool) → (a || (b || c)) ≡ true → (a ≡ true) ⊎ (b ≡ true) ⊎ (c ≡ true)
true-or a b c h = ground arith

Bool-eq : (a b : Bool) → (a ≡ true → b ≡ true) → (b ≡ true → a ≡ true) → a ≡ b
Bool-eq true b f g = sym (f refl)
Bool-eq false true f g = g refl
Bool-eq false false f g = refl

found_cases :
    (stream tail chunk : Bytes)
    → Factor done_marker stream
      ⊎ Factor done_marker chunk
      ⊎ Factor done_marker (take 23 (tail ++ chunk))
    → (contains done_marker stream ≡ true)
      ⊎ (contains done_marker chunk ≡ true)
      ⊎ (contains done_marker (take 23 (tail ++ chunk)) ≡ true)
found_cases stream tail chunk (inl f) = inl (Factor→contains done_marker stream f)
found_cases stream tail chunk (inr (inl f)) = inr (inl (Factor→contains done_marker chunk f))
found_cases stream tail chunk (inr (inr f)) =
    inr (inr (Factor→contains done_marker (take 23 (tail ++ chunk)) f))

found_whole :
    (stream tail chunk : Bytes)
    → IsTail stream tail
    → (contains done_marker stream ≡ true)
      ⊎ (contains done_marker chunk ≡ true)
      ⊎ (contains done_marker (take 23 (tail ++ chunk)) ≡ true)
    → Factor done_marker (stream ++ chunk)
found_whole stream tail chunk t (inl h) =
    Factor-append_right done_marker stream chunk (contains→Factor done_marker stream h)
found_whole stream tail chunk t (inr (inl h)) =
    Factor-append_left done_marker stream chunk (contains→Factor done_marker chunk h)
found_whole stream tail chunk t (inr (inr h)) =
    combined-Factor done_marker stream tail chunk refl t (contains→Factor done_marker _ h)

-- One step: the flag is raised exactly where the stream with the chunk holds the marker, if it was
-- right before.
pub flag_step :
    (stream tail chunk : Bytes)
    → IsTail stream tail
    → (contains done_marker stream || (stream_contains_done tail chunk).0)
      ≡ contains done_marker (stream ++ chunk)
flag_step stream tail chunk t = rw (seen_lem tail chunk) (
    Bool-eq _ _
      (λ h. Factor→contains done_marker (stream ++ chunk) (
        found_whole stream tail chunk t
          (true-or (contains done_marker stream) (contains done_marker chunk) _ h)))
      (λ h. or-true (contains done_marker stream) (contains done_marker chunk) _ (
        found_cases stream tail chunk (
          Factor-cases done_marker stream tail chunk refl t
            (contains→Factor done_marker (stream ++ chunk) h)))))

scan-eq :
    (stream tail : Bytes) (chunks : List Bytes)
    → IsTail stream tail
    → scan (contains done_marker stream) tail chunks
      ≡ contains done_marker (stream ++ concat chunks)
unfolding scan concat
scan-eq stream tail [] t = ap (contains done_marker) (sym (append-nil stream))
scan-eq stream tail (chunk ∷ chunks) t = rw (flag_step stream tail chunk t) (
    scan-eq (stream ++ chunk) (stream_contains_done tail chunk).1 chunks
      (rw (tail_lem tail chunk) (update_stream_tail-IsTail stream tail chunk t))
    ∙ ap (contains done_marker) (append_assoc stream chunk (concat chunks)))

-- However the bytes of a stream are cut into reads, the flag after the last read tells whether the
-- whole stream contains the marker.
pub scan-contains :
    (chunks : List Bytes) → scan false [] chunks ≡ contains done_marker (concat chunks)
unfolding contains has_prefix
scan-contains chunks = scan-eq [] [] chunks empty-IsTail
