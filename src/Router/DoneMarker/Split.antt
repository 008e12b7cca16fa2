-- ===== src/Router/DoneMarker/Split.antt =====
-- A marker across a read boundary, the kept tail and the next chunk.
use mathlib.Core.List.{append_assoc}
use go_feather_route.Prelude.{
  ◌+◌, ◌-◌, ◌≤◌, ◌<◌, ◌≡◌, sym, ap, ◌∙◌, ◌⊎◌, inl, inr, [], ◌++◌, Bytes, length, length-append,
  take, drop, arith,
}
use go_feather_route.Prelude.Factors.{
  Factor, append_split, take-append, Factor-append_left, Factor-append_right, take_append_drop,
}
use native.Mathlib.Decide.{dec_le}

-- The tail holds the last bytes of the stream so far: as many as are kept, or the whole stream.
pub record IsTail (stream tail : Bytes) : Type 0 where
  pub front : Bytes
  pub splits : stream ≡ front ++ tail
  pub fits : length tail ≤ 11
  pub full : (length tail ≡ 11) ⊎ (front ≡ [])

module _ (m stream tail chunk : Bytes) (twelve : length m ≡ 12) (t : IsTail stream tail) where
  -- A marker that begins in the tail ends within the combined bytes.
  in_combined :
      (r b : Bytes)
      → tail ++ chunk ≡ r ++ (m ++ b)
      → length r ≤ 11
      → Factor m (take 23 (tail ++ chunk))
  in_combined r b e h = (
    r,
    take (23 - length (r ++ m)) b,
    ap (take 23) (e ∙ sym (append_assoc r m b))
        ∙ take-append 23 (r ++ m) b (omega (arith, length-append r m))
        ∙ append_assoc r m (take (23 - length (r ++ m)) b),
  )

  straddles :
      (a b : Bytes)
      → stream ++ chunk ≡ a ++ (m ++ b)
      → length a < length stream
      → length stream < length a + 12
      → Factor m (take 23 (tail ++ chunk))
  straddles a b e before after =
      let cut : t.front ++ (tail ++ chunk) ≡ a ++ (m ++ b) =
        sym (append_assoc t.front tail chunk) ∙ ap (λ s. s ++ chunk) (sym t.splits) ∙ e in
      let sizes : length stream ≡ length t.front + length tail =
        ap length t.splits ∙ length-append t.front tail in
      let (r, p, q) =
        append_split t.front (tail ++ chunk) a (m ++ b) cut (front_le a sizes after t.full) in
      let short : length r ≤ 11 = omega (arith, ap length p ∙ length-append t.front r, t.fits) in
      in_combined r b q short
    where
      front_le :
          (a : Bytes)
          → length stream ≡ length t.front + length tail
          → length stream < length a + 12
          → (length tail ≡ 11) ⊎ (t.front ≡ [])
          → length t.front ≤ length a
      front_le a sizes after (inl full) = omega arith
      front_le a sizes after (inr empty) = omega (arith, ap length empty)

  -- A marker in the stream with the next chunk is in the stream, in the chunk, or in the combined
  -- bytes.
  pub Factor-cases :
      Factor m (stream ++ chunk)
      → Factor m stream ⊎ Factor m chunk ⊎ Factor m (take 23 (tail ++ chunk))
  Factor-cases (a, b, e) = elim (dec_le (length stream) (length a)) [
    | yes beyond ↦
        let (r, p, q) = append_split stream chunk a (m ++ b) e beyond in inr (inl (r, b, q))
    | no before ↦ elim (dec_le (length a + 12) (length stream)) [
      | yes within ↦
          let short : length (a ++ m) ≤ length stream = omega (arith, length-append a m) in
          let (r, p, q) = append_split (a ++ m) b stream chunk (append_assoc a m b ∙ sym e) short in
          inl (a, r, p ∙ append_assoc a m r)
      | no after ↦ inr (inr (straddles a b e (omega arith) (omega arith)))
    ]
  ]

  pub combined-Factor : Factor m (take 23 (tail ++ chunk)) → Factor m (stream ++ chunk)
  combined-Factor f = rw t.splits (
      rw (append_assoc t.front tail chunk) (
        Factor-append_left m t.front (tail ++ chunk) (
          rw take_append_drop at
            (Factor-append_right m (take 23 (tail ++ chunk)) (drop 23 (tail ++ chunk)) f))))
