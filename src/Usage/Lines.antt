-- ===== src/Usage/Lines.antt =====
-- The split of a stream into events, against its lines.
use go_feather_route.Prelude.{
  ℕ, ◌≡◌, refl, ap, inl, inr, true, false, ◌&&◌, List, [], ◌∷◌, ◌++◌, Bytes, ◌==◌, Bool-cases,
  arith,
}
use mathlib.Core.List.{append-nil}
use go_feather_route.Usage.{split_byte, push_head, split_events}

-- The lines of a list of events.
unfoldable pub lines_of : List Bytes → List Bytes
lines_of [] = []
lines_of (event ∷ events) = split_byte 10 event ++ lines_of events

-- Without the empty lines.
unfoldable pub dense : List Bytes → List Bytes
dense [] = []
dense ([] ∷ l) = dense l
dense ((c ∷ s) ∷ l) = (c ∷ s) ∷ dense l

-- A text has one line at least.
split_byte-parts :
    (s : Bytes) → (first : Bytes) × (rest : List Bytes) × (split_byte 10 s ≡ first ∷ rest)
unfolding split_byte
split_byte-parts [] = ([], [], refl)
split_byte-parts (c ∷ s) =
    let (first, rest, e) = split_byte-parts s in
    elim (Bool-cases (c == 10)) [
      | inl break ↦ ([], first ∷ rest, rw (e, split_byte) (rw break refl))
      | inr other ↦ (c ∷ first, rest, rw (e, split_byte) (rw other refl))
    ]

pub split_byte-break : (s : Bytes) → split_byte 10 (10 ∷ s) ≡ [] ∷ split_byte 10 s
unfolding split_byte
split_byte-break s = let (first, rest, e) = split_byte-parts s in rw (e, split_byte) refl

pub split_byte-other :
    (c : ℕ) (s : Bytes) → (c == 10) ≡ false → split_byte 10 (c ∷ s) ≡ push_head c (split_byte 10 s)
unfolding split_byte
split_byte-other c s other =
    let (first, rest, e) = split_byte-parts s in rw (e, split_byte) (rw other refl)

split_events-parts :
    (s : Bytes) → (first : Bytes) × (rest : List Bytes) × (split_events s ≡ first ∷ rest)
unfolding split_events
split_events-parts [] = ([], [], refl)
split_events-parts (c ∷ []) = (c ∷ [], [], refl)
split_events-parts (c ∷ d ∷ s) =
    let (first, rest, e) = split_events-parts (d ∷ s) in
    elim (Bool-cases ((c == 10) && (d == 10))) [
      | inl break ↦ ([], split_events s, rw break refl)
      | inr other ↦ (c ∷ first, rest, rw (other) (rw e refl))
    ]

-- Two lists of lines that begin alike and differ by empty lines after that.
data Agree : List Bytes → List Bytes → Type 0 where
  agree : (first : Bytes) (l l' : List Bytes) → dense l ≡ dense l' → Agree (first ∷ l) (first ∷ l')

dense-Agree : {l l' : List Bytes} → Agree l l' → dense l ≡ dense l'
unfolding dense
dense-Agree (agree [] l l' e) = e
dense-Agree (agree (c ∷ s) l l' e) = ap (λ x. (c ∷ s) ∷ x) e

Agree-break : {l l' : List Bytes} → Agree l l' → Agree ([] ∷ l) ([] ∷ l')
Agree-break {l} {l'} a = agree [] l l' (dense-Agree a)

Agree-skip : {l l' : List Bytes} → Agree l l' → Agree ([] ∷ l) ([] ∷ [] ∷ l')
unfolding dense
Agree-skip {l} {l'} a = agree [] l ([] ∷ l') (dense-Agree a)

Agree-push : (c : ℕ) {l l' : List Bytes} → Agree l l' → Agree (push_head c l) (push_head c l')
Agree-push c (agree first l l' e) = agree (c ∷ first) l l' e

Agree-refl : (s : Bytes) → Agree (split_byte 10 s) (split_byte 10 s)
Agree-refl s = let (first, rest, e) = split_byte-parts s in rw e (agree first rest rest refl)

lines_of-push_head :
    (c : ℕ) (first : Bytes) (rest : List Bytes)
    → (c == 10) ≡ false
    → lines_of (push_head c (first ∷ rest)) ≡ push_head c (lines_of (first ∷ rest))
unfolding lines_of
lines_of-push_head c first rest other =
    let (line, lines, e) = split_byte-parts first in rw (split_byte-other c first other) (rw e refl)

lines_of-break :
    (first : Bytes) (rest : List Bytes)
    → lines_of (push_head 10 (first ∷ rest)) ≡ [] ∷ lines_of (first ∷ rest)
unfolding lines_of
lines_of-break first rest = rw (split_byte-break first) refl

lines_of-nil : (l : List Bytes) → lines_of ([] ∷ l) ≡ [] ∷ lines_of l
unfolding lines_of split_byte
lines_of-nil l = refl

pub both-break : (c d : ℕ) → ((c == 10) && (d == 10)) ≡ true → (c ≡ 10) × (d ≡ 10)
both-break c d h = ground arith

is_break : (c : ℕ) → (c == 10) ≡ true → c ≡ 10
is_break c h = ground arith

-- The lines of the events of a text are its lines, but for empty ones.
split_events-Agree : (s : Bytes) → Agree (lines_of (split_events s)) (split_byte 10 s)
unfolding split_events lines_of
split_events-Agree [] = rw append-nil (Agree-refl [])
split_events-Agree (c ∷ []) = rw append-nil (Agree-refl (c ∷ []))
split_events-Agree (c ∷ d ∷ s) = elim (Bool-cases ((c == 10) && (d == 10))) [
  | inl both ↦
      let (e, f) = both-break c d both in
      rw (both) (
        rw (e, f, lines_of-nil, split_byte-break (10 ∷ s), split_byte-break s)
          (Agree-skip (split_events-Agree s)))
  | inr other ↦
      let ih = split_events-Agree (d ∷ s) in
      let (first, rest, e) = split_events-parts (d ∷ s) in
      rw (other) (elim (Bool-cases (c == 10)) [
        | inl break ↦
            let f = is_break c break in
            rw (e, f, lines_of-break first rest, split_byte-break (d ∷ s))
              (Agree-break (rw e at ih))
        | inr inside ↦
            rw (e, lines_of-push_head c first rest inside, split_byte-other c (d ∷ s) inside)
              (Agree-push c (rw e at ih))
      ])
]

pub split_byte_nil : split_byte 10 [] ≡ [] ∷ []
unfolding split_byte
split_byte_nil = refl

pub split_byte-append :
    (s w : Bytes) → split_byte 10 (s ++ (10 ∷ w)) ≡ split_byte 10 s ++ split_byte 10 w
split_byte-append [] w = rw (split_byte-break w, split_byte_nil) refl
split_byte-append (c ∷ s) w =
    let (first, rest, e) = split_byte-parts s in
    elim (Bool-cases (c == 10)) [
      | inl break ↦
          let f = is_break c break in
          rw (f, split_byte-break (s ++ (10 ∷ w)), split_byte-break s, split_byte-append s w) refl
      | inr other ↦
          rw
            (
              split_byte-other c (s ++ (10 ∷ w)) other,
              split_byte-other c s other,
              split_byte-append s w,
              e,
            )
            refl
    ]

pub dense-split_events : (s : Bytes) → dense (lines_of (split_events s)) ≡ dense (split_byte 10 s)
dense-split_events s = dense-Agree (split_events-Agree s)
