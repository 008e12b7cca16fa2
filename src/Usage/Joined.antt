-- ===== src/Usage/Joined.antt =====
-- `ParseSSE` and `parseTextUsage`, line by line: the usage of texts that are joined at an empty line.
use go_feather_route.Prelude.{
  ◌≡◌, refl, sym, ap, ◌∙◌, inl, inr, Option, List, [], ◌∷◌, ◌++◌, Bytes, codes, strip_prefix?,
  if◌then◌else◌, Bool-cases, Option-cases, subst,
}
use mathlib.Core.List.{append_assoc}
use go_feather_route.Prelude.Numbers.{trim_space}
use go_feather_route.Prelude.Int.{ℤ, not_positive}
use go_feather_route.Usage.{
  Tokens, no_tokens, parse_json, parse_line, parse_lines, split_byte, split_events, parse_events,
  parse_sse,
}
use go_feather_route.Usage.Lines.{
  lines_of, dense, split_byte_nil, split_byte-append, split_byte-break, dense-split_events,
}

-- The usage after a text that came later: its own, if it has any.
unfoldable pub later : Tokens → Tokens → Tokens
later t p = if not_positive p.total then t else p

later_assoc : (t r p : Tokens) → later (later t r) p ≡ later t (later r p)
unfolding later
later_assoc t r p = elim (Bool-cases (not_positive p.total)) [
  | inl silent ↦ rw (silent)
  | inr telling ↦ rw (telling) (rw telling refl)
]

pub later-no_tokens : (t : Tokens) → later t no_tokens ≡ t
unfolding later
later-no_tokens t = refl

-- A text that is empty or ends with an empty line.
pub data IsClosed : Bytes → Type 0 where
  closed_nil : IsClosed []
  closed_break : (s : Bytes) → IsClosed (s ++ (10 ∷ 10 ∷ []))

module _ (unmarshal : Bytes → Option (ℤ × ℤ × ℤ)) where
  parse_line-nil : (t : Tokens) → parse_line unmarshal t [] ≡ t
  unfolding parse_line strip_prefix?
  parse_line-nil t = refl

  parse_lines-append :
      (t : Tokens) (l l' : List Bytes)
      → parse_lines unmarshal t (l ++ l') ≡ parse_lines unmarshal (parse_lines unmarshal t l) l'
  unfolding parse_lines
  parse_lines-append t [] l' = refl
  parse_lines-append t (line ∷ l) l' = parse_lines-append (parse_line unmarshal t line) l l'

  parse_lines-dense :
      (t : Tokens) (l : List Bytes) → parse_lines unmarshal t (dense l) ≡ parse_lines unmarshal t l
  unfolding parse_lines dense
  parse_lines-dense t [] = refl
  parse_lines-dense t ([] ∷ l) = rw (parse_line-nil t) (parse_lines-dense t l)
  parse_lines-dense t ((c ∷ s) ∷ l) = parse_lines-dense (parse_line unmarshal t (c ∷ s)) l

  parse_events_lem :
      (t : Tokens) (events : List Bytes)
      → parse_events unmarshal t events ≡ parse_lines unmarshal t (lines_of events)
  unfolding parse_events lines_of parse_lines
  parse_events_lem t [] = refl
  parse_events_lem t (event ∷ events) =
      parse_events_lem (parse_lines unmarshal t (split_byte 10 event)) events
      ∙ sym (parse_lines-append t (split_byte 10 event) (lines_of events))

  -- `ParseSSE` reads the lines of a text in turn: its split into events does not matter.
  pub parse_sse-lines :
      (s : Bytes) → parse_sse unmarshal s ≡ parse_lines unmarshal no_tokens (split_byte 10 s)
  unfolding parse_sse
  parse_sse-lines s =
      parse_events_lem no_tokens (split_events s)
      ∙ sym (parse_lines-dense no_tokens (lines_of (split_events s)))
      ∙ ap (parse_lines unmarshal no_tokens) (dense-split_events s)
      ∙ parse_lines-dense no_tokens (split_byte 10 s)

  parse_line-later :
      (t r : Tokens) (line : Bytes)
      → parse_line unmarshal (later t r) line ≡ later t (parse_line unmarshal r line)
  unfolding parse_line strip_prefix? later
  parse_line-later t r line = elim (Option-cases (strip_prefix? (codes "data:") line)) [
    | inl e ↦ rw (e) refl
    | inr (rest, e) ↦ rw (e) (later_assoc t r (parse_json unmarshal (trim_space rest)))
  ]

  parse_lines-later :
      (t r : Tokens) (l : List Bytes)
      → parse_lines unmarshal (later t r) l ≡ later t (parse_lines unmarshal r l)
  unfolding parse_lines
  parse_lines-later t r [] = refl
  parse_lines-later t r (line ∷ l) =
      ap (λ x. parse_lines unmarshal x l) (parse_line-later t r line)
      ∙ parse_lines-later t (parse_line unmarshal r line) l

  parse_lines_lem :
      (t : Tokens) (l : List Bytes)
      → parse_lines unmarshal t l ≡ later t (parse_lines unmarshal no_tokens l)
  parse_lines_lem t l =
      ap (λ x. parse_lines unmarshal x l) (sym (later-no_tokens t))
      ∙ parse_lines-later t no_tokens l

  parse_sse-closed :
      (s w : Bytes)
      → parse_sse unmarshal (s ++ (10 ∷ 10 ∷ w))
        ≡ parse_lines unmarshal
            (parse_lines unmarshal no_tokens (split_byte 10 s))
            (split_byte 10 w)
  unfolding parse_lines
  parse_sse-closed s w =
      rw (parse_sse-lines (s ++ (10 ∷ 10 ∷ w)), split_byte-append s (10 ∷ w), split_byte-break w)
        (parse_lines-append no_tokens (split_byte 10 s) ([] ∷ split_byte 10 w)
          ∙ ap (λ x. parse_lines unmarshal x (split_byte 10 w))
              (parse_line-nil (parse_lines unmarshal no_tokens (split_byte 10 s))))

  parse_lines_nil : (t : Tokens) → parse_lines unmarshal t (split_byte 10 []) ≡ t
  unfolding parse_lines
  parse_lines_nil t = rw split_byte_nil (parse_line-nil t)

  pub parse_sse_nil : parse_sse unmarshal [] ≡ no_tokens
  parse_sse_nil = parse_sse-lines [] ∙ parse_lines_nil no_tokens

  -- The usage of a text after whole events: of the text, or else of the events.
  pub parse_sse-append :
      (events w : Bytes)
      → IsClosed events
      → parse_sse unmarshal (events ++ w)
        ≡ later (parse_sse unmarshal events) (parse_sse unmarshal w)
  parse_sse-append [] w closed_nil =
      rw (parse_sse-lines w, parse_sse-lines [], parse_lines_nil no_tokens)
        (parse_lines_lem no_tokens (split_byte 10 w))
  parse_sse-append events w (closed_break s) =
      rw
        (
          append_assoc s (10 ∷ 10 ∷ []) w,
          parse_sse-closed s w,
          parse_sse-closed s [],
          parse_sse-lines w,
          parse_lines_nil,
        )
        (parse_lines_lem (parse_lines unmarshal no_tokens (split_byte 10 s)) (split_byte 10 w))

pub IsClosed-append : (events s : Bytes) → IsClosed (events ++ (s ++ (10 ∷ 10 ∷ [])))
IsClosed-append events s =
    subst IsClosed (append_assoc events s (10 ∷ 10 ∷ [])) (closed_break (events ++ s))
