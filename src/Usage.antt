-- ===== src/Usage.antt =====
-- internal/usage/reporter.go: token counts and the usage report.
pub mod Lines
pub mod Joined
use go_feather_route.Prelude.{
  ℕ, zero, ◌*◌, Bool, true, false, ◌&&◌, ◌||◌, Option, none, some, List, [], ◌∷◌, ◌++◌, Bytes,
  codes, is_empty, ◌==◌, strip_prefix?, if◌then◌else◌,
}
use go_feather_route.Prelude.Int.{ℤ, pos, not_positive, add_int64}
use go_feather_route.Prelude.Float64.{Float64}
use go_feather_route.Prelude.Dict.{insert, bytes_eq}
use go_feather_route.Prelude.Numbers.{trim_space}
use go_feather_route.Wire.{Headers}
use go_feather_route.Provider.{second}

-- Token counts are int64 values: a provider may send negative ones.
pub record Tokens : Type 0 where
  pub input : ℤ
  pub output : ℤ
  pub total : ℤ

abbrev pub no_tokens : Tokens
no_tokens = record { input = pos 0; output = pos 0; total = pos 0 }

abbrev pub is_zero : ℤ → Bool
is_zero (pos zero) = true
is_zero _ = false

-- `unmarshal` is json.Unmarshal into the envelope of the three counts.
module _ (unmarshal : Bytes → Option (ℤ × ℤ × ℤ)) where
  unfoldable pub parse_json : Bytes → Tokens
  parse_json body = elim (unmarshal body) [
    | none ↦ no_tokens
    | some (prompt, completion, total) ↦ record {
      input = prompt;
      output = completion;
      total = if is_zero total then add_int64 prompt completion else total;
    }
  ]

  -- The result after one line of an event.
  unfoldable pub parse_line : Tokens → Bytes → Tokens
  unfolding parse_json
  parse_line result line = elim (strip_prefix? (codes "data:") line) [
    | none ↦ result
    | some rest ↦
        let parsed = parse_json (trim_space rest) in
        if not_positive parsed.total then result else parsed
  ]

  unfoldable pub parse_lines : Tokens → List Bytes → Tokens
  unfolding parse_line
  parse_lines result [] = result
  parse_lines result (line ∷ lines) = parse_lines (parse_line result line) lines

-- strings.Split at one byte: the parts, the last one open.
unfoldable pub split_byte : ℕ → Bytes → List Bytes
split_byte sep [] = [] ∷ []
split_byte sep (c ∷ s) = elim (split_byte sep s) [
  | [] ↦ [] ∷ []
  | part ∷ parts ↦ if c == sep then [] ∷ part ∷ parts else (c ∷ part) ∷ parts
]

abbrev pub push_head : ℕ → List Bytes → List Bytes
push_head c [] = (c ∷ []) ∷ []
push_head c (part ∷ parts) = (c ∷ part) ∷ parts

-- strings.Split(s, "\n\n"), leftmost separators first.
unfoldable pub split_events : Bytes → List Bytes
split_events [] = [] ∷ []
split_events (c ∷ []) = (c ∷ []) ∷ []
split_events (c ∷ d ∷ s) =
    let closed = split_events s in
    let open_part = split_events (d ∷ s) in
    if (c == 10) && (d == 10) then [] ∷ closed else push_head c open_part

module _ (unmarshal : Bytes → Option (ℤ × ℤ × ℤ)) where
  unfoldable pub parse_events : Tokens → List Bytes → Tokens
  unfolding parse_lines split_byte
  parse_events result [] = result
  parse_events result (event ∷ events) =
      parse_events (parse_lines unmarshal result (split_byte 10 event)) events

  unfoldable pub parse_sse : Bytes → Tokens
  unfolding parse_events split_events
  parse_sse body = parse_events no_tokens (split_events body)

pub record Event : Type 0 where
  pub request_id : Bytes
  pub user_id : Bytes
  pub project_id : Bytes
  pub instance_id : Bytes
  pub operation : Bytes
  pub gateway : Bytes
  pub provider : Bytes
  pub model : Bytes
  pub input_tokens : ℤ
  pub output_tokens : ℤ
  pub total_tokens : ℤ
  pub estimated_cost : Float64
  pub status : Bytes
  pub duration_ms : ℤ
  pub fallback_used : Bool
  pub attempt_count : ℕ

pub record Reporter : Type 0 where
  pub endpoint : Bytes
  pub api_key : Bytes
  pub timeout : ℤ

-- The callback that is sent.
pub record Callback : Type 0 where
  pub endpoint : Bytes
  pub header : Headers
  pub payload : Bytes
  pub deadline : ℤ

-- `marshal` is json.Marshal of an event, and `creates` tells whether http.NewRequestWithContext
-- accepts the endpoint. What the endpoint answers is not read.
unfoldable pub report : (Event → Option Bytes) → (Bytes → Bool) → Reporter → Event → Option Callback
report marshal creates r event =
    if is_empty r.endpoint || is_empty r.api_key || is_empty event.request_id
    then none
    else elim (marshal event) [
      | none ↦ none
      | some payload ↦
          if creates r.endpoint
          then some (record {
            endpoint = r.endpoint;
            header =
                insert (codes "Content-Type") (codes "application/json")
                  (insert (codes "Authorization") (codes "Bearer " ++ r.api_key) []);
            payload = payload;
            deadline = if not_positive r.timeout then pos (2 * second) else r.timeout;
          })
          else none
    ]
