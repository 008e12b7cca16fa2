-- ===== src/Router/Answers/Read.antt =====
-- The body that a handler has read: `io.ReadAll` over `http.MaxBytesReader`.
use go_feather_route.Prelude.{◌≤◌, ◌≡◌, inl, inr, true, some, Bytes, length, leb, Bool-cases, arith}
use go_feather_route.Prelude.Int.{ℤ, to_nat}
use go_feather_route.Wire.{Body, is_eof, content}
use go_feather_route.Router.Exchange.{read_limited_body}

-- It is all that the client sent, which ended without an error and is within the limit.
pub record IsRead (sent : Body) (limit : ℤ) (body : Bytes) : Type 0 where
  pub ended : is_eof sent.cause ≡ true
  pub same : body ≡ content sent
  pub small : length body ≤ to_nat limit

pub read_limited_body-IsRead :
    (sent : Body) (limit : ℤ) (body : Bytes)
    → read_limited_body sent limit ≡ some body
    → IsRead sent limit body
unfolding read_limited_body
read_limited_body-IsRead sent limit body h = elim (Bool-cases (is_eof sent.cause)) [
  | inr cut ↦ absurd (cc (rw cut at h))
  | inl ended ↦ elim (Bool-cases (leb (length (content sent)) (to_nat limit))) [
    | inr long ↦ absurd (cc (rw (ended, long) at h))
    | inl short ↦
        let found : some (content sent) ≡ some body = rw (ended, short) at h in
        let same : body ≡ content sent = cc in
        record { ended = ended; same = same; small = rw same (ground arith) }
  ]
]
