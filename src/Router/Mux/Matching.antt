-- ===== src/Router/Mux/Matching.antt =====
-- The patterns of `Handler` that match the paths of `isPublicPath`.
use go_feather_route.Prelude.{
  ◌≡◌, refl, ◌⊎◌, inl, inr, Bool, true, false, not, ◌&&◌, ◌||◌, none, some, List, [], ◌∷◌, Bytes,
  codes, str_eq, str_eq_iff, is_empty, cut, ◌==◌, Bool-cases, arith, if◌then◌else◌,
}
use go_feather_route.Prelude.Dict.{Dict, lookup, bytes_eq}
use go_feather_route.Usage.{split_byte}
use go_feather_route.Router.Http.{is_public_path}
use go_feather_route.Router.Mux.{
  Endpoint, health_endpoint, ready_endpoint, status_endpoint, metrics_endpoint, patterns,
}

-- A segment of a path matches one of a pattern: a wildcard takes any that is not empty.
match_segment : Bytes → Bytes → Bool
match_segment [] s = is_empty s
match_segment (c ∷ p) s = if c == 123 then not (is_empty s) else str_eq (c ∷ p) s

match_segments : List Bytes → List Bytes → Bool
unfolding match_segment
match_segments [] [] = true
match_segments (p ∷ ps) (s ∷ ss) = match_segment p s && match_segments ps ss
match_segments _ _ = false

-- What net/http documents of a pattern "METHOD /path" without a final slash: it matches the paths
-- with the same segments.
unfoldable pub matches : Bytes → Bytes → Bool
unfolding match_segments split_byte
matches pattern path = elim (cut 32 pattern) [
  | none ↦ false
  | some (_, expected) ↦ match_segments (split_byte b'/' expected) (split_byte b'/' path)
]

-- The endpoints that the paths of `isPublicPath` stand for.
unfoldable pub is_public : Endpoint → Bool
is_public health_endpoint = true
is_public ready_endpoint = true
is_public status_endpoint = true
is_public metrics_endpoint = true
is_public _ = false

-- Every pattern that matches the path leads to a public endpoint.
pub leads_public : Bytes → Dict Bytes Endpoint → Bool
unfolding matches is_public
leads_public path [] = true
leads_public path ((pattern, endpoint) ∷ rest) =
    (not (matches pattern path) || is_public endpoint) && leads_public path rest

pub leads_public_lem :
    (path pattern : Bytes) (l : Dict Bytes Endpoint) (endpoint : Endpoint)
    → leads_public path l ≡ true
    → lookup pattern l ≡ some endpoint
    → matches pattern path ≡ true
    → is_public endpoint ≡ true
unfolding leads_public lookup
leads_public_lem path pattern [] endpoint h found m = absurd (cc found)
leads_public_lem path pattern ((other, e) ∷ l) endpoint h found m =
    elim (Bool-cases (str_eq other pattern)) [
      | inl same ↦
          let at : other ≡ pattern = (str_eq_iff other pattern).0 same in
          let end : e ≡ endpoint = cc (rw same at found) in
          let matched : matches other path ≡ true = rw at m in rw (← end) (ground arith)
      | inr different ↦
          leads_public_lem path pattern l endpoint (ground arith) (rw different at found) m
    ]

leads_public_at :
    (path public : Bytes)
    → leads_public public patterns ≡ true
    → str_eq path public ≡ true
    → leads_public path patterns ≡ true
leads_public_at path public h e = rw ((str_eq_iff path public).0 e) h

one_of : (a b : Bool) → (a || b) ≡ true → (a ≡ true) ⊎ (b ≡ true)
one_of true b h = inl refl
one_of false b h = inr h

pub public_patterns :
    (path : Bytes) → is_public_path path ≡ true → leads_public path patterns ≡ true
unfolding is_public_path leads_public cut str_eq
public_patterns path h = elim (one_of _ _ h) [
  | inr at ↦ leads_public_at path (codes "/metrics") refl at
  | inl h ↦ elim (one_of _ _ h) [
    | inr at ↦ leads_public_at path (codes "/status") refl at
    | inl h ↦ elim (one_of _ _ h) [
      | inr at ↦ leads_public_at path (codes "/ready") refl at
      | inl h ↦ elim (one_of _ _ h) [
        | inr at ↦ leads_public_at path (codes "/health/liveliness") refl at
        | inl at ↦ leads_public_at path (codes "/health/live") refl at
      ]
    ]
  ]
]
