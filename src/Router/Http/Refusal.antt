-- ===== src/Router/Http/Refusal.antt =====
-- Requests that `Handler` refuses, and the gauge of active requests.
use go_feather_route.Prelude.{
  ◌≡◌, ◌≢◌, refl, sym, ap, ◌∙◌, inl, inr, true, false, not, ◌&&◌, [], ◌∷◌, ◌++◌, Bytes, codes,
  str_eq, str_eq_iff, is_empty, Bool-cases, if◌then◌else◌,
}
use go_feather_route.Prelude.Int.{add64, minus_one}
use go_feather_route.Prelude.Dict.{lookup-insert, get_or, bytes_eq}
use go_feather_route.Wire.{header_get}
use go_feather_route.Router.Server.{Server, State, Gauges}
use go_feather_route.Router.Handling.{invalid_token, Reply, error_reply, Exit, stop, go, Handler}
use go_feather_route.Router.Exchange.{Request}
use go_feather_route.Router.Keeps.{IsWord, exit_state}
use go_feather_route.Router.Keeps.Words.{active_balance}
use go_feather_route.Router.Http.{
  Incoming, is_public_path, authorized, with_id, finish_exit, finish, enter, count_refusal, handle,
}

-- Another header than the ID is as the client sent it.
authorization_kept :
    (incoming : Incoming)
    → header_get (with_id incoming).header (codes "Authorization")
      ≡ header_get incoming.request.header (codes "Authorization")
unfolding with_id header_get str_eq
authorization_kept incoming =
    ap (λ o. get_or o [])
      (lookup-insert (codes "X-Request-Id") (codes "Authorization") _ incoming.request.header)

not_authorized :
    (server : Server) (incoming : Incoming)
    → server.config.auth.api_key ≢ []
    → header_get incoming.request.header (codes "Authorization")
      ≢ codes "Bearer " ++ server.config.auth.api_key
    → authorized server (with_id incoming).header ≡ false
unfolding authorized
not_authorized server incoming key other =
    elim (Bool-cases (authorized server (with_id incoming).header)) [
      | inr refused ↦ refused
      | inl let_in ↦ absurd (
          refute server.config.auth.api_key
            (header_get (with_id incoming).header (codes "Authorization")) key
            (λ e. other (sym (authorization_kept incoming) ∙ e)) let_in)
    ]
  where
    refute :
        (k actual : Bytes)
        → k ≢ []
        → actual ≢ codes "Bearer " ++ k
        → (if is_empty k then true else str_eq actual (codes "Bearer " ++ k)) ≡ true
        → ⊥
    refute [] actual n m h = n refl
    refute (c ∷ k) actual n m h = m ((str_eq_iff actual (codes "Bearer " ++ c ∷ k)).0 h)

module _ (server : Server) (inner : Request → Handler Reply) (incoming : Incoming) (s : State) where
  -- Where a key is configured, a request to a path that is not public, whose Authorization is not
  -- "Bearer " and the key, is answered 401 and counted as a failure, and no handler sees it: the
  -- answer and the state are the same whatever the handlers do.
  pub handle-refused :
      is_public_path incoming.path ≡ false
      → server.config.auth.api_key ≢ []
      → header_get incoming.request.header (codes "Authorization")
        ≢ codes "Bearer " ++ server.config.auth.api_key
      → handle server inner incoming s
        ≡ finish incoming (error_reply 401 invalid_token) (count_refusal (enter s))
  unfolding handle finish_exit
  handle-refused private key other = rw (private, not_authorized server incoming key other) refl

  finish_gauges :
      (e : Exit Reply)
      → IsWord s.gauges
      → (exit_state e).gauges ≡ (enter s).gauges
      → (finish_exit incoming e).1.gauges ≡ s.gauges
  unfolding finish_exit finish
  finish_gauges (stop r t) w h =
      ap (λ (g : Gauges). record g { active = add64 g.active minus_one }) h
      ∙ (active_balance s.gauges w).1
  finish_gauges (go r t) w h =
      ap (λ (g : Gauges). record g { active = add64 g.active minus_one }) h
      ∙ (active_balance s.gauges w).1

  -- Where the handlers give back what they take, so does the outer handler.
  pub handle_balance :
      ((request : Request) (t : State)
        → IsWord t.gauges
        → (exit_state (inner request t)).gauges ≡ t.gauges)
      → IsWord s.gauges
      → (handle server inner incoming s).1.gauges ≡ s.gauges
  unfolding handle
  handle_balance keeps w =
      finish_gauges _ w
        (elim (Bool-cases (
          not (is_public_path incoming.path)
          && not (authorized server (with_id incoming).header))) [
            | inl refused ↦ rw (refused)
            | inr served ↦
                rw served (keeps (with_id incoming) (enter s) (active_balance s.gauges w).0)
          ])
