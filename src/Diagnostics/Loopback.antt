-- ===== src/Diagnostics/Loopback.antt =====
-- Which addresses `Start` listens on.
use go_feather_route.Prelude.{
  ◌≡◌, refl, sym, ap, ◌∙◌, inl, inr, ◌⊎◌, Bool, true, false, Option, none, some, Bytes, is_empty,
  Bool-cases, Option-cases,
}
use go_feather_route.Diagnostics.{
  Network, is_localhost, is_loopback, validate_loopback_address, Server, Started, running,
  listen_on, start,
}

-- The address has a port, and its host is "localhost" in some case, or a loopback IP address.
pub record IsLoopback (net : Network) (address : Bytes) : Type 0 where
  pub host : Bytes
  pub port : Bytes
  pub parts : net.split_host_port address ≡ some (host, port)
  pub local : (is_localhost host ≡ true) ⊎ (net.parse_is_loopback host ≡ some true)

is_loopback-some : (o : Option Bool) → is_loopback o ≡ true → o ≡ some true
is_loopback-some none h = absurd (cc h)
is_loopback-some (some true) h = refl
is_loopback-some (some false) h = absurd (cc h)

module _ (net : Network) (address : Bytes) where
  validate-IsLoopback : validate_loopback_address net address ≡ none → IsLoopback net address
  unfolding validate_loopback_address
  validate-IsLoopback h = elim (Option-cases (net.split_host_port address)) [
    | inl e ↦ absurd (cc (rw (e, validate_loopback_address) at h))
    | inr ((host, port), e) ↦ elim (Bool-cases (is_localhost host)) [
      | inl local ↦ record { host = host; port = port; parts = e; local = inl local }
      | inr other ↦ elim (Bool-cases (is_loopback (net.parse_is_loopback host))) [
        | inl loopback ↦ record {
          host = host;
          port = port;
          parts = e;
          local = inr (is_loopback-some _ loopback);
        }
        | inr remote ↦ absurd (cc (rw (other, remote) at (rw (e, validate_loopback_address) at h)))
      ]
    ]
  ]

  bound_of : Started → Option Bytes
  bound_of (running server) = some server.bound
  bound_of _ = none

  listen_on-bound_of : bound_of (listen_on net address) ≡ net.listen address
  unfolding bound_of
  listen_on-bound_of = elim (Option-cases (net.listen address)) [
    | inl e ↦ rw (e, bound_of) refl
    | inr (bound, e) ↦ rw (e, bound_of) refl
  ]

  -- A server runs only where the address that was asked for is a loopback one, and it is bound to what
  -- the listener of that address answers.
  pub start-IsLoopback :
      (server : Server)
      → start net address ≡ running server
      → IsLoopback net address × (net.listen address ≡ some server.bound)
  unfolding start bound_of
  start-IsLoopback server h = elim (Bool-cases (is_empty address)) [
    | inl empty ↦ absurd (cc (rw empty at h))
    | inr given ↦ elim (Option-cases (validate_loopback_address net address)) [
      | inr (problem, e) ↦ absurd (cc (rw (given, e) at h))
      | inl valid ↦
          (validate-IsLoopback valid, sym listen_on-bound_of ∙ ap bound_of (rw (given, valid) at h))
    ]
  ]
