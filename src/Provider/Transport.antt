-- ===== src/Provider/Transport.antt =====
-- The HTTP client that the providers share: `NewHTTPClient`, and the choice in `NewClient`.
use go_feather_route.Prelude.{ℕ, ◌*◌, Option, none, some}
use go_feather_route.Prelude.Int.{ℤ, pos}
use go_feather_route.Provider.{second}

-- The net.Dialer whose DialContext the transport calls.
pub record Dialer : Type 0 where
  pub timeout : ℤ
  pub keep_alive : ℤ

-- The fields of http.Transport that are set; `Rest` are the others.
pub record Transport (Rest : Type 0) : Type 0 where
  pub dial_context : Dialer
  pub max_idle_conns : ℕ
  pub max_idle_conns_per_host : ℕ
  pub idle_conn_timeout : ℤ
  pub tls_handshake_timeout : ℤ
  pub expect_continue_timeout : ℤ
  pub rest : Rest

-- `default_transport` is http.DefaultTransport; its clone is the value.
unfoldable pub new_http_client : {Rest : Type 0} → Transport Rest → Transport Rest
new_http_client default_transport = record default_transport {
  dial_context = record { timeout = pos (5 * second); keep_alive = pos (30 * second) };
  max_idle_conns = 100;
  max_idle_conns_per_host = 32;
  idle_conn_timeout = pos (90 * second);
  tls_handshake_timeout = pos (5 * second);
  expect_continue_timeout = pos second;
}

-- The HTTP client of NewClient, whose argument may be nil.
unfoldable pub http_client_or_new :
    {Rest : Type 0} → Transport Rest → Option (Transport Rest) → Transport Rest
unfolding new_http_client
http_client_or_new default_transport none = new_http_client default_transport
http_client_or_new default_transport (some http_client) = http_client
