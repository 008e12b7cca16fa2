-- ===== src/Diagnostics.antt =====
-- internal/diagnostics/pprof.go: the listener for runtime profiles.
pub mod Loopback
use go_feather_route.Prelude.{
  ℕ, zero, suc, ◌+◌, ◌*◌, Bool, true, false, ◌&&◌, ◌||◌, Option, none, some, List, [], ◌∷◌, ◌++◌,
  map, Bytes, codes, str_eq, is_empty, leb, ◌==◌, if◌then◌else◌,
}
use go_feather_route.Prelude.Int.{ℤ, pos, not_positive}
use go_feather_route.Prelude.Dict.{Dict}
use go_feather_route.Prelude.Numbers.{atoi}
use go_feather_route.Wire.{Headers, Cause}
use go_feather_route.Provider.{second}

-- What the package asks of net and net/netip: the host and the port of an address, whether a host is
-- an IP address and then whether a loopback one, and the address that a listener is bound to.
pub record Network : Type 0 where
  pub split_host_port : Bytes → Option (Bytes × Bytes)
  pub parse_is_loopback : Bytes → Option Bool
  pub listen : Bytes → Option Bytes

pub data Problem : Type 0 where
  no_host_and_port not_loopback cannot_listen : Bytes → Problem

-- The lower case of the letters of ASCII.
abbrev lower : ℕ → ℕ
lower c = if leb b'A' c && leb c b'Z' then c + 32 else c

-- Case folding for the letters of "localhost": beside the letters of ASCII only U+017F, the bytes
-- 0xC5 0xBF, folds to one of them, an "s".
unfoldable pub fold_case : Bytes → Bytes
fold_case [] = []
fold_case (c ∷ []) = lower c ∷ []
fold_case (c ∷ d ∷ s) =
    let pair = fold_case s in
    let rest = fold_case (d ∷ s) in
    if (c == 0xC5) && (d == 0xBF) then b's' ∷ pair else lower c ∷ rest

-- strings.EqualFold(host, "localhost")
unfoldable pub is_localhost : Bytes → Bool
unfolding fold_case
is_localhost host = str_eq (fold_case host) (codes "localhost")

abbrev pub is_loopback : Option Bool → Bool
is_loopback none = false
is_loopback (some loopback) = loopback

unfoldable pub validate_loopback_address : Network → Bytes → Option Problem
unfolding is_localhost
validate_loopback_address net address = elim (net.split_host_port address) [
  | none ↦ some (no_host_and_port address)
  | some (host, port) ↦
      if is_localhost host
      then none
      else if is_loopback (net.parse_is_loopback host)
      then none
      else some (not_loopback address)
]

abbrev pub profile_names : List Bytes
profile_names =
    codes "allocs"
    ∷ codes "block"
    ∷ codes "goroutine"
    ∷ codes "goroutineleak"
    ∷ codes "heap"
    ∷ codes "mutex"
    ∷ codes "threadcreate"
    ∷ []

-- The calls of mux.HandleFunc.
abbrev pub patterns : List Bytes
patterns =
    codes "GET /debug/pprof/"
    ∷ map (λ (name : Bytes). codes "GET /debug/pprof/" ++ name) profile_names

-- The channel of errors, which has room for one.
pub record Channel : Type 0 where
  pub waiting : Option Cause
  pub closed : Bool

-- A running server: the timeouts of its HTTP server, the address that its listener is bound to, and
-- the channel.
pub record Server : Type 0 where
  pub read_header_timeout : ℤ
  pub idle_timeout : ℤ
  pub bound : Bytes
  pub channel : Channel

-- A nil server and no error, an error, or a server.
pub data Started : Type 0 where
  disabled : Started
  failed : Problem → Started
  running : Server → Started

abbrev listen_on : Network → Bytes → Started
listen_on net address = elim (net.listen address) [
  | none ↦ failed (cannot_listen address)
  | some bound ↦ running (record {
    read_header_timeout = pos (5 * second);
    idle_timeout = pos (30 * second);
    bound = bound;
    channel = record { waiting = none; closed = false };
  })
]

unfoldable pub start : Network → Bytes → Started
unfolding validate_loopback_address
start net address =
    if is_empty address then disabled else elim (validate_loopback_address net address) [
      | some problem ↦ failed problem
      | none ↦ listen_on net address
    ]

-- The goroutine when `Serve` has returned: an error that is not http.ErrServerClosed is sent, and the
-- channel is closed.
unfoldable pub serve_returns : Option Cause → Server → Server
serve_returns error server = record server { channel = record { waiting = error; closed = true } }

-- `Errors`, of a server that may be nil; `none` is the nil channel.
unfoldable pub errors : Option Server → Option Channel
errors none = none
errors (some server) = some server.channel

-- `Shutdown`, of a server that may be nil, where that of its HTTP server fails or not.
unfoldable pub shutdown : Option Server → Option Cause → Option Cause
shutdown none result = none
shutdown (some server) result = result

-- `Address`, of a server that may be nil.
unfoldable pub address : Option Server → Bytes
address none = []
address (some server) = server.bound

-- What a profile endpoint writes.
pub record Page : Type 0 where
  pub status : ℕ
  pub header : Headers
  pub payload : Bytes

abbrev pub content_type : Bytes → Headers
content_type value = (codes "Content-Type", value) ∷ []

unfoldable pub index_lines : List Bytes → Bytes
index_lines [] = []
index_lines (name ∷ names) = codes "/debug/pprof/" ++ name ++ (10 ∷ []) ++ index_lines names

unfoldable pub index : Page
unfolding index_lines
index = record {
  status = 200;
  header = content_type (codes "text/plain; charset=utf-8");
  payload = codes "Go Feather Route runtime profiles:" ++ (10 ∷ index_lines profile_names);
}

-- The debug level of the query: a positive number, and 0 for everything else.
unfoldable pub debug_level : Bytes → ℕ
debug_level value = elim (atoi value) [ none ↦ 0 | some (pos n) ↦ n | some _ ↦ 0 ]

-- `write` is the profile's WriteTo, which pprof.Lookup finds or not.
unfoldable pub profile : (Bytes → Option (ℕ → Bytes)) → Page → Bytes → Bytes → Page
unfolding debug_level
profile find not_found name query = elim (find name) [
  | none ↦ not_found
  | some write ↦
      let debug = debug_level query in
      record {
        status = 200;
        header = content_type (
            if leb 1 debug
            then codes "text/plain; charset=utf-8"
            else codes "application/octet-stream");
        payload = write debug;
      }
]
