-- ===== src/Router/Logging/Line.antt =====
-- The log line that the outer handler writes after each request.
use go_feather_route.Prelude.{◌≡◌, refl, some, [], ◌∷◌, Bytes, codes, All, str_eq}
use go_feather_route.Prelude.Int.{ℤ, pos}
use go_feather_route.Prelude.Dict.{Dict, lookup, bytes_eq}
use go_feather_route.Wire.{header_get}
use go_feather_route.Router.Handling.{Reply}
use go_feather_route.Router.Exchange.{milliseconds}
use go_feather_route.Router.Http.{Incoming, with_id}
use go_feather_route.Router.Logging.{safe_log_value}
use go_feather_route.Router.Logging.Controls.{IsPrinted, safe_log_value-IsPrinted}

pub data Attribute : Type 0 where
  text : Bytes → Attribute
  number : ℤ → Attribute

-- The attributes of `s.logger.Info("request", ...)`, in order. How a value is written is package slog's.
unfoldable pub log_line : Incoming → Reply → Dict Bytes Attribute
log_line incoming reply =
    (codes "method", text incoming.method)
    ∷ (codes "path", text incoming.path)
    ∷ (
      codes "request_id",
      text (safe_log_value (header_get (with_id incoming).header (codes "X-Request-Id"))),
    )
    ∷ (codes "status", number (pos reply.status))
    ∷ (codes "bytes", number (pos (incoming.bytes reply)))
    ∷ (codes "duration_ms", number (milliseconds incoming.duration))
    ∷ []

-- The request ID in the log line of a request, alone of its texts, has no control character of ASCII,
-- whatever the client sent and whatever the random source gives.
pub log_line-IsPrinted :
    (incoming : Incoming) (reply : Reply)
    → (value : Bytes) × (lookup (codes "request_id") (log_line incoming reply) ≡ some (text value))
      × All IsPrinted value
unfolding log_line lookup str_eq
log_line-IsPrinted incoming reply = (
  safe_log_value (header_get (with_id incoming).header (codes "X-Request-Id")),
  refl,
  safe_log_value-IsPrinted (header_get (with_id incoming).header (codes "X-Request-Id")),
)
