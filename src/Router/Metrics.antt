-- ===== src/Router/Metrics.antt =====
-- The metrics text: `metrics` and `writeHistogram`.
pub mod Read
pub mod Lines
pub mod Counted
pub mod Tracked
use go_feather_route.Prelude.{ℕ, Option, List, [], ◌∷◌, ◌++◌, Bytes, codes, length}
use go_feather_route.Prelude.Int.{ℤ, pos, to_int64}
use go_feather_route.Prelude.Dict.{Dict, insert, bytes_eq}
use go_feather_route.Prelude.Numbers.{print_int, print_nat}
use go_feather_route.Router.Labels.{escape_metric_label}
use go_feather_route.Router.Histogram.{DurationHistogram, cumulative_lines, write_histogram}
use go_feather_route.Router.Server.{Server, State, Gauges, Counters, RouteKey, RouteMetric}
use go_feather_route.Router.Handling.{Reply, raw}

-- One line: the name with its labels, and the number.
pub record Sample : Type 0 where
  pub name : Bytes
  pub value : ℤ

abbrev pub sample : Bytes → ℕ → Sample
sample name value = record { name = codes "go_feather_route_" ++ name; value = pos value }

-- A gauge is an atomic.Int64.
abbrev pub gauge : Bytes → ℕ → Sample
gauge name value = record { name = codes "go_feather_route_" ++ name; value = to_int64 value }

-- fmt.Fprintf(response, "... %d\n", ...)
unfoldable pub print_sample : Sample → Bytes
print_sample s = s.name ++ (32 ∷ (print_int s.value ++ (10 ∷ [])))

unfoldable pub print_samples : List Sample → Bytes
unfolding print_sample
print_samples [] = []
print_samples (s ∷ samples) = print_sample s ++ print_samples samples

unfoldable pub counter_samples : Server → Gauges → Counters → List Sample
counter_samples server g c =
    sample (codes "requests_total") c.requests
    ∷ sample (codes "errors_total") c.errors
    ∷ sample (codes "models_total") (length server.config.routes)
    ∷ gauge (codes "active_requests") g.active
    ∷ gauge (codes "active_chat_requests") g.active_chat
    ∷ gauge (codes "active_embeddings") g.active_embeddings
    ∷ gauge (codes "active_streams") g.active_streams
    ∷ sample (codes "streams_total") c.streams_total
    ∷ sample (codes "streams_completed_total") c.stream_completed
    ∷ sample (codes "streams_aborted_total") c.stream_aborted
    ∷ sample (codes "auth_failures_total") c.auth_failures
    ∷ sample (codes "limit_rejections_total") c.limit_rejections
    ∷ sample (codes "cancellations_total") c.cancellations
    ∷ sample (codes "provider_errors_total") c.provider_errors
    ∷ sample (codes "retries_total") c.retries
    ∷ sample (codes "response_bytes_total") c.bytes
    ∷ sample (codes "request_duration_milliseconds_total") c.duration_ms
    ∷ sample (codes "upstream_duration_milliseconds_total") c.upstream_ms
    ∷ sample (codes "first_byte_milliseconds_total") c.first_byte_ms
    ∷ sample (codes "provider_selection_milliseconds_total") c.selection_ms
    ∷ sample (codes "connection_establishment_milliseconds_total") c.connection_ms
    ∷ sample (codes "first_response_milliseconds_total") c.first_response_ms
    ∷ sample (codes "stream_duration_milliseconds_total") c.stream_ms
    ∷ []

unfoldable pub bucket_samples : Bytes → List (ℕ × ℕ) → List Sample
bucket_samples name [] = []
bucket_samples name ((boundary, cumulative) ∷ lines) =
    sample (name ++ codes "_bucket{le=\"" ++ print_nat boundary ++ codes "\"}") cumulative
    ∷ bucket_samples name lines

unfoldable pub histogram_samples : Bytes → DurationHistogram → List Sample
unfolding bucket_samples
histogram_samples name histogram =
    let (lines, infinite, sum, count) = write_histogram histogram in
    bucket_samples name lines
    ++ (sample (name ++ codes "_bucket{le=\"+Inf\"}") infinite
        ∷ sample (name ++ codes "_sum") sum
        ∷ sample (name ++ codes "_count") count
        ∷ [])

-- The ranges over maps are in the order of the association lists, where Go leaves it open.
unfoldable pub reason_samples : Dict Bytes ℕ → List Sample
reason_samples [] = []
reason_samples ((reason, metric) ∷ reasons) =
    sample (codes "retries_by_reason_total{reason=\"" ++ escape_metric_label reason ++ codes "\"}")
      metric
    ∷ reason_samples reasons

unfoldable pub route_labels : RouteKey → Bytes
route_labels key =
    codes "provider=\""
    ++ escape_metric_label key.provider
    ++ codes "\",model=\""
    ++ escape_metric_label key.model
    ++ codes "\""

unfoldable pub status_samples : Bytes → Dict ℕ ℕ → List Sample
status_samples labels [] = []
status_samples labels ((status, metric) ∷ statuses) =
    sample
      (codes "upstream_status_total{"
        ++ labels
        ++ codes ",status=\""
        ++ print_nat status
        ++ codes "\"}")
      metric
    ∷ status_samples labels statuses

unfoldable pub route_samples : Dict RouteKey RouteMetric → List Sample
unfolding route_labels status_samples
route_samples [] = []
route_samples ((key, metric) ∷ stats) =
    let labels = route_labels key in
    sample (codes "upstream_requests_total{" ++ labels ++ codes "}") metric.requests
    ∷ sample (codes "upstream_errors_total{" ++ labels ++ codes "}") metric.errors
    ∷ sample (codes "upstream_retries_total{" ++ labels ++ codes "}") metric.retries
    ∷ (status_samples labels metric.statuses ++ route_samples stats)

-- Every line of the text, in order.
unfoldable pub samples : Server → State → List Sample
unfolding counter_samples histogram_samples reason_samples route_samples
samples server s =
    counter_samples server s.gauges s.counters
    ++ histogram_samples (codes "request_duration_milliseconds") s.request_histogram
    ++ histogram_samples (codes "upstream_duration_milliseconds") s.upstream_histogram
    ++ histogram_samples (codes "first_byte_milliseconds") s.first_byte_histogram
    ++ histogram_samples (codes "stream_duration_milliseconds") s.stream_histogram
    ++ reason_samples s.retry_reasons
    ++ route_samples s.route_stats

unfoldable pub metrics : Server → State → Reply
unfolding print_samples samples
metrics server s = record {
  status = 200;
  header = insert (codes "Content-Type") (codes "text/plain; version=0.0.4") [];
  payload = raw (print_samples (samples server s));
  event = Option.none;
}
