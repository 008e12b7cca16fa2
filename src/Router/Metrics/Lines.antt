-- ===== src/Router/Metrics/Lines.antt =====
-- The names of the samples of `metrics` and `writeHistogram`, whatever the labels hold.
use go_feather_route.Prelude.{
  ℕ, ◌≡◌, refl, true, some, List, [], ◌∷◌, ◌++◌, Bytes, codes, all, All, All-append, arith,
}
use go_feather_route.Prelude.Int.{pos}
use go_feather_route.Prelude.Dict.{Dict}
use go_feather_route.Prelude.Numbers.{print_int, print_nat}
use go_feather_route.Prelude.Numbers.Printed.{print_int-IsSolid}
use go_feather_route.Router.Labels.{escape_metric_label}
use go_feather_route.Router.Histogram.{DurationHistogram, write_histogram}
use go_feather_route.Router.Server.{Server, State, Gauges, Counters, RouteKey, RouteMetric}
use go_feather_route.Router.Metrics.{
  Sample, print_samples, counter_samples, bucket_samples, histogram_samples, reason_samples,
  route_labels, status_samples, route_samples, samples, metrics,
}
use go_feather_route.Router.Handling.{raw}
use go_feather_route.Router.Metrics.Read.{
  is_line, enclosed-is_line, is_line-append, solid-is_line, take_apart, take_apart-print_samples,
}

-- Every line of the metrics has a name of one line.
AreLines : List Sample → Type 0
AreLines l = All (λ s. is_line s.name ≡ true) l

AreLines-append : (l l' : List Sample) → AreLines l → AreLines l' → AreLines (l ++ l')
unfolding AreLines
AreLines-append l l' h h' = All-append (λ s. is_line s.name ≡ true) l l' h h'

all→AreLines : (l : List Sample) → all (λ s. is_line s.name) l ≡ true → AreLines l
unfolding AreLines
all→AreLines [] h = tt
all→AreLines (s ∷ l) h = (ground arith, all→AreLines l (ground arith))

counter_samples-AreLines :
    (server : Server) (g : Gauges) (c : Counters) → AreLines (counter_samples server g c)
unfolding counter_samples
counter_samples-AreLines server g c = all→AreLines (counter_samples server g c) refl

print_nat-is_line : (n : ℕ) → is_line (print_nat n) ≡ true
unfolding print_int
print_nat-is_line n = solid-is_line (print_nat n) (print_int-IsSolid (pos n))

escape-is_line : (s : Bytes) → is_line (escape_metric_label s) ≡ true
unfolding escape_metric_label
escape-is_line [] = refl
escape-is_line (c ∷ []) = ground arith
escape-is_line (c ∷ d ∷ s) = ground (arith, escape-is_line s, escape-is_line (d ∷ s))

bucket_samples-AreLines :
    (name : Bytes) (lines : List (ℕ × ℕ))
    → is_line name ≡ true
    → AreLines (bucket_samples name lines)
unfolding bucket_samples AreLines
bucket_samples-AreLines name [] h = tt
bucket_samples-AreLines name ((boundary, n) ∷ lines) h = (
  enclosed-is_line (name ++ codes "_bucket{le=\"") (print_nat boundary) (codes "\"}")
      (is_line-append name (codes "_bucket{le=\"") h refl) (print_nat-is_line boundary) refl,
  bucket_samples-AreLines name lines h,
)

histogram_samples-AreLines :
    (name : Bytes) (h : DurationHistogram)
    → is_line name ≡ true
    → AreLines (histogram_samples name h)
unfolding histogram_samples AreLines
histogram_samples-AreLines name h line =
    let (lines, infinite, sum, count) = write_histogram h in
    AreLines-append _ _ (bucket_samples-AreLines name lines line) (
      is_line-append name (codes "_bucket{le=\"+Inf\"}") line refl,
      (
        is_line-append name (codes "_sum") line refl,
        (is_line-append name (codes "_count") line refl, tt),
      ),
    )

reason_samples-AreLines : (reasons : Dict Bytes ℕ) → AreLines (reason_samples reasons)
unfolding reason_samples AreLines
reason_samples-AreLines [] = tt
reason_samples-AreLines ((reason, n) ∷ reasons) = (
  is_line-append (escape_metric_label reason) (codes "\"}") (escape-is_line reason) refl,
  reason_samples-AreLines reasons,
)

route_labels-is_line : (key : RouteKey) → is_line (route_labels key) ≡ true
unfolding route_labels
route_labels-is_line key =
    enclosed-is_line
      (codes "provider=\"" ++ escape_metric_label key.provider ++ codes "\",model=\"")
      (escape_metric_label key.model) (codes "\"")
      (is_line-append (escape_metric_label key.provider) (codes "\",model=\"")
        (escape-is_line key.provider) refl)
      (escape-is_line key.model) refl

status_samples-AreLines :
    (labels : Bytes) (statuses : Dict ℕ ℕ)
    → is_line labels ≡ true
    → AreLines (status_samples labels statuses)
unfolding status_samples AreLines
status_samples-AreLines labels [] h = tt
status_samples-AreLines labels ((status, n) ∷ statuses) h = (
  enclosed-is_line (labels ++ codes ",status=\"") (print_nat status) (codes "\"}")
      (is_line-append labels (codes ",status=\"") h refl) (print_nat-is_line status) refl,
  status_samples-AreLines labels statuses h,
)

route_samples-AreLines : (stats : Dict RouteKey RouteMetric) → AreLines (route_samples stats)
unfolding route_samples AreLines
route_samples-AreLines [] = tt
route_samples-AreLines ((key, metric) ∷ stats) =
    let labels = route_labels key in
    let line = is_line-append labels (codes "}") (route_labels-is_line key) refl in
    (
      line,
      (
        line,
        (
          line,
          AreLines-append _ _
              (status_samples-AreLines labels metric.statuses (route_labels-is_line key))
              (route_samples-AreLines stats),
        ),
      ),
    )

samples-AreLines : (server : Server) (s : State) → AreLines (samples server s)
unfolding samples
samples-AreLines server s =
    AreLines-append _ _
      (AreLines-append _ _
        (AreLines-append _ _
          (AreLines-append _ _
            (AreLines-append _ _
              (AreLines-append _ _ (counter_samples-AreLines server s.gauges s.counters) (
                histogram_samples-AreLines (codes "request_duration_milliseconds")
                  s.request_histogram refl))
              (histogram_samples-AreLines (codes "upstream_duration_milliseconds")
                s.upstream_histogram refl))
            (histogram_samples-AreLines (codes "first_byte_milliseconds") s.first_byte_histogram
              refl))
          (histogram_samples-AreLines (codes "stream_duration_milliseconds") s.stream_histogram
            refl))
        (reason_samples-AreLines s.retry_reasons))
      (route_samples-AreLines s.route_stats)

-- Taken apart at its line feeds, and each line at its last space, the metrics text gives back every sample
-- of the server's state, in order, with its number and with the text of its name and labels as it was
-- written: whatever bytes the labels hold, no sample breaks into two lines or runs into another. (How a
-- label is quoted is not read.)
pub take_apart-metrics :
    (server : Server) (s : State)
    → (text : Bytes) × ((metrics server s).payload ≡ raw text)
      × (take_apart text ≡ some (samples server s))
unfolding metrics AreLines
take_apart-metrics server s = (
  print_samples (samples server s),
  refl,
  take_apart-print_samples (samples server s) (samples-AreLines server s),
)
