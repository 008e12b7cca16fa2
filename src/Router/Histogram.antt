-- ===== src/Router/Histogram.antt =====
-- The duration histograms and their lines in the metrics text.
pub mod Counts
use go_feather_route.Prelude.{
  ℕ, ◌+◌, ◌/◌, ◌%◌, ◌^◌, Bool, true, false, List, [], ◌∷◌, leb, if◌then◌else◌,
}
use go_feather_route.Prelude.Int.{ℤ, pos, negsuc, add64}

abbrev pub duration_buckets_milliseconds : List ℕ
duration_buckets_milliseconds =
    1 ∷ 5 ∷ 10 ∷ 25 ∷ 50 ∷ 100 ∷ 250 ∷ 500 ∷ 1000 ∷ 2500 ∷ 5000 ∷ 10000 ∷ []

-- One bucket for each boundary, and one for what is longer than all of them.
pub record DurationHistogram : Type 0 where
  pub buckets : List ℕ
  pub overflow : ℕ
  pub count : ℕ
  pub sum : ℕ

abbrev pub zeros : List ℕ → List ℕ
zeros [] = []
zeros (_ ∷ l) = 0 ∷ zeros l

abbrev pub new_histogram : DurationHistogram
new_histogram = record {
  buckets = zeros duration_buckets_milliseconds;
  overflow = 0;
  count = 0;
  sum = 0;
}

-- The loop over the boundaries: one more in the first bucket whose boundary is not below the value.
unfoldable pub add_to_bucket : ℕ → List ℕ → List ℕ → List ℕ
add_to_bucket milliseconds (boundary ∷ boundaries) (n ∷ buckets) =
    let later = n ∷ add_to_bucket milliseconds boundaries buckets in
    if leb milliseconds boundary then add64 n 1 ∷ buckets else later
add_to_bucket milliseconds _ buckets = buckets

unfoldable pub exceeds_all : ℕ → List ℕ → Bool
exceeds_all milliseconds [] = true
exceeds_all milliseconds (boundary ∷ boundaries) =
    if leb milliseconds boundary then false else exceeds_all milliseconds boundaries

-- A duration is in nanoseconds.
abbrev pub to_milliseconds : ℕ → ℕ
to_milliseconds n = n / 1000000

unfoldable pub observe : ℤ → DurationHistogram → DurationHistogram
unfolding add_to_bucket exceeds_all
observe (negsuc n) h = h
observe (pos n) h = record {
  buckets = add_to_bucket (to_milliseconds n) duration_buckets_milliseconds h.buckets;
  overflow =
      if exceeds_all (to_milliseconds n) duration_buckets_milliseconds
      then add64 h.overflow 1
      else h.overflow;
  count = add64 h.count 1;
  sum = add64 h.sum (to_milliseconds n);
}

-- The boundaries with the cumulative counts that are written after them.
unfoldable pub cumulative_lines : ℕ → List ℕ → List ℕ → List (ℕ × ℕ)
cumulative_lines cumulative (boundary ∷ boundaries) (n ∷ buckets) =
    (boundary, add64 cumulative n) ∷ cumulative_lines (add64 cumulative n) boundaries buckets
cumulative_lines cumulative _ _ = []

-- The numbers of `writeHistogram`: the lines of the boundaries, "+Inf", the sum and the count.
unfoldable pub write_histogram : DurationHistogram → List (ℕ × ℕ) × ℕ × ℕ × ℕ
unfolding cumulative_lines
write_histogram h =
    (cumulative_lines 0 duration_buckets_milliseconds h.buckets, h.count, h.sum, h.count)

-- `recordDuration`
unfoldable pub record_duration : ℕ → ℤ → ℕ
record_duration target (negsuc n) = target
record_duration target (pos n) =
    if leb 1 (to_milliseconds n) then add64 target (to_milliseconds n) else target
