-- ===== src/Router/Histogram/Counts.antt =====
-- What `writeHistogram` writes after `observe`.
use go_feather_route.Prelude.{ℕ, suc, ◌≤◌, List, [], ◌∷◌, leb, if◌then◌else◌, All}
use go_feather_route.Prelude.Int.{ℤ, pos, negsuc, add64}
use go_feather_route.Router.Histogram.{
  DurationHistogram, duration_buckets_milliseconds, to_milliseconds, observe, cumulative_lines,
}

-- How many of the durations that are not negative last at most that many milliseconds.
pub count_le : ℕ → List ℤ → ℕ
count_le k [] = 0
count_le k (negsuc n ∷ ds) = count_le k ds
count_le k (pos n ∷ ds) = if leb (to_milliseconds n) k then suc (count_le k ds) else count_le k ds

pub count_nonneg : List ℤ → ℕ
count_nonneg [] = 0
count_nonneg (negsuc n ∷ ds) = count_nonneg ds
count_nonneg (pos n ∷ ds) = suc (count_nonneg ds)

pub observe_all : DurationHistogram → List ℤ → DurationHistogram
observe_all h [] = h
observe_all h (d ∷ ds) = observe_all (observe d h) ds

abbrev IsAscending : List ℕ → Type 0
IsAscending [] = Unit
IsAscending (k ∷ ks) = All (λ j. k ≤ j) ks × IsAscending ks

abbrev raise : ℕ → ℕ × ℕ → ℕ × ℕ
raise ms (k, n) = (k, if leb ms k then add64 n 1 else n)

abbrev raise_by : ℤ → ℕ × ℕ → ℕ × ℕ
raise_by (negsuc n) line = line
raise_by (pos n) line = raise (to_milliseconds n) line

abbrev raise_all : List ℤ → ℕ × ℕ → ℕ × ℕ
raise_all [] line = line
raise_all (d ∷ ds) line = raise_all ds (raise_by d line)

lines_of : DurationHistogram → List (ℕ × ℕ)
lines_of h = cumulative_lines 0 duration_buckets_milliseconds h.buckets
