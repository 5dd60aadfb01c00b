-- ===== src/Histogram/Tests.antt =====
-- The theorems on the histogram at concrete values.
use slick_perfmon.Prelude.{◌+◌, ◌*◌, ◌≤◌, ◌<◌, ◌≡◌, ◌≢◌, arith, false}
use slick_perfmon.Histogram.{
  Histogram, Percent, bucket_count, index_of, bucket_lower, bucket_width, bucket_midpoint, empty,
  add, merge, clear, nearest_rank, percentile_bucket,
}
use slick_perfmon.Histogram.Buckets.{
  index_of_bounds, bucket_midpoint_error, index_of-bucket_lower, index_of_mono,
}
use slick_perfmon.Histogram.Band.{empty-IsValid, empty-total}
use slick_perfmon.Histogram.Adding.{Adds, add-Adds}
use slick_perfmon.Histogram.Merging.{Merges, merge-Merges}
use slick_perfmon.Histogram.Clearing.{Clears, clear-Clears}
use slick_perfmon.Histogram.Rank.{
  IsRank, nearest_rank-IsRank, IsPercentile, percentile_bucket-IsPercentile,
}

index_of_bounds_example :
    (index_of 1000 < bucket_count)
    × (bucket_lower (index_of 1000) ≤ 1000)
    × (1000 < bucket_lower (index_of 1000) + bucket_width (index_of 1000))
index_of_bounds_example = index_of_bounds 1000 (omega arith)

bucket_midpoint_error_example :
    (1000 < 16 → bucket_midpoint (index_of 1000) ≡ 1000)
    × (32 * bucket_midpoint (index_of 1000) ≤ 32 * 1000 + 1000)
    × (32 * 1000 ≤ 32 * bucket_midpoint (index_of 1000) + 1000)
bucket_midpoint_error_example = bucket_midpoint_error 1000 (omega arith)

index_of-bucket_lower_run : index_of (bucket_lower 975) ≡ 975
index_of-bucket_lower_run = index_of-bucket_lower 975 (omega arith)

index_of_mono_run : index_of 15 ≤ index_of 16
index_of_mono_run = index_of_mono 15 16 (omega arith) (omega arith)

abbrev one_sample : Histogram
one_sample = add empty 1000

added : Adds empty 1000 one_sample
added = add-Adds empty 1000 empty-IsValid (omega arith) (omega (arith, empty-total))

total_one : one_sample.total ≡ 1
total_one = omega (arith, added.total, empty-total)

add-Adds_run : Adds one_sample 7 (add one_sample 7)
add-Adds_run = add-Adds one_sample 7 added.valid (omega arith) (omega (arith, total_one))

merge-Merges_run : Merges empty one_sample (merge empty one_sample)
merge-Merges_run =
    merge-Merges empty one_sample empty-IsValid added.valid (omega (arith, total_one, empty-total))

clear-Clears_run : Clears (clear one_sample)
clear-Clears_run = clear-Clears one_sample added.valid

nearest_rank-IsRank_example : IsRank 999_000_000 1000 (nearest_rank 999_000_000 1000)
nearest_rank-IsRank_example =
    nearest_rank-IsRank 999_000_000 1000 (omega arith) (omega arith) (omega arith)

abbrev median : Percent
median = record { low = false; high = false; scaled = 500_000_000 }

some_total : one_sample.total ≢ 0
some_total e = omega (arith, total_one)

percentile_bucket-IsPercentile_example :
    IsPercentile one_sample median (percentile_bucket one_sample median)
percentile_bucket-IsPercentile_example =
    percentile_bucket-IsPercentile one_sample median added.valid some_total (omega arith)
