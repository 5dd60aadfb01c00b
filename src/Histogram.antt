-- ===== src/Histogram.antt =====
-- The log-linear histogram: include/slick/perfmon/histogram.hpp, at the default precision of 4 bits
-- (SLICK_PERFMON_HIST_PRECISION). Counts and indices keep the width that the class gives them.
pub mod Buckets
pub mod Band
pub mod Adding
pub mod Clearing
pub mod Merging
pub mod Rank
mod Tests
use slick_perfmon.Prelude.{
  ℕ, zero, suc, ◌+◌, ◌-◌, ◌*◌, ◌/◌, ◌%◌, ◌^◌, bit_and, Bool, true, false, ltb, leb, ◌==◌,
  if◌then◌else◌, List, get_or, set, replicate,
}

abbrev pub precision : ℕ
precision = 4

abbrev pub sub_buckets : ℕ
sub_buckets = 16

abbrev pub bucket_count : ℕ
bucket_count = 976

abbrev pub rank_scale : ℕ
rank_scale = 1_000_000_000

-- `__builtin_clzll`: the zero bits above the leading one of 64, looked for from the top.
pub clz : ℕ → ℕ → ℕ
clz zero v = 64
clz (suc n) v = let rest = clz n v in if leb (2 ^ n) v then 63 - n else rest

pub floor_log2 : ℕ → ℕ
unfolding clz
floor_log2 v = 63 - clz 64 v

abbrev sub_u32 : ℕ → ℕ → ℕ
sub_u32 a b = (a + 2 ^ 32 - b) % 2 ^ 32

pub index_of : ℕ → ℕ
index_of value =
    let exp = floor_log2 value in
    let shift = exp - precision in
    let sub = sub_u32 (value / 2 ^ shift % 2 ^ 32) sub_buckets in
    if ltb value sub_buckets
    then value
    else ((exp - precision + 1) * 2 ^ precision % 2 ^ 32 + sub) % 2 ^ 32

pub bucket_lower : ℕ → ℕ
bucket_lower index =
    let block = index / 2 ^ precision in
    let sub = bit_and index (sub_buckets - 1) in
    if ltb index sub_buckets then index else (sub_buckets + sub) * 2 ^ (block - 1) % 2 ^ 64

pub bucket_width : ℕ → ℕ
bucket_width index = if ltb index sub_buckets then 1 else 2 ^ (index / 2 ^ precision - 1) % 2 ^ 64

pub bucket_midpoint : ℕ → ℕ
bucket_midpoint index = (bucket_lower index + bucket_width index / 2) % 2 ^ 64

-- The occupied band is `used_lo .. used_hi`; it is empty where `used_lo > used_hi`.
pub record Histogram : Type 0 where
  pub counts : List ℕ
  pub total : ℕ
  pub used_lo : ℕ
  pub used_hi : ℕ

pub empty : Histogram
empty = record { counts = replicate bucket_count 0; total = 0; used_lo = bucket_count; used_hi = 0 }

abbrev pub count_at : List ℕ → ℕ → ℕ
count_at counts i = get_or counts i 0

pub add : Histogram → ℕ → Histogram
add h value =
    let i = index_of value in
    record {
      counts = set h.counts i ((count_at h.counts i + 1) % 2 ^ 64);
      total = (h.total + 1) % 2 ^ 64;
      used_lo = if ltb i h.used_lo then i else h.used_lo;
      used_hi = if ltb h.used_hi i then i else h.used_hi;
    }

-- `for (i = lo; i <= hi; ++i)`: the rounds left, and the index.
abbrev pub rounds : ℕ → ℕ → ℕ
rounds lo hi = hi + 1 - lo

pub zero_band : ℕ → ℕ → List ℕ → List ℕ
zero_band zero i counts = counts
zero_band (suc n) i counts = zero_band n (i + 1) (set counts i 0)

pub clear : Histogram → Histogram
clear h = record {
  counts = zero_band (rounds h.used_lo h.used_hi) h.used_lo h.counts;
  total = 0;
  used_lo = bucket_count;
  used_hi = 0;
}

pub add_band : ℕ → ℕ → List ℕ → List ℕ → List ℕ
add_band zero i other counts = counts
add_band (suc n) i other counts =
    add_band n (i + 1) other (set counts i ((count_at counts i + count_at other i) % 2 ^ 64))

-- `h.merge(other)`.
pub merge : Histogram → Histogram → Histogram
merge h other = if other.total == 0 then h else record {
  counts = add_band (rounds other.used_lo other.used_hi) other.used_lo other.counts h.counts;
  total = (h.total + other.total) % 2 ^ 64;
  used_lo = if ltb other.used_lo h.used_lo then other.used_lo else h.used_lo;
  used_hi = if ltb h.used_hi other.used_hi then other.used_hi else h.used_hi;
}

pub first_used : Histogram → ℕ
first_used h = if h.total == 0 then 0 else h.used_lo

pub last_used : Histogram → ℕ
last_used h = if h.total == 0 then 0 else h.used_hi

-- A `double p` as `percentile` uses it: `!(p > 0.0)`, `p >= 100.0`, and
-- `static_cast<uint64_t>(p * (kRankScale / 100) + 0.5)`, which is read in between only.
pub record Percent : Type 0 where
  pub low : Bool
  pub high : Bool
  pub scaled : ℕ

pub nearest_rank : ℕ → ℕ → ℕ
nearest_rank scaled n =
    let q = n / rank_scale in
    let r = n % rank_scale in
    let rank =
      (q * scaled % 2 ^ 64 + ((r * scaled % 2 ^ 64 + rank_scale) % 2 ^ 64 - 1) / rank_scale)
      % 2 ^ 64 in
    if rank == 0 then 1 else rank

-- The scan of `percentile`: the first bucket of the band at which `want` samples are seen.
pub seek : ℕ → ℕ → List ℕ → ℕ → ℕ → ℕ → ℕ
seek zero i counts want seen last = last
seek (suc n) i counts want seen last =
    let seen' = (seen + count_at counts i) % 2 ^ 64 in
    let rest = seek n (i + 1) counts want seen' last in if leb want seen' then i else rest

-- The bucket whose midpoint `percentile` returns, of a histogram that is not empty.
pub percentile_bucket : Histogram → Percent → ℕ
unfolding first_used last_used
percentile_bucket h p =
    if p.low
    then first_used h
    else if p.high
    then last_used h
    else seek (rounds h.used_lo h.used_hi) h.used_lo h.counts (nearest_rank p.scaled h.total) 0
        (last_used h)

pub percentile : Histogram → Percent → ℕ
percentile h p = if h.total == 0 then 0 else bucket_midpoint (percentile_bucket h p)
