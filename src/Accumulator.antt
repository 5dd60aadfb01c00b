-- ===== src/Accumulator.antt =====
-- The running statistics of one stage: include/slick/perfmon/accumulator.hpp.
pub mod Samples
mod Tests
use slick_perfmon.Prelude.{ℕ, ◌+◌, ◌-◌, ◌%◌, ◌^◌, Bool, ltb, ◌==◌, if◌then◌else◌}
use slick_perfmon.Histogram.{Histogram, Percent}
use slick_perfmon.Histogram as Hist

-- The `double` that the compiler provides: a type and the operations that the class calls.
pub record Doubles (F : Type 0) : Type 0 where
  pub of_u64 : ℕ → F
  pub plus : F → F → F
  pub minus : F → F → F
  pub times : F → F → F
  pub over : F → F → F
  pub sqrt : F → F
  pub less : F → F → Bool

pub record Accumulator (F : Type 0) : Type 0 where
  pub count : ℕ
  pub min : ℕ
  pub max : ℕ
  pub sum : F
  pub mean : F
  pub m2 : F
  pub hist : Histogram

-- `std::numeric_limits<uint64_t>::max()`.
abbrev pub u64_max : ℕ
u64_max = 2 ^ 64 - 1

module _ {F : Type 0} ⦃f : Doubles F⦄ where
  -- An `Accumulator` as it is constructed.
  pub fresh : Accumulator F
  fresh = record {
    count = 0;
    min = u64_max;
    max = 0;
    sum = f.of_u64 0;
    mean = f.of_u64 0;
    m2 = f.of_u64 0;
    hist = Hist.empty;
  }

  pub add : Accumulator F → ℕ → Accumulator F
  add a value =
      let count : ℕ = (a.count + 1) % 2 ^ 64 in
      let x = f.of_u64 value in
      let delta = f.minus x a.mean in
      let mean = f.plus a.mean (f.over delta (f.of_u64 count)) in
      record {
        count = count;
        min = if ltb value a.min then value else a.min;
        max = if ltb a.max value then value else a.max;
        sum = f.plus a.sum x;
        mean = mean;
        m2 = f.plus a.m2 (f.times delta (f.minus x mean));
        hist = Hist.add a.hist value;
      }

  pub clear : Accumulator F → Accumulator F
  clear a = record {
    count = 0;
    min = u64_max;
    max = 0;
    sum = f.of_u64 0;
    mean = f.of_u64 0;
    m2 = f.of_u64 0;
    hist = Hist.clear a.hist;
  }

  -- `a.merge_into(dst)`.
  pub merge_into : Accumulator F → Accumulator F → Accumulator F
  merge_into a dst =
      let n_a = f.of_u64 dst.count in
      let n_b = f.of_u64 a.count in
      let n = f.plus n_a n_b in
      let delta = f.minus a.mean dst.mean in
      let spread = f.over (f.times (f.times (f.times delta delta) n_a) n_b) n in
      if a.count == 0 then dst else record {
        count = (dst.count + a.count) % 2 ^ 64;
        min = if dst.count == 0 then a.min else if ltb a.min dst.min then a.min else dst.min;
        max = if dst.count == 0 then a.max else if ltb dst.max a.max then a.max else dst.max;
        sum = f.plus dst.sum a.sum;
        mean = f.plus dst.mean (f.over (f.times delta n_b) n);
        m2 = f.plus dst.m2 (f.plus a.m2 spread);
        hist = Hist.merge dst.hist a.hist;
      }

  -- The getters that do not only read a field.
  pub least : Accumulator F → ℕ
  least a = if a.count == 0 then 0 else a.min

  pub average : Accumulator F → F
  average a = if a.count == 0 then f.of_u64 0 else a.mean

  pub stddev : Accumulator F → F
  stddev a = if ltb a.count 2 then f.of_u64 0 else f.sqrt (f.over a.m2 (f.of_u64 (a.count - 1)))

  pub percentile : Accumulator F → Percent → F
  percentile a p =
      let v = f.of_u64 (Hist.percentile a.hist p) in
      let lo = f.of_u64 a.min in
      let hi = f.of_u64 a.max in
      if a.count == 0 then f.of_u64 0 else if f.less v lo then lo else if f.less hi v then hi else v
