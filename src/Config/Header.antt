-- ===== src/Config/Header.antt =====
-- The CSV header of a configuration: `percentile_label`, `unit_suffix`, `csv_header`, `csv_kind` and
-- `is_pre_kind_header` of include/slick/perfmon/collector.hpp.
use slick_perfmon.Prelude.{
  ℕ, zero, suc, ◌+◌, Bool, true, false, not, ◌==◌, if◌then◌else◌, List, [], ◌∷◌, ◌++◌, map,
}
use slick_perfmon.Prelude.Text.{codes, contains}

-- `unit`.
pub data OutputUnit : Type 0 where
  cycles nanoseconds microseconds : OutputUnit

-- What the code uses of a percentile, a `double`: its tests, how the C++ library prints it with a
-- number of significant digits, and whether the text reads back as the same number.
pub record Percentiles (P : Type 0) : Type 0 where
  pub is_finite : P → Bool
  pub is_negative : P → Bool
  pub is_above_100 : P → Bool
  pub print : ℕ → P → List ℕ
  pub reads_back : List ℕ → P → Bool

-- The loop over the precision: the rounds left, and the precision of the next one.
unfoldable pub shortest : {P : Type 0} → Percentiles P → ℕ → ℕ → P → List ℕ → List ℕ
shortest d zero prec p s = s
shortest d (suc n) prec p s =
    let s' = d.print prec p in
    let more = shortest d n (prec + 1) p s' in if d.reads_back s' p then s' else more

abbrev pub dot : ℕ
dot = 46

abbrev pub underscore : ℕ
underscore = 95

-- From 6 to `max_digits10`, which is 17.
unfoldable pub percentile_label : {P : Type 0} → Percentiles P → P → List ℕ
unfolding shortest
percentile_label d p =
    codes "p" ++ map (λ (c : ℕ). if c == dot then underscore else c) (shortest d 12 6 p [])

unfoldable pub unit_suffix : OutputUnit → List ℕ
unit_suffix cycles = codes "cycles"
unit_suffix microseconds = codes "us"
unit_suffix nanoseconds = codes "ns"

unfoldable pub label_columns : {P : Type 0} → Percentiles P → List P → List ℕ → List ℕ
label_columns d [] sfx = []
label_columns d (p ∷ ps) sfx =
    codes "," ++ (percentile_label d p ++ (sfx ++ label_columns d ps sfx))

unfoldable pub csv_header : {P : Type 0} → Percentiles P → List P → OutputUnit → Bool → List ℕ
unfolding label_columns
csv_header d percentiles u subtract_overhead =
    let sfx = codes "_" ++ unit_suffix u in
    codes "timestamp,point,stage,kind,count,dropped,invalid,stalled,abandoned,orphan,out_of_range"
    ++ (codes ",min"
        ++ (sfx
            ++ (codes ",mean"
                ++ (sfx
                    ++ (codes ",stddev"
                        ++ (sfx
                            ++ (label_columns d percentiles sfx
                                ++ (codes ",max"
                                    ++ (sfx
                                        ++ (codes ",tsc_hz"
                                            ++ (if subtract_overhead
                                                then codes ",overhead" ++ sfx
                                                else [])))))))))))

pub csv_kind : Bool → List ℕ
csv_kind true = codes "value"
csv_kind false = codes "latency"

unfoldable pub is_pre_kind_header : List ℕ → Bool
unfolding contains
is_pre_kind_header header = not (contains (codes ",stage,kind,") header)
