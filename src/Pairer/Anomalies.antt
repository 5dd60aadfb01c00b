-- ===== src/Pairer/Anomalies.antt =====
-- The anomaly counters of the points, and the bucket that they share when the table is full:
-- `points_` and `overflow_` of include/slick/perfmon/pairing.hpp.
pub mod Totals
use slick_perfmon.Prelude.{
  ℕ, ◌+◌, ◌-◌, ◌%◌, ◌^◌, Bool, not, ◌||◌, ◌==◌, if◌then◌else◌, Option, none, some, List, [], ◌∷◌,
  ◌++◌,
}
use slick_perfmon.OpenMap.{OpenMap, Default, find, load, store, insert, for_each}
use slick_perfmon.OpenMap as Map

pub record PointAnomalies : Type 0 where
  pub invalid : ℕ
  pub abandoned : ℕ
  pub orphan : ℕ
  pub out_of_range : ℕ

abbrev pub no_anomalies : PointAnomalies
no_anomalies = record { invalid = 0; abandoned = 0; orphan = 0; out_of_range = 0 }

instance pub PointAnomalies-Default : Default PointAnomalies
PointAnomalies-Default = record { fresh = no_anomalies }

pub any_anomaly : PointAnomalies → Bool
any_anomaly a =
    not (a.invalid == 0)
    || not (a.abandoned == 0)
    || not (a.orphan == 0)
    || not (a.out_of_range == 0)

-- `a - b`, which wraps.
pub since : PointAnomalies → PointAnomalies → PointAnomalies
since a b = record {
  invalid = (a.invalid + 2 ^ 64 - b.invalid) % 2 ^ 64;
  abandoned = (a.abandoned + 2 ^ 64 - b.abandoned) % 2 ^ 64;
  orphan = (a.orphan + 2 ^ 64 - b.orphan) % 2 ^ 64;
  out_of_range = (a.out_of_range + 2 ^ 64 - b.out_of_range) % 2 ^ 64;
}

-- The four counters by name, read and incremented.
pub data Anomaly : Type 0 where
  invalid : Anomaly
  abandoned : Anomaly
  orphan : Anomaly
  out_of_range : Anomaly

abbrev pub count_of : Anomaly → PointAnomalies → ℕ
count_of invalid a = a.invalid
count_of abandoned a = a.abandoned
count_of orphan a = a.orphan
count_of out_of_range a = a.out_of_range

pub bump : Anomaly → PointAnomalies → PointAnomalies
bump invalid a = record a { invalid = (a.invalid + 1) % 2 ^ 64 }
bump abandoned a = record a { abandoned = (a.abandoned + 1) % 2 ^ 64 }
bump orphan a = record a { orphan = (a.orphan + 1) % 2 ^ 64 }
bump out_of_range a = record a { out_of_range = (a.out_of_range + 1) % 2 ^ 64 }

pub record Ledger : Type 0 where
  pub points : OpenMap PointAnomalies
  pub overflow : PointAnomalies

-- The reference that `anomalies` returns.
pub data Place : Type 0 where
  entry : ℕ → Place
  shared : Place

pub anomalies : Ledger → ℕ → Place × Ledger
anomalies l p = elim (find l.points p) [
  | some i ↦ (entry i, l)
  | none ↦
      let (q, points) = insert l.points p no_anomalies in
      (elim q [ some i ↦ entry i | none ↦ shared ], record l { points = points })
]

pub write : Ledger → Place → Anomaly → Ledger
write l (entry i) a = record l { points = store l.points i (bump a (load l.points i)) }
write l shared a = record l { overflow = bump a l.overflow }

-- `++anomalies(p).a`.
pub tally : Anomaly → ℕ → Ledger → Ledger
tally a p l = let (place, l') = anomalies l p in write l' place a

pub anomalies_of : Ledger → ℕ → PointAnomalies
anomalies_of l p = elim (find l.points p) [ some i ↦ load l.points i | none ↦ no_anomalies ]

pub reset : ℕ → Ledger
reset max_stages = record { points = Map.reset max_stages; overflow = no_anomalies }
