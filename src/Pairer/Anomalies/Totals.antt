-- ===== src/Pairer/Anomalies/Totals.antt =====
-- `++anomalies(p).a` counts once, whether the point has an entry, gets one, or shares the overflow.
use native.Mathlib.Nat.{mod-eq_of_lt}
use slick_perfmon.Prelude.{
  ℕ, ◌+◌, ◌^◌, ◌<◌, ◌≡◌, refl, sym, ◌∙◌, ◌≢◌, ◌⊎◌, inl, inr, arith, Option-cases,
}
use slick_perfmon.OpenMap.{find, load, insert}
use slick_perfmon.OpenMap.Cells.{total}
use slick_perfmon.OpenMap.Reset.{reset-Empties}
use slick_perfmon.OpenMap.Valid.{IsValid, Stored, find-Stored}
use slick_perfmon.OpenMap.Insert.{insert-Inserts, added_zero}
use slick_perfmon.OpenMap.Store.{store-Stores, entry-le-total}
use slick_perfmon.Pairer.Anomalies.{
  PointAnomalies, Anomaly, invalid, abandoned, orphan, out_of_range, count_of, bump, Ledger, Place,
  entry, shared, anomalies, write, tally, no_anomalies, PointAnomalies-Default, reset,
}

-- What a counter adds up to, over every point and the shared bucket.
unfoldable pub sum_of : Anomaly → Ledger → ℕ
sum_of a l =
    total (λ (k : ℕ) (x : PointAnomalies). count_of a x) l.points.cells + count_of a l.overflow

-- The ledger with one `a` more.
pub record Tallies (a : Anomaly) (l out : Ledger) : Type 0 where
  pub valid : IsValid out.points
  pub one_more : sum_of a out ≡ sum_of a l + 1
  pub others : (b : Anomaly) → b ≢ a → sum_of b out ≡ sum_of b l

bump_self :
    (a : Anomaly) (x : PointAnomalies)
    → count_of a x + 1 < 2 ^ 64
    → count_of a (bump a x) ≡ count_of a x + 1
unfolding bump
bump_self invalid x h = mod-eq_of_lt h
bump_self abandoned x h = mod-eq_of_lt h
bump_self orphan x h = mod-eq_of_lt h
bump_self out_of_range x h = mod-eq_of_lt h

bump_other : (a b : Anomaly) (x : PointAnomalies) → b ≢ a → count_of b (bump a x) ≡ count_of b x
unfolding bump
bump_other invalid invalid x h = absurd (h refl)
bump_other invalid abandoned x h = refl
bump_other invalid orphan x h = refl
bump_other invalid out_of_range x h = refl
bump_other abandoned invalid x h = refl
bump_other abandoned abandoned x h = absurd (h refl)
bump_other abandoned orphan x h = refl
bump_other abandoned out_of_range x h = refl
bump_other orphan invalid x h = refl
bump_other orphan abandoned x h = refl
bump_other orphan orphan x h = absurd (h refl)
bump_other orphan out_of_range x h = refl
bump_other out_of_range invalid x h = refl
bump_other out_of_range abandoned x h = refl
bump_other out_of_range orphan x h = refl
bump_other out_of_range out_of_range x h = absurd (h refl)

count_none : (a : Anomaly) → count_of a no_anomalies ≡ 0
count_none invalid = refl
count_none abandoned = refl
count_none orphan = refl
count_none out_of_range = refl

-- A write to the entry of a point.
write_entry-Tallies :
    (a : Anomaly) (l : Ledger) (v : IsValid l.points) (p i : ℕ)
    → Stored l.points v.cap p i
    → sum_of a l + 1 < 2 ^ 64
    → Tallies a l (write l (entry i) a)
unfolding write sum_of
write_entry-Tallies a l v p i s fits =
    let x = load l.points i in
    let r = store-Stores l.points v p i (bump a x) s in
    let small : count_of a x + 1 < 2 ^ 64 =
      omega
        (arith, entry-le-total l.points v p i (λ (k : ℕ) (y : PointAnomalies). count_of a y) s) in
    record {
      valid = r.valid;
      one_more =
          omega (arith, r.sums (λ (k : ℕ) (y : PointAnomalies). count_of a y), bump_self a x small);
      others = λ b ne.
          omega (arith, r.sums (λ (k : ℕ) (y : PointAnomalies). count_of b y), bump_other a b x ne);
    }

write_shared-Tallies :
    (a : Anomaly) (l : Ledger)
    → IsValid l.points
    → sum_of a l + 1 < 2 ^ 64
    → Tallies a l (write l shared a)
unfolding write sum_of
write_shared-Tallies a l v fits = record {
  valid = v;
  one_more = omega (arith, bump_self a l.overflow (omega arith));
  others = λ b ne. omega (arith, bump_other a b l.overflow ne);
}

-- The point's entry is made where it has none; a point that finds the table full is sent to the
-- shared bucket. No sum changes.
record Finds (l : Ledger) (p : ℕ) (r : Place × Ledger) : Type 0 where
  valid : IsValid r.1.points
  place : (r.0 ≡ shared) ⊎ ((i : ℕ) × (r.0 ≡ entry i) × Stored r.1.points valid.cap p i)
  same : (b : Anomaly) → sum_of b r.1 ≡ sum_of b l

anomalies-Finds : (l : Ledger) (p : ℕ) → IsValid l.points → Finds l p (anomalies l p)
unfolding anomalies sum_of
anomalies-Finds l p v = elim (Option-cases (find l.points p)) [
  | inr (i, e) ↦
      rw (e, anomalies)
        (record {
          valid = v;
          place = inr (i, refl, find-Stored l.points v p i e);
          same = λ b. refl;
        })
  | inl e ↦
      let r = insert-Inserts l.points p no_anomalies v in
      let sums : (b : Anomaly)
          → total (λ (k : ℕ) (y : PointAnomalies). count_of b y)
              (insert l.points p no_anomalies).1.cells
            ≡ total (λ (k : ℕ) (y : PointAnomalies). count_of b y) l.points.cells =
        λ b.
          r.sums (λ (k : ℕ) (y : PointAnomalies). count_of b y)
          ∙ rw (count_none b, added_zero) (omega arith) in
      rw (e, anomalies)
        (elim (Option-cases (insert l.points p no_anomalies).0) [
          | inl f ↦
              rw f (record { valid = r.valid; place = inl refl; same = λ b. omega (arith, sums b) })
          | inr (i, f) ↦ rw f (record {
            valid = r.valid;
            place = inr (i, refl, find-Stored _ r.valid p i (sym r.pointer ∙ f));
            same = λ b. omega (arith, sums b);
          })
        ])
]

-- `++anomalies(p).a` on a valid ledger whose sum of `a` does not wrap adds one to that sum and to no
-- other, wherever it is counted, and the ledger stays valid.
pub tally-Tallies :
    (a : Anomaly) (p : ℕ) (l : Ledger)
    → IsValid l.points
    → sum_of a l + 1 < 2 ^ 64
    → Tallies a l (tally a p l)
unfolding tally
tally-Tallies a p l v fits =
    let r = anomalies-Finds l p v in
    let after : Ledger = (anomalies l p).1 in
    let small : sum_of a after + 1 < 2 ^ 64 = rw (r.same a) fits in
    let t : Tallies a after (write after (anomalies l p).0 a) = elim r.place [
      | inl e ↦ rw e (write_shared-Tallies a after r.valid small)
      | inr (i, e, s) ↦ rw e (write_entry-Tallies a after r.valid p i s small)
    ] in
    record {
      valid = t.valid;
      one_more = omega (arith, t.one_more, r.same a);
      others = λ b ne. t.others b ne ∙ r.same b;
    }

-- A ledger with nothing but `a` changed.
pub record Keeps (a : Anomaly) (l out : Ledger) : Type 0 where
  pub valid : IsValid out.points
  pub others : (b : Anomaly) → b ≢ a → sum_of b out ≡ sum_of b l

write_entry-Keeps :
    (a : Anomaly) (l : Ledger) (v : IsValid l.points) (p i : ℕ)
    → Stored l.points v.cap p i
    → Keeps a l (write l (entry i) a)
unfolding write sum_of
write_entry-Keeps a l v p i s =
    let x = load l.points i in
    let r = store-Stores l.points v p i (bump a x) s in
    record {
      valid = r.valid;
      others = λ b ne.
          omega (arith, r.sums (λ (k : ℕ) (y : PointAnomalies). count_of b y), bump_other a b x ne);
    }

write_shared-Keeps : (a : Anomaly) (l : Ledger) → IsValid l.points → Keeps a l (write l shared a)
unfolding write sum_of
write_shared-Keeps a l v = record {
  valid = v;
  others = λ b ne. omega (arith, bump_other a b l.overflow ne);
}

-- What holds even where the sum of `a` wraps.
pub tally-Keeps : (a : Anomaly) (p : ℕ) (l : Ledger) → IsValid l.points → Keeps a l (tally a p l)
unfolding tally
tally-Keeps a p l v =
    let r = anomalies-Finds l p v in
    let after : Ledger = (anomalies l p).1 in
    let t : Keeps a after (write after (anomalies l p).0 a) = elim r.place [
      | inl e ↦ rw e (write_shared-Keeps a after r.valid)
      | inr (i, e, s) ↦ rw e (write_entry-Keeps a after r.valid p i s)
    ] in
    record { valid = t.valid; others = λ b ne. t.others b ne ∙ r.same b }

-- A ledger as `reset` leaves it: valid, and every sum 0.
pub reset-ledger :
    (n : ℕ) → n < 2 ^ 32 → IsValid (reset n).points × ((a : Anomaly) → sum_of a (reset n) ≡ 0)
unfolding reset sum_of
reset-ledger n h =
    let e = (reset-Empties {V = PointAnomalies} n h).0 in
    (
      e.valid,
      λ a. omega (arith, e.sums (λ (k : ℕ) (y : PointAnomalies). count_of a y), count_none a),
    )
