-- ===== src/Pairer/Session.antt =====
-- A session: the start, a run of events, the age sweep and the end.
use slick_perfmon.Prelude.{
  ℕ, ◌+◌, ◌^◌, ◌≤◌, ◌<◌, ◌≡◌, refl, ◌∙◌, ◌≢◌, arith, false, ◌==◌, Bool-cases, inl, inr, Option,
  none, some,
}
use slick_perfmon.OpenMap.{for_each, load}
use slick_perfmon.OpenMap.Valid as Map
use slick_perfmon.OpenMap.Valid.{lookup, Stored}
use slick_perfmon.OpenMap.Sweep.{spared, erase_if-Sweeps}
use slick_perfmon.OpenMap.Visit.{for_each-Visits}
use slick_perfmon.OpenMap.Reset.{reset-Empties, clear-Empties}
use slick_perfmon.Keys.{span_point}
use slick_perfmon.Accumulator.{Doubles}
use slick_perfmon.Pairer.Anomalies.{
  Ledger, Anomaly, PointAnomalies-Default, invalid, abandoned, tally,
}
use slick_perfmon.Pairer.Anomalies.Totals.{sum_of, tally-Keeps, tally-Tallies, reset-ledger}
use slick_perfmon.Pairer.{
  Pairer, OpenSpan, OpenSpan-Default, Stage, Stage-Default, Limits, reset, sweep, aged, abandon,
  abandon_all, abandon_one,
}
use slick_perfmon.Pairer.Valid.{IsValid}
use slick_perfmon.Pairer.Events.{accounted}

-- A ledger to which `n` spans were added as abandoned, `start` being the first sum.
record Abandons (l0 : Ledger) (n : ℕ) (l : Ledger) : Type 0 where
  valid : Map.IsValid l.points
  counted : sum_of abandoned l0 + n < 2 ^ 64 → sum_of abandoned l ≡ sum_of abandoned l0 + n
  others : (b : Anomaly) → b ≢ abandoned → sum_of b l ≡ sum_of b l0

Abandons-refl : (l : Ledger) → Map.IsValid l.points → Abandons l 0 l
Abandons-refl l v = record { valid = v; counted = λ fits. omega arith; others = λ b ne. refl }

Abandons-tally :
    (l0 : Ledger) (n p : ℕ) (l : Ledger)
    → Abandons l0 n l
    → Abandons l0 (n + 1) (tally abandoned p l)
Abandons-tally l0 n p l a =
    let t = tally-Keeps abandoned p l a.valid in
    record {
      valid = t.valid;
      counted = λ fits.
          let now = a.counted (omega arith) in
          omega (arith, now, (tally-Tallies abandoned p l a.valid (omega (arith, now))).one_more);
      others = λ b ne. t.others b ne ∙ a.others b ne;
    }

-- What becomes of the span under a key, by the time at which it was touched last.
pub data Swept (now max_age : ℕ) : Option OpenSpan → Option OpenSpan → Type 0 where
  not_open : Swept now max_age none none
  given_up : (sp : OpenSpan) → sp.seen_tsc + max_age < now → Swept now max_age (some sp) none
  left_open : (sp : OpenSpan) → now ≤ sp.seen_tsc + max_age → Swept now max_age (some sp) (some sp)

spared-Swept :
    (now max_age k : ℕ) (old : Option OpenSpan)
    → Swept now max_age old (spared (aged now max_age) abandon k old)
unfolding aged
spared-Swept now max_age k none = not_open
spared-Swept now max_age k (some sp) = elim (Bool-cases (aged now max_age k sp)) [
  | inl old ↦ rw old (given_up sp (ground (arith, old)))
  | inr young ↦ rw young (left_open sp (ground (arith, young)))
]

module _ {F : Type 0} ⦃f : Doubles F⦄ where
  -- For limits of 32 bits, `reset` leaves a valid pairer with no span open, abandoned or invalid.
  pub reset-IsValid :
      (cfg : Limits)
      → cfg.max_open_spans < 2 ^ 32
      → cfg.max_stages < 2 ^ 32
      → IsValid (reset {F = F} cfg)
        × (accounted (reset {F = F} cfg) ≡ 0)
        × ((k : ℕ) → lookup (reset {F = F} cfg).spans k ≡ none)
  unfolding reset accounted
  reset-IsValid cfg hs ht =
      let a = (reset-Empties {V = OpenSpan} cfg.max_open_spans hs).0 in
      let b = (reset-Empties {V = Stage F} cfg.max_stages ht).0 in
      let (points, zero_sums) = reset-ledger cfg.max_stages ht in
      (
        record {
          spans = a.valid;
          stages = b.valid;
          points = points;
          batch = ground arith;
          capacity = rw a.limit (ground arith);
        },
        omega (arith, a.size, zero_sums abandoned, zero_sums invalid),
        a.reads,
      )

  -- The span table was emptied by `n` removals, each counted as abandoned.
  pub record Removes (w : Pairer F) (r : ℕ × Pairer F) : Type 0 where
    pub valid : IsValid r.1
    pub counted : sum_of abandoned r.1.ledger ≡ sum_of abandoned w.ledger + r.0
    pub removed : r.0 + r.1.spans.size ≡ w.spans.size
    pub others : (b : Anomaly) → b ≢ abandoned → sum_of b r.1.ledger ≡ sum_of b w.ledger

  -- On a valid pairer whose sum of abandoned spans cannot wrap by all that are open, and with an age
  -- limit that is not 0: of the open spans, `sweep` removes each whose last touch and the limit together
  -- are before `now`, and leaves each other as it was, one that was touched after `now` included; it
  -- opens none. It adds the number of those removed to the sum of abandoned spans and to no other, and
  -- returns it.
  pub sweep-Removes :
      (w : Pairer F) (now max_age : ℕ)
      → IsValid w
      → 1 ≤ max_age
      → sum_of abandoned w.ledger + w.spans.size < 2 ^ 64
      → Removes w (sweep now max_age w)
        × ((k : ℕ) → Swept now max_age (lookup w.spans k) (lookup (sweep now max_age w).1.spans k))
  unfolding sweep
  sweep-Removes w now max_age v old fits =
      let r =
        erase_if-Sweeps (aged now max_age) abandon (Abandons w.ledger)
          (λ n k x l chosen a. Abandons-tally w.ledger n (span_point k) l a) w.spans w.ledger
          v.spans (Abandons-refl w.ledger v.points) in
      let t : (max_age == 0) ≡ false = ground arith in
      rw t (
        record {
          valid = record {
            spans = r.valid;
            stages = v.stages;
            points = r.acted.valid;
            batch = v.batch;
            capacity = rw r.limit v.capacity;
          };
          counted = r.acted.counted (omega (arith, r.removed));
          removed = r.removed ∙ omega arith;
          others = r.acted.others;
        },
        λ k. rw (r.reads k) (spared-Swept now max_age k (lookup w.spans k)),
      )

  -- On a valid pairer whose sum of abandoned spans cannot wrap by all that are open, `abandon_all`
  -- removes every span, adds their number to that sum and to no other, and returns it.
  pub abandon_all-Removes :
      (w : Pairer F)
      → IsValid w
      → sum_of abandoned w.ledger + w.spans.size < 2 ^ 64
      → Removes w (abandon_all w) × ((k : ℕ) → lookup (abandon_all w).1.spans k ≡ none)
  unfolding abandon_all
  abandon_all-Removes w v fits =
      let r =
        for_each-Visits abandon_one (λ n s. (s.0 ≡ n) × Abandons w.ledger n s.1)
          (λ k x s. unfold abandon_one in refl) w.spans v.spans (0, w.ledger)
          (λ k p s n c a. visit n k (load w.spans p) c a) (refl, Abandons-refl w.ledger v.points) in
      let z = clear-Empties w.spans v.spans in
      let number : (for_each abandon_one w.spans (0, w.ledger)).1.0 ≡ w.spans.size = r.1.0 in
      rw (r.0, number)
        (
          record {
            valid = record {
              spans = z.valid;
              stages = v.stages;
              points = r.1.1.valid;
              batch = v.batch;
              capacity = rw z.limit v.capacity;
            };
            counted = r.1.1.counted fits;
            removed = omega (arith, z.size);
            others = r.1.1.others;
          },
          z.reads,
        )
    where
      visit :
          (n k : ℕ) (sp : OpenSpan) (c : ℕ × Ledger)
          → (c.0 ≡ n) × Abandons w.ledger n c.1
          → ((abandon_one k sp c).1.0 ≡ n + 1) × Abandons w.ledger (n + 1) (abandon_one k sp c).1.1
      visit n k sp (m, l) (e, a) =
          unfold abandon_one in (omega arith, Abandons-tally w.ledger n (span_point k) l a)
