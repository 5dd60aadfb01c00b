-- ===== src/Reports/Losses.antt =====
-- The losses that a flush of include/slick/perfmon/collector.hpp finds are in the lines that it writes.
use mathlib.Core.List.{Permᴰ}
use slick_perfmon.Prelude.{
  ℕ, ◌+◌, ◌%◌, ◌^◌, ◌≤◌, ◌<◌, ◌≡◌, refl, arith, Bool, true, false, not, ◌&&◌, ◌||◌, ◌==◌,
  Bool-cases, inl, inr, List, [], ◌∷◌,
}
use slick_perfmon.Accumulator.{Doubles}
use slick_perfmon.Pairer.{Pairer, Stage-Default}
use slick_perfmon.Pairer.Anomalies.{PointAnomalies-Default}
use slick_perfmon.Reports.{Stats, StageReport, Figures, to_stats, to_summary}
use slick_perfmon.Reports.Rows.{EachRow, Kept, build_reports-each}
use slick_perfmon.Reports.Building.{stage_report, RowRef-Default, Flush, anomaly_row}
use slick_perfmon.Reports.Writing.{
  Line, Flusher, Moment, row_lines, collector_line, write_csv, do_flush, new_losses_of,
  new_stalled_of, loss_of,
}

-- Figures that carry what a flush found: its new losses, and the newly stalled slots.
abbrev pub Carries : {F : Type 0} → ℕ → ℕ → Stats F → Type 0
Carries new_losses new_stalled s = (s.dropped ≡ new_losses) × (s.stalled ≡ new_stalled)

abbrev RowCarries : {F : Type 0} → ℕ → ℕ → StageReport F → Type 0
RowCarries new_losses new_stalled r = Carries new_losses new_stalled r.interval

abbrev pub LinesCarry : {F : Type 0} → ℕ → ℕ → List (Line F) → Type 0
LinesCarry n k [] = Unit
LinesCarry n k (x ∷ lines) = Carries n k x.figures × LinesCarry n k lines

module _ {F : Type 0} ⦃f : Doubles F⦄ (g : Figures F) where
  carries-Kept :
      (w : Pairer F) (u : Flush) → Kept g w u (RowCarries u.new_losses u.new_stalled) (λ l. Unit)
  unfolding stage_report anomaly_row to_summary to_stats
  carries-Kept w u = record {
    marked = λ r h. h;
    staged = λ s b q. ((refl, refl), tt);
    anomalous = λ p delta total name overflow. (refl, refl);
    named = λ p l q. tt;
    refreshed = λ l q. tt;
  }

  row_lines-Carry :
      (ov : F) (n k : ℕ) (rows : List (StageReport F))
      → EachRow (RowCarries n k) rows
      → LinesCarry n k (row_lines g ov rows)
  unfolding row_lines
  row_lines-Carry ov n k [] h = tt
  row_lines-Carry ov n k (r ∷ rows) (c, h) =
      elim (Bool-cases ((r.interval.count == 0) && not r.anomalies_only)) [
        | inl idle ↦ rw idle (row_lines-Carry ov n k rows h)
        | inr kept ↦ rw kept (c, row_lines-Carry ov n k rows h)
      ]

  -- What a flush writes: every line carries what it found, and there is a line if it found anything.
  pub record Writes (n k : ℕ) (is_open : Bool) (lines : List (Line F)) : Type 0 where
    pub carried : LinesCarry n k lines
    pub told : is_open ≡ true → lines ≡ [] → (n ≡ 0) × (k ≡ 0)

  write_csv-Writes :
      (ov : F) (is_open : Bool) (rows : List (StageReport F)) (n k : ℕ)
      → EachRow (RowCarries n k) rows
      → Writes n k is_open (write_csv g ov is_open rows n k)
  unfolding write_csv collector_line to_stats
  write_csv-Writes ov false rows n k h = record { carried = tt; told = λ shut. absurd (cc) }
  write_csv-Writes ov true rows n k h =
      go (row_lines g ov rows) refl (row_lines-Carry ov n k rows h)
    where
      go :
          (lines : List (Line F))
          → row_lines g ov rows ≡ lines
          → LinesCarry n k lines
          → Writes n k true (write_csv g ov true rows n k)
      go (x ∷ lines) e c = rw (write_csv, e) (record { carried = c; told = λ _ z. absurd (cc) })
      go [] e c = elim (Bool-cases (not (n == 0) || not (k == 0))) [
        | inl some_found ↦
            rw (write_csv, e, some_found)
              (record { carried = ((refl, refl), tt); told = λ _ z. absurd (cc) })
        | inr none_found ↦
            rw (write_csv, e, none_found)
              (record {
                carried = tt;
                told = λ _ _. (ground (arith, none_found), ground (arith, none_found));
              })
      ]

  -- Where `sort` rearranges the rows: every line that a flush writes carries the losses and the
  -- stalled slots that are new since the flush before, and if the file is open and either is not
  -- zero then there is a line.
  pub do_flush-Writes :
      (sort : (StageReport F → StageReport F → Bool) → List (StageReport F) → List (StageReport F))
      → ((before : StageReport F → StageReport F → Bool) (rows : List (StageReport F))
          → Permᴰ rows (sort before rows))
      → (x : Moment F) (w : Flusher F)
      → Writes (new_losses_of w x) (new_stalled_of w x) x.is_open (do_flush g sort x w).0
  unfolding do_flush
  do_flush-Writes sort sorts x w =
      write_csv-Writes x.overhead x.is_open _ (new_losses_of w x) (new_stalled_of w x)
        (build_reports-each g _ _ (RowCarries (new_losses_of w x) (new_stalled_of w x)) (λ l. Unit)
          (carries-Kept _ _) sort sorts w.build tt).0

  -- What a flush tells: the losses and the stalled slots in the first line that it writes, or none.
  abbrev pub told_losses : List (Line F) → ℕ
  told_losses [] = 0
  told_losses (x ∷ lines) = x.figures.dropped

  abbrev pub told_stalls : List (Line F) → ℕ
  told_stalls [] = 0
  told_stalls (x ∷ lines) = x.figures.stalled

  Writes-told :
      (n k : ℕ) (is_open : Bool) (lines : List (Line F))
      → is_open ≡ true
      → Writes n k is_open lines
      → (told_losses lines ≡ n) × (told_stalls lines ≡ k)
  Writes-told n k is_open [] e h =
      let (a, b) = h.told e refl in (omega (arith, a), omega (arith, b))
  Writes-told n k is_open (x ∷ lines) e h = h.carried.0

  -- The file is open, and the counts never go back and are of 64 bits: the losses of the shared ring
  -- and of the thread rings together, and the stalled slots.
  abbrev pub Grow : ℕ → ℕ → List (Moment F) → Type 0
  Grow loss stalled [] = Unit
  Grow loss stalled (x ∷ xs) =
      (x.is_open ≡ true)
      × (loss ≤ x.loss_count + x.ring_lost)
      × (x.loss_count + x.ring_lost < 2 ^ 64)
      × (stalled ≤ x.stalled_slots)
      × (x.stalled_slots < 2 ^ 64)
      × Grow (x.loss_count + x.ring_lost) x.stalled_slots xs

  -- The counts at the last moment.
  abbrev pub last_loss_count : ℕ → List (Moment F) → ℕ
  last_loss_count loss [] = loss
  last_loss_count loss (x ∷ xs) = last_loss_count (x.loss_count + x.ring_lost) xs

  abbrev pub last_stalled_slots : ℕ → List (Moment F) → ℕ
  last_stalled_slots stalled [] = stalled
  last_stalled_slots stalled (x ∷ xs) = last_stalled_slots x.stalled_slots xs

  new_losses_lem :
      (x : Moment F) (w : Flusher F)
      → w.last_loss ≤ x.loss_count + x.ring_lost
      → x.loss_count + x.ring_lost < 2 ^ 64
      → new_losses_of w x + w.last_loss ≡ x.loss_count + x.ring_lost
  unfolding new_losses_of loss_of
  new_losses_lem x w le lt =
      let fits : (x.loss_count + x.ring_lost) % 2 ^ 64 ≡ x.loss_count + x.ring_lost =
        omega (arith, lt) in
      rw fits (ground (arith, le))

  new_stalled_lem :
      (x : Moment F) (w : Flusher F)
      → w.reported_stalled ≤ x.stalled_slots
      → x.stalled_slots < 2 ^ 64
      → new_stalled_of w x + w.reported_stalled ≡ x.stalled_slots
  unfolding new_stalled_of
  new_stalled_lem x w le lt = omega (arith, le, lt)

  module _
      (sort : (StageReport F → StageReport F → Bool) → List (StageReport F) → List (StageReport F))
      (sorts : (before : StageReport F → StageReport F → Bool) (rows : List (StageReport F))
        → Permᴰ rows (sort before rows)) where
    -- The sums, over a run of flushes, of what their lines tell.
    abbrev pub losses : List (Moment F) → Flusher F → ℕ
    losses [] w = 0
    losses (x ∷ xs) w = told_losses (do_flush g sort x w).0 + losses xs (do_flush g sort x w).1

    abbrev pub stalls : List (Moment F) → Flusher F → ℕ
    stalls [] w = 0
    stalls (x ∷ xs) w = told_stalls (do_flush g sort x w).0 + stalls xs (do_flush g sort x w).1

    do_flush-last :
        (x : Moment F) (w : Flusher F)
        → x.loss_count + x.ring_lost < 2 ^ 64
        → ((do_flush g sort x w).1.last_loss ≡ x.loss_count + x.ring_lost)
          × ((do_flush g sort x w).1.reported_stalled ≡ x.stalled_slots)
    unfolding do_flush loss_of
    do_flush-last x w lt = (omega (arith, lt), refl)

    do_flush-told :
        (x : Moment F) (w : Flusher F)
        → x.is_open ≡ true
        → (told_losses (do_flush g sort x w).0 ≡ new_losses_of w x)
          × (told_stalls (do_flush g sort x w).0 ≡ new_stalled_of w x)
    do_flush-told x w e =
        Writes-told (new_losses_of w x) (new_stalled_of w x) x.is_open (do_flush g sort x w).0 e
          (do_flush-Writes sort sorts x w)

    -- Where `sort` rearranges the rows, over any run of flushes with the file open, in which the
    -- counts of losses (of the shared ring and of the thread rings together) and of stalled slots are
    -- of 64 bits and never go back, from the counts that were reported last: the figures in the first
    -- line that each flush writes, a flush without lines giving 0, add up to what the counts went up by.
    pub flushes_add_up :
        (xs : List (Moment F)) (w : Flusher F)
        → Grow w.last_loss w.reported_stalled xs
        → (losses xs w + w.last_loss ≡ last_loss_count w.last_loss xs)
          × (stalls xs w + w.reported_stalled ≡ last_stalled_slots w.reported_stalled xs)
    flushes_add_up [] w h = (omega arith, omega arith)
    flushes_add_up (x ∷ xs) w (is_open, le, lt, le', lt', h) =
        let (a, b) = do_flush-last x w lt in
        let (rest, rest') = flushes_add_up xs (do_flush g sort x w).1 (rw (a, b) h) in
        let (t, t') = do_flush-told x w is_open in
        let n = new_losses_lem x w le lt in
        let k = new_stalled_lem x w le' lt' in
        let r = rw a at rest in
        let r' = rw b at rest' in (omega (arith, r, n, t), omega (arith, r', k, t'))
