-- ===== src/Ring/Reading.antt =====
-- What `ring_read` returns while the ring's writer keeps storing.
use native.Mathlib.Nat.{mod-eq_of_lt}
use slick_perfmon.Prelude.{
  ℕ, zero, suc, ◌+◌, ◌-◌, ◌*◌, ◌^◌, ◌%◌, ◌≤◌, ◌<◌, ◌≡◌, refl, ap, ◌∙◌, arith, ◌==◌, ◌||◌, ltb, leb,
  if◌then◌else◌, Bool-cases, inl, inr, List, length, get_or, drop, length-drop, get_or-drop,
}
use slick_perfmon.Prelude.Powers.{pow2_pos, pow2_suc}
use slick_perfmon.Event.{Sample}
use slick_perfmon.Ring.{
  Memory, no_sample, slot, first_intact, load_sample, copy, Read, start_of, end_of, ring_read,
}
use slick_perfmon.Ring.Writer.{System, same_fields}
use slick_perfmon.Ring.Intact.{Run, Run-Later, Run-IsValid}

length-copy : (mask : ℕ) (mem : ℕ → Memory) (n t i : ℕ) → length (copy mask mem n t i) ≡ n
unfolding copy
length-copy mask mem zero t i = refl
length-copy mask mem (suc n) t i = ap suc (length-copy mask mem n (t + 3) (i + 1))

get_or-copy :
    (mask : ℕ) (mem : ℕ → Memory) (n t i j : ℕ)
    → j < n
    → get_or (copy mask mem n t i) j no_sample ≡ load_sample mask mem (t + 3 * j) (i + j)
unfolding copy
get_or-copy mask mem zero t i j lt = absurd (omega arith)
get_or-copy mask mem (suc n) t i zero lt =
    let a : t + 3 * zero ≡ t = omega arith in let b : i + zero ≡ i = omega arith in rw (a, b) refl
get_or-copy mask mem (suc n) t i (suc j) lt =
    let a : t + 3 * suc j ≡ t + 3 + 3 * j = omega arith in
    let b : i + suc j ≡ i + 1 + j = omega arith in
    rw (a, b) (get_or-copy mask mem n (t + 3) (i + 1) j (omega arith))

start_of_lem :
    (mask h cursor : ℕ)
    → 0 < mask
    → cursor < h
    → (cursor ≤ start_of mask h cursor) × (start_of mask h cursor < h)
unfolding start_of first_intact
start_of_lem mask h cursor pos lt = ground arith

end_of_lem :
    (h start max_n : ℕ)
    → start < h
    → 0 < max_n
    → (start < end_of h start max_n)
      × (end_of h start max_n ≤ h)
      × (end_of h start max_n ≤ start + max_n)
unfolding end_of
end_of_lem h start max_n lt pos = ground arith

-- The three loads of one slot agree where the head stays within a lap.
module _ (bits : ℕ) (σ : ℕ → System) (run : Run bits σ) where
  abbrev mask : ℕ
  mask = 2 ^ bits - 1

  abbrev mem : ℕ → Memory
  mem t = (σ t).mem

  slot-intact :
      (t u i : ℕ)
      → t ≤ u
      → i < (σ 0).mem.head
      → (σ u).mem.head < i + 2 ^ bits
      → slot mask (mem t) i ≡ get_or (σ u).log i no_sample
  slot-intact t u i le lt near =
      let a = Run-Later bits σ run 0 t (omega arith) in
      let b = Run-Later bits σ run t u le in
      (Run-IsValid bits σ run t).intact i (omega (arith, a.upward)) (omega (arith, b.upward))
      ∙ b.kept i (omega (arith, a.upward))

  load-intact :
      (t u i : ℕ)
      → t + 2 ≤ u
      → i < (σ 0).mem.head
      → (σ u).mem.head < i + 2 ^ bits
      → load_sample mask mem t i ≡ get_or (σ u).log i no_sample
  unfolding load_sample
  load-intact t u i le lt near =
      same_fields _ (get_or (σ u).log i no_sample)
        (ap (λ (x : Sample). x.timestamp) (slot-intact t u i (omega arith) lt near))
        (ap (λ (x : Sample). x.point) (slot-intact (t + 1) u i (omega arith) lt near))
        (ap (λ (x : Sample). x.event) (slot-intact (t + 2) u i (omega arith) lt near))

-- What one read promises of the samples `log` that the writer has published by its end, where it
-- published `before` of them by the read's start and `after` by its end.
pub record Reads (bits : ℕ) (log : List Sample) (before after cursor max_n lost : ℕ) (r : Read)
    : Type 0 where
  pub holds :
      (j : ℕ)
      → j < length r.batch
      → get_or r.batch j no_sample ≡ get_or log (r.cursor + j) no_sample
  pub forward : cursor ≤ r.cursor
  pub counted : r.lost ≡ (lost + (r.cursor - cursor)) % 2 ^ 64
  pub within : r.cursor + length r.batch ≤ before
  pub bounded : length r.batch ≤ max_n
  pub progress : cursor < before → 0 < max_n → cursor < r.cursor + length r.batch
  pub lossless : after < cursor + 2 ^ bits → r.cursor ≡ cursor

-- Where the batch starts in the range that was copied.
abbrev first_of : ℕ → ℕ → ℕ → ℕ
first_of start end valid = if ltb start valid then if ltb valid end then valid else end else start

first_of_lem :
    (start end valid : ℕ)
    → start < end
    → (start ≤ first_of start end valid)
      × (first_of start end valid ≤ end)
      × (first_of start end valid < end → valid ≤ first_of start end valid)
      × (valid ≤ start → first_of start end valid ≡ start)
first_of_lem start end valid lt = (ground arith, ground arith, λ h. ground arith, λ h. ground arith)

first_intact_lem : (h bits : ℕ) → h < first_intact h (2 ^ bits - 1) + 2 ^ bits
unfolding first_intact
first_intact_lem h bits = let p = pow2_pos bits in ground (arith, p)

pub first_intact_near : (h c bits : ℕ) → h < c + 2 ^ bits → first_intact h (2 ^ bits - 1) ≤ c
unfolding first_intact
first_intact_near h c bits near = let p = pow2_pos bits in ground (arith, p)

pub start_of_near : (h c bits : ℕ) → h < c + 2 ^ bits → start_of (2 ^ bits - 1) h c ≡ c
unfolding start_of
start_of_near h c bits near = let p = first_intact_near h c bits near in ground (arith, p)

-- The copy, cut to what the writer cannot have reached.
module _ (bits : ℕ) (σ : ℕ → System) (run : Run bits σ) (start end : ℕ) (some_left : start < end)
    (end_within : end ≤ (σ 0).mem.head) where
  abbrev T : ℕ
  T = 1 + 3 * (end - start)

  abbrev valid : ℕ
  valid = first_intact (σ T).mem.head (2 ^ bits - 1)

  abbrev first : ℕ
  first = first_of start end valid

  abbrev kept_batch : List Sample
  kept_batch = drop (first - start) (copy (2 ^ bits - 1) (λ t. (σ t).mem) (end - start) 1 start)

  length-kept_batch : first + length kept_batch ≡ end
  length-kept_batch =
      let (a, b, c, d) = first_of_lem start end valid some_left in
      let n =
        length-drop (first - start) (copy (2 ^ bits - 1) (λ t. (σ t).mem) (end - start) 1 start) in
      let m = length-copy (2 ^ bits - 1) (λ t. (σ t).mem) (end - start) 1 start in
      omega (arith, n, m, a, b)

  kept_batch-holds :
      (j : ℕ)
      → j < length kept_batch
      → get_or kept_batch j no_sample ≡ get_or (σ T).log (first + j) no_sample
  kept_batch-holds j lt =
      let (a, b, c, d) = first_of_lem start end valid some_left in
      let n = length-kept_batch in
      let scratch = copy (2 ^ bits - 1) (λ t. (σ t).mem) (end - start) 1 start in
      let v = c (omega (arith, n)) in
      let near = first_intact_lem (σ T).mem.head bits in
      let e : start + (first - start + j) ≡ first + j = omega (arith, a) in
      get_or-drop (first - start) j scratch no_sample
      ∙ get_or-copy (2 ^ bits - 1) (λ t. (σ t).mem) (end - start) 1 start (first - start + j)
          (omega (arith, n, a))
      ∙ rw e (
          load-intact bits σ run (1 + 3 * (first - start + j)) T (first + j) (omega (arith, n, a))
            (omega (arith, n)) (omega (arith, near, v)))

mask_pos : (bits : ℕ) → 0 < bits → 0 < 2 ^ bits - 1
mask_pos zero pos = absurd (omega arith)
mask_pos (suc b) pos = omega (arith, pow2_suc b, pow2_pos b)

-- The moment of a read's last load.
pub last_load : ℕ → ℕ → ℕ → ℕ → ℕ
last_load mask h cursor max_n =
    1 + 3 * (end_of h (start_of mask h cursor) max_n - start_of mask h cursor)

module _ (bits : ℕ) (σ : ℕ → System) (run : Run bits σ) (cursor max_n lost : ℕ) where
  abbrev h : ℕ
  h = (σ 0).mem.head

  abbrev s : ℕ
  s = start_of (2 ^ bits - 1) h cursor

  abbrev e : ℕ
  e = end_of h s max_n

  abbrev t : ℕ
  t = 1 + 3 * (e - s)

  -- In a run in which the writer makes any number of stores between two loads of the reader, from a
  -- valid system, with more than one slot, a cursor that is no further than the head and a count of
  -- lost samples below 2 ^ 64: sample number j of the batch is sample number cursor + j of those
  -- published, the cursor moves forward only and the distance is added to the lost samples, the
  -- batch ends at or before the head as it was read first and has at most max_n samples, cursor and
  -- batch get past the old cursor if anything was published there and max_n is not 0, and nothing is
  -- lost if the writer stays within a lap of the old cursor.
  pub ring_read-Reads :
      0 < bits
      → cursor ≤ h
      → lost < 2 ^ 64
      → Reads bits
          (σ (last_load (2 ^ bits - 1) h cursor max_n)).log
          h
          (σ (last_load (2 ^ bits - 1) h cursor max_n)).mem.head
          cursor
          max_n
          lost
          (ring_read (2 ^ bits - 1) (λ t. (σ t).mem) cursor max_n lost)
  unfolding ring_read last_load
  ring_read-Reads pos within small = elim (Bool-cases (leb h cursor || (max_n == 0))) [
    | inl stop ↦ rw stop (record {
      holds = λ j lt. absurd (omega arith);
      forward = omega arith;
      counted = let z : lost + (cursor - cursor) ≡ lost = omega arith in rw (z, mod-eq_of_lt small);
      within = omega (arith, within);
      bounded = omega arith;
      progress = λ lt room. absurd (ground arith);
      lossless = λ near. refl;
    })
    | inr go ↦
        let lt : cursor < h = ground arith in
        let room : 0 < max_n = ground arith in
        let (from_cursor, in_range) = start_of_lem (2 ^ bits - 1) h cursor (mask_pos bits pos) lt in
        let (left, high, few) = end_of_lem h s max_n in_range room in
        let (a, b, c, d) = first_of_lem s e (valid bits σ run s e left high) left in
        let n = length-kept_batch bits σ run s e left high in
        rw go (record {
          holds = kept_batch-holds bits σ run s e left high;
          forward = omega (arith, from_cursor, a);
          counted = refl;
          within = omega (arith, n, high);
          bounded = omega (arith, n, a, few);
          progress = λ _ _. omega (arith, n, left, from_cursor);
          lossless = λ near.
              let now = (Run-Later bits σ run 0 t (omega arith)).upward in
              let same = start_of_near h cursor bits (omega (arith, now, near)) in
              let ok = first_intact_near (σ t).mem.head cursor bits near in
              d (omega (arith, ok, same)) ∙ same;
        })
  ]
