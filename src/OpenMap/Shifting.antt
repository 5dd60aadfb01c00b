-- ===== src/OpenMap/Shifting.antt =====
-- The loop of `erase_at`: it ends, closes the hole and keeps every other entry.
use slick_perfmon.Prelude.{
  ℕ, zero, suc, ◌+◌, ◌≤◌, ◌<◌, ◌≡◌, sym, ap, ◌∙◌, ◌≢◌, arith, Bool, true, false, leb, List, length,
  Bool-cases, inl, inr,
}
use native.Mathlib.Decide.{ℕ_discrete}
use slick_perfmon.OpenMap.{Cell, Default, at, home, next, dist, shift}
use slick_perfmon.OpenMap.Cyclic.{
  step, gap, gap_self, step-lt, gap_inj, gap-step, gap_between, IsMask,
}
use slick_perfmon.OpenMap.Placed.{
  home_of, Before, Reached, Broken, Unique, Moves, Moves-refl, Moves-trans, moved, length-moved,
  moved-Moves, at-moved_other, at-moved_from, moved-Unique, moved-Broken,
}

module _ {ℓ} {V : Type ℓ} ⦃d : Default V⦄ (mask n : ℕ) (cells : List (Cell V)) (i j : ℕ) where
  -- One round of the loop, on each of its branches.
  shift_stop : (at cells (next mask j)).used ≡ false → shift (suc n) cells mask i j ≡ cells
  unfolding shift
  shift_stop e = rw e

  abbrev fills : Bool
  fills =
      let h : ℕ = home mask (at cells (next mask j)).key in
      leb (dist mask h i) (dist mask h (next mask j))

  shift_pass :
      (at cells (next mask j)).used ≡ true
      → fills ≡ false
      → shift (suc n) cells mask i j ≡ shift n cells mask i (next mask j)
  unfolding shift
  shift_pass e f = ground arith

  shift_move :
      (at cells (next mask j)).used ≡ true
      → fills ≡ true
      → shift (suc n) cells mask i j
        ≡ shift n (moved cells i (next mask j)) mask (next mask j) (next mask j)
  unfolding shift moved
  shift_move e f = ground arith

module _ {ℓ} {V : Type ℓ} ⦃d : Default V⦄ (mask cap : ℕ) (m : IsMask mask cap) where
  -- Past the hole, an entry that would not go into it has no hole before it.
  passed-Broken :
      (cells : List (Cell V)) (i j k : ℕ)
      → i < cap
      → k < cap
      → gap cap i k ≡ gap cap i j + 1
      → gap cap (home_of mask cap cells k) k < gap cap (home_of mask cap cells k) i
      → Broken mask cap cells i j
      → Broken mask cap cells i k
  passed-Broken cells i j k hi hk far past broken p q hp hq up before =
      elim (broken p q hp hq up before) [
        | inl u ↦ inl u
        | inr h ↦ elim (ℕ_discrete p k) [
          | yes e ↦ absurd (ground arith)
          | no ne ↦
              let apart : gap cap i k ≢ gap cap i p =
                λ z. ne (sym (gap_inj cap i k p hi hk hp z)) in
              inr (h.0, omega arith)
        ]
      ]

  -- At an unused slot nothing is parted from its home any more.
  stopped-Reached :
      (cells : List (Cell V)) (i j k : ℕ)
      → i < cap
      → k < cap
      → gap cap i k ≡ gap cap i j + 1
      → (at cells k).used ≡ false
      → Broken mask cap cells i j
      → Reached mask cap cells
  stopped-Reached cells i j k hi hk far unused broken p q hp hq up before =
      elim (broken p q hp hq up before) [
        | inl u ↦ u
        | inr h ↦
            let apart : gap cap i k ≢ gap cap i p =
              λ z. let same : k ≡ p = gap_inj cap i k p hi hk hp z in cc in
            let from : gap cap (home_of mask cap cells p) i < gap cap (home_of mask cap cells p) p =
              rw h.0 at before in
            let between : Before mask cap cells p k =
              gap_between cap (home_of mask cap cells p) i p k (m.home_lt _) hi hp hk from
                (omega arith) in
            elim (broken p k hp hk up between) [
              | inl u ↦ cc
              | inr z ↦ absurd (ground (arith, gap_self cap i))
            ]
      ]

  pub record Shifted (start : ℕ) (cells out : List (Cell V)) : Type ℓ where
    pub moves : Moves mask cap start cells out
    pub reached : Reached mask cap out
    pub unique : Unique mask cap out

  after_move :
      (start : ℕ) (a b c : List (Cell V))
      → Moves mask cap start a b
      → Shifted start b c
      → Shifted start a c
  after_move start a b c f s = record {
    moves = Moves-trans mask cap start a b c f s.moves;
    reached = s.reached;
    unique = s.unique;
  }

  -- With an unused slot `f` ahead, as many rounds as there are slots up to it end the loop: the hole
  -- is closed, and the entries are those that were there, none moved past `start`.
  pub shift-Shifted :
      (start n : ℕ) (cells : List (Cell V)) (i j f : ℕ)
      → start < cap
      → length cells ≡ cap
      → i < cap
      → j < cap
      → f < cap
      → (at cells i).used ≡ false
      → (at cells f).used ≡ false
      → Broken mask cap cells i j
      → Unique mask cap cells
      → gap cap i j < gap cap i f
      → gap cap start i ≤ gap cap start j
      → gap cap start j < gap cap start f
      → gap cap start f ≤ gap cap start j + n
      → Shifted start cells (shift n cells mask i j)
  shift-Shifted start zero cells i j f hs width hi hj hf free unused broken unique near back ahead
        fuel =
      absurd (omega arith)
  shift-Shifted start (suc n) cells i j f hs width hi hj hf free unused broken unique near back
        ahead fuel =
      let k : ℕ = next mask j in
      let ek : k ≡ step cap j = m.next_eq j hj in
      let hk : k < cap = rw ek (step-lt cap j hj) in
      let far : gap cap i k ≡ gap cap i j + 1 = rw ek (gap-step cap i j f hi hj hf near) in
      let on : gap cap start k ≡ gap cap start j + 1 =
        rw ek (gap-step cap start j f hs hj hf ahead) in
      let di = m.dist_eq (home_of mask cap cells k) i (m.home_lt _) hi in
      let dk = m.dist_eq (home_of mask cap cells k) k (m.home_lt _) hk in
      elim (Bool-cases (at cells k).used) [
        | inr no_more ↦ rw (shift_stop mask n cells i j no_more) (record {
          moves = Moves-refl mask cap start cells;
          reached = stopped-Reached cells i j k hi hk far no_more broken;
          unique = unique;
        })
        | inl used ↦
            let kf : k ≢ f = λ e. cc in
            let fi : f ≢ i = λ e. ground (arith, gap_self cap i) in
            let kk : gap cap k k ≢ gap cap k f = λ e. kf (gap_inj cap k k f hk hk hf e) in
            let gi : gap cap i k ≢ gap cap i f = λ e. kf (gap_inj cap i k f hi hk hf e) in
            let gs : gap cap start k ≢ gap cap start f =
              λ e. kf (gap_inj cap start k f hs hk hf e) in
            elim (Bool-cases (fills mask n cells i j)) [
              | inr stays ↦ rw (shift_pass mask n cells i j used stays) (
                  shift-Shifted start n cells i k f hs width hi hk hf free unused
                    (passed-Broken cells i j k hi hk far (ground arith) broken) unique (omega arith)
                    (omega arith) (omega arith) (omega arith))
              | inl goes ↦ rw (shift_move mask n cells i j used goes) (
                  after_move start cells (moved cells i k) _
                    (moved-Moves mask cap cells i k width hi hk free used start (omega arith))
                    (shift-Shifted start n (moved cells i k) k k f hs
                      (length-moved cells i k ∙ width) hk hk hf
                      (at-moved_from mask cap cells i k width hi hk free used)
                      (ap (λ (c : Cell V). c.used)
                          (at-moved_other mask cap cells i k width hi hk free used f fi
                            (λ e. kf (sym e)))
                        ∙ unused)
                      (moved-Broken mask cap cells i k width hi hk free used j (ground arith)
                        broken)
                      (moved-Unique mask cap cells i k width hi hk free used unique)
                      (omega (arith, gap_self cap k)) (omega arith) (omega arith) (omega arith)))
            ]
      ]
