-- ===== src/OpenMap/Sweep.antt =====
-- `erase_if`: the scan that tests an erased slot again, and never restarts, misses no entry.
use native.Mathlib.Decide.{ℕ_discrete, dec_lt}
use slick_perfmon.Prelude.{
  ℕ, zero, suc, ◌+◌, ◌≤◌, ◌<◌, ◌≡◌, refl, sym, ap, ◌∙◌, arith, Bool, true, false, ◌&&◌, ◌==◌,
  ==_refl, ==_false, leb, if◌then◌else◌, Bool-cases, Option, none, some, Option-cases, length, inl,
  inr,
}
use slick_perfmon.OpenMap.{Cell, Default, OpenMap, at, find, load, drop_at, scan, erase_if}
use slick_perfmon.OpenMap.Cyclic.{gap_behind}
use slick_perfmon.OpenMap.Erase.{drop_at-Drops}
use slick_perfmon.OpenMap.Valid.{
  IsValid, lookup, Stored, find-Stored, lookup-eq_some, lookup-eq_none,
}

both : (a b : Bool) → (a && b) ≡ true → (a ≡ true) × (b ≡ true)
both a b h = ground arith

but_not : (a b : Bool) → (a && b) ≡ false → a ≡ true → b ≡ false
but_not a b h e = ground arith

module _ {ℓ κ} {V : Type ℓ} {S : Type κ} ⦃d : Default V⦄ (pred : ℕ → V → Bool)
    (act : ℕ → V → S → S) where
  -- What is left under a key: nothing, where the predicate holds of the value.
  abbrev pub spared : ℕ → Option V → Option V
  spared k none = none
  spared k (some x) = if pred k x then none else some x

  -- The slots before `i` hold no entry to be erased.
  abbrev Clean : OpenMap V → ℕ → Type 0
  Clean m i =
      (p : ℕ)
      → p < i
      → (at m.cells p).used ≡ true
      → pred (at m.cells p).key (at m.cells p).val ≡ false

  -- What a scan of `m` returns, having removed `before` entries already.
  pub record Sweeps {μ} (P : ℕ → S → Type μ) (before : ℕ) (m : OpenMap V) (r : ℕ × OpenMap V × S)
      : Type (ℓ ⊔ μ) where
    pub valid : IsValid r.1
    pub reads : (k : ℕ) → lookup r.1 k ≡ spared k (lookup m k)
    pub removed : r.0 + r.1.size ≡ before + m.size
    pub acted : P r.0 r.2
    pub limit : r.1.max_entries ≡ m.max_entries

  stop_reads :
      (m : OpenMap V) (v : IsValid m) → Clean m v.cap → (k : ℕ) → lookup m k ≡ spared k (lookup m k)
  unfolding load
  stop_reads m v clean k = elim (Option-cases (find m k)) [
    | inl e ↦ rw (lookup-eq_none m v k e)
    | inr (p, e) ↦
        let s = find-Stored m v k p e in
        let kept : pred k (load m p) ≡ false = rw s.keyed at (clean p s.inside s.live) in
        rw (lookup-eq_some m v k p s, kept)
  ]

  drop_reads :
      (m : OpenMap V) (v : IsValid m) (i : ℕ)
      → Stored m v.cap (at m.cells i).key i
      → pred (at m.cells i).key (at m.cells i).val ≡ true
      → (k : ℕ) → spared k (lookup (drop_at m i) k) ≡ spared k (lookup m k)
  unfolding load
  drop_reads m v i s goes k =
      let r = drop_at-Drops m v i s.inside s.live in
      elim (ℕ_discrete (at m.cells i).key k) [
        | yes e ↦
            let now : lookup (drop_at m i) k ≡ none =
              rw (← e) (r.reads (at m.cells i).key ∙ rw (==_refl (at m.cells i).key)) in
            let was : lookup m k ≡ some (load m i) =
              rw (← e) (lookup-eq_some m v (at m.cells i).key i s) in
            rw (now, was, ← e, goes)
        | no ne ↦ rw (r.reads k, ==_false (at m.cells i).key k ne)
      ]

  drop_Clean :
      (m : OpenMap V) (v : IsValid m) (i : ℕ)
      → i < v.cap
      → (at m.cells i).used ≡ true
      → Clean m i
      → Clean (drop_at m i) i
  drop_Clean m v i hi live clean q hq u =
      let (p, hp, np, le, e) = (drop_at-Drops m v i hi live).comes q (omega arith) u in
      let behind = gap_behind v.cap i q p hi hq hp le in
      let kept = clean p behind (ap (λ (c : Cell V). c.used) (sym e) ∙ u) in rw e kept

  module _ (n : ℕ) (m : OpenMap V) (removed i : ℕ) (s : S) where
    -- One round of the scan, on each of its branches.
    scan_stop : leb i m.mask ≡ false → scan (suc n) pred act m removed i s ≡ (removed, m, s)
    unfolding scan
    scan_stop e = rw e

    abbrev chosen_here : Bool
    chosen_here = (at m.cells i).used && pred (at m.cells i).key (at m.cells i).val

    scan_on :
        leb i m.mask ≡ true
        → chosen_here ≡ false
        → scan (suc n) pred act m removed i s ≡ scan n pred act m removed (i + 1) s
    unfolding scan
    scan_on e f = rw (e, f)

    scan_again :
        leb i m.mask ≡ true
        → chosen_here ≡ true
        → scan (suc n) pred act m removed i s
          ≡ scan n pred act
              (drop_at m i)
              (removed + 1)
              i
              (act (at m.cells i).key (at m.cells i).val s)
    unfolding scan
    scan_again e f = rw (e, f)

  Clean-step :
      (m : OpenMap V) (i : ℕ)
      → Clean m i
      → ((at m.cells i).used && pred (at m.cells i).key (at m.cells i).val) ≡ false
      → Clean m (i + 1)
  Clean-step m i clean stays p hp u = elim (ℕ_discrete p i) [
    | yes e ↦ rw e (but_not _ _ stays (ap (λ (x : ℕ). (at m.cells x).used) (sym e) ∙ u))
    | no ne ↦ clean p (omega arith) u
  ]

  again {μ} :
      {P : ℕ → S → Type μ} (m : OpenMap V) (v : IsValid m) (i : ℕ)
      → Stored m v.cap (at m.cells i).key i
      → pred (at m.cells i).key (at m.cells i).val ≡ true
      → (removed : ℕ) (r : ℕ × OpenMap V × S) → Sweeps P (removed + 1) (drop_at m i) r
      → Sweeps P removed m r
  again m v i s goes removed r w =
      let d = drop_at-Drops m v i s.inside s.live in
      record {
        valid = w.valid;
        reads = λ k. w.reads k ∙ drop_reads m v i s goes k;
        removed = omega (arith, w.removed, d.size);
        acted = w.acted;
        limit = w.limit ∙ d.limit;
      }

  scan-Sweeps {μ} :
      (P : ℕ → S → Type μ)
      → ((r k : ℕ) (x : V) (s : S) → pred k x ≡ true → P r s → P (r + 1) (act k x s))
      → (n : ℕ) (m : OpenMap V) (v : IsValid m) (removed i : ℕ) (s : S) → i ≤ v.cap
      → Clean m i
      → v.cap + m.size + 1 ≤ n + i
      → P removed s
      → Sweeps P removed m (scan n pred act m removed i s)
  scan-Sweeps P keep zero m v removed i s hi clean fuel h = absurd (omega arith)
  scan-Sweeps P keep (suc n) m v removed i s hi clean fuel h = elim (dec_lt i v.cap) [
    | no past ↦
        let e : i ≡ v.cap = omega arith in
        rw (scan_stop n m removed i s (ground (arith, v.geometry.ones))) (record {
          valid = v;
          reads = stop_reads m v (rw e at clean);
          removed = refl;
          acted = h;
          limit = refl;
        })
    | yes lt ↦
        let inside : leb i m.mask ≡ true = ground (arith, v.geometry.ones) in
        elim (Bool-cases ((at m.cells i).used && pred (at m.cells i).key (at m.cells i).val)) [
          | inr stays ↦ rw (scan_on n m removed i s inside stays) (
              scan-Sweeps P keep n m v removed (i + 1) s (omega arith) (Clean-step m i clean stays)
                (omega arith) h)
          | inl goes ↦
              let (live, chosen) = both _ _ goes in
              let r = drop_at-Drops m v i lt live in
              rw (scan_again n m removed i s inside goes) (
                again m v i (record { inside = lt; live = live; keyed = refl }) chosen removed _
                  (scan-Sweeps P keep n (drop_at m i) r.valid (removed + 1) i _ (rw r.same_cap hi)
                    (drop_Clean m v i lt live clean) (omega (arith, r.size, r.same_cap))
                    (keep removed _ _ s chosen h)))
        ]
  ]

  -- On a valid table `erase_if` ends with the invariant; it removes every entry of which the predicate holds and no
  -- other, returns how many, and acts once for each removal (whatever `P` the acts keep holds).
  pub erase_if-Sweeps {μ} :
      (P : ℕ → S → Type μ)
      → ((r k : ℕ) (x : V) (s : S) → pred k x ≡ true → P r s → P (r + 1) (act k x s))
      → (m : OpenMap V) (s : S) → IsValid m
      → P 0 s
      → Sweeps P 0 m (erase_if pred act m s)
  unfolding erase_if
  erase_if-Sweeps P keep m s v h =
      let any : (length m.cells == 0) ≡ false =
        ==_false (length m.cells) 0 (λ e. absurd (omega (arith, v.geometry.pos, v.width))) in
      rw any (
        scan-Sweeps P keep (length m.cells + length m.cells) m v 0 0 s (omega arith)
          (λ p hp u. absurd (omega arith)) (omega (arith, v.width, v.bounded, v.room)) h)
