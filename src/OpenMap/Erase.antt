-- ===== src/OpenMap/Erase.antt =====
-- `erase`: the invariant kept, and the effect on the abstract map.
use native.Mathlib.Decide.{ℕ_discrete}
use slick_perfmon.Prelude.{
  ℕ, ◌+◌, ◌≤◌, ◌<◌, ◌≡◌, refl, sym, ap, ◌∙◌, ◌≢◌, arith, Bool, true, false, ◌==◌, if_eq,
  if◌then◌else◌, none, some, Option-cases, List, length, length-set, set, inl, inr,
}
use slick_perfmon.OpenMap.{
  Cell, Default, OpenMap, at, Probe, hit, hole, endless, locate, find, load, erase_at, drop_at,
  erase,
}
use slick_perfmon.OpenMap.Cells.{at-set, total, one, total-set, unused_slot}
use slick_perfmon.OpenMap.Cyclic.{gap, gap_self, gap-lt, gap_inj}
use slick_perfmon.OpenMap.Placed.{Before, Broken, Unique}
use slick_perfmon.OpenMap.Shifting.{Shifted, shift-Shifted}
use slick_perfmon.OpenMap.Valid.{
  IsValid, lookup, Stored, find-Stored, lookup-eq_some, lookup-eq_none, lookup_agrees, find_hit,
  find_hole, locate-ne-endless,
}

module _ {ℓ} {V : Type ℓ} ⦃d : Default V⦄ where
  -- The entry of slot `i` is gone, and `out` holds the others.
  pub record Drops (m : OpenMap V) (cap i : ℕ) (out : OpenMap V) : Type ℓ where
    pub valid : IsValid out
    pub same_cap : valid.cap ≡ cap
    pub reads : (k : ℕ) → lookup out k ≡ (if (at m.cells i).key == k then none else lookup m k)
    pub sums :
        (g : ℕ → V → ℕ)
        → total g out.cells + g (at m.cells i).key (at m.cells i).val ≡ total g m.cells
    pub size : out.size + 1 ≡ m.size
    pub limit : out.max_entries ≡ m.max_entries
    pub mask : out.mask ≡ m.mask
    pub comes :
        (q : ℕ)
        → q < cap
        → (at out.cells q).used ≡ true
        → (p : ℕ) × (p < cap)
          × (p ≢ i)
          × (gap cap i q ≤ gap cap i p)
          × (at out.cells q ≡ at m.cells p)

  module _ (m : OpenMap V) (v : IsValid m) (i : ℕ) (inside : i < v.cap)
      (live : (at m.cells i).used ≡ true) where
    open v use {cap, geometry, width, counted, bounded, room, reached, unique}

    cleared : List (Cell V)
    cleared = set m.cells i (record (at m.cells i) { used = false })

    at-cleared :
        (j : ℕ)
        → at cleared j ≡ (if i == j then record (at m.cells i) { used = false } else at m.cells j)
    unfolding cleared
    at-cleared j = at-set m.cells i j _ (rw width inside)

    at-cleared_other : (j : ℕ) → j ≢ i → at cleared j ≡ at m.cells j
    at-cleared_other j ne = ground (arith, at-cleared j)

    cleared_hole : (at cleared i).used ≡ false
    cleared_hole = ground (arith, at-cleared i)

    -- A live slot of the cleared cells is another slot than `i`, with the old cell.
    cleared_live : (p : ℕ) → (at cleared p).used ≡ true → (p ≢ i) × (at cleared p ≡ at m.cells p)
    cleared_live p u = elim (ℕ_discrete p i) [
      | yes e ↦ cc (ap (λ (x : ℕ). (at cleared x).used) e, cleared_hole, u)
      | no ne ↦ (ne, at-cleared_other p ne)
    ]

    cleared-Broken : Broken m.mask cap cleared i i
    cleared-Broken p q hp hq up before =
        let (np, cp) = cleared_live p up in
        elim (ℕ_discrete q i) [
          | yes e ↦
              let ne : gap cap i i ≢ gap cap i p =
                λ z. np (sym (gap_inj cap i i p inside inside hp z)) in
              inr (e, omega (arith, gap_self cap i))
          | no nq ↦
              let near : Before m.mask cap m.cells p q = rw cp at before in
              let on : (at m.cells p).used ≡ true = rw cp at up in
              inl (rw (at-cleared_other q nq) (reached p q hp hq on near))
        ]

    cleared-Unique : Unique m.mask cap cleared
    cleared-Unique p q hp hq up uq same =
        let (np, cp) = cleared_live p up in
        let (nq, cq) = cleared_live q uq in unique p q hp hq (cc) (cc) (cc)

    total-cleared :
        (g : ℕ → V → ℕ)
        → total g cleared + g (at m.cells i).key (at m.cells i).val ≡ total g m.cells
    unfolding cleared
    total-cleared g =
        let e = total-set g m.cells i (record (at m.cells i) { used = false }) (rw width inside) in
        let gone : total g cleared + g (at m.cells i).key (at m.cells i).val ≡ total g m.cells + 0 =
          rw live at e in
        omega arith

    abbrev out : OpenMap V
    out = drop_at m i

    out-Shifted : Shifted m.mask cap geometry i cleared out.cells
    unfolding drop_at erase_at cleared
    out-Shifted =
        let (f, lt, unused) = unused_slot m.cells (omega arith) in
        let fi : f ≢ i = λ e. cc (unused, ap (λ (x : ℕ). (at m.cells x).used) e, live) in
        let hf : f < cap = omega arith in
        let ne : gap cap i i ≢ gap cap i f = λ z. fi (sym (gap_inj cap i i f inside inside hf z)) in
        let ahead : gap cap i i < gap cap i f = omega (arith, gap_self cap i) in
        shift-Shifted m.mask cap geometry i (length m.cells) cleared i i f inside
          (length-set m.cells i _ ∙ width) inside inside hf cleared_hole
          (ap (λ (c : Cell V). c.used) (at-cleared_other f fi) ∙ unused) cleared-Broken
          cleared-Unique ahead (omega arith) ahead (omega (arith, gap-lt cap i f inside hf))

    total-out :
        (g : ℕ → V → ℕ)
        → total g out.cells + g (at m.cells i).key (at m.cells i).val ≡ total g m.cells
    total-out g = rw (out-Shifted.moves.totals g) (total-cleared g)

    size-out : out.size + 1 ≡ m.size
    unfolding drop_at
    size-out = omega (arith, total-out one)

    out-IsValid : IsValid out
    unfolding drop_at
    out-IsValid = record {
      cap = cap;
      geometry = geometry;
      width = out-Shifted.moves.width ∙ unfold cleared in length-set m.cells i _ ∙ width;
      counted = omega (arith, total-out one, size-out);
      bounded = omega (arith, size-out);
      room = room;
      reached = out-Shifted.reached;
      unique = out-Shifted.unique;
    }

    -- Every entry left comes from another slot than `i`, as far from it or further.
    out-comes :
        (q : ℕ)
        → q < cap
        → (at out.cells q).used ≡ true
        → (p : ℕ) × (p < cap)
          × (p ≢ i)
          × (gap cap i q ≤ gap cap i p)
          × (at out.cells q ≡ at m.cells p)
    out-comes q hq u =
        let (p, hp, le, e) = out-Shifted.moves.comes q hq u in
        let (np, cp) = cleared_live p (ap (λ (c : Cell V). c.used) (sym e) ∙ u) in
        (p, hp, np, le, e ∙ cp)

    out-keeps :
        (p : ℕ)
        → p < cap
        → (at m.cells p).used ≡ true
        → p ≢ i
        → (q : ℕ) × (q < cap) × (at out.cells q ≡ at m.cells p)
    out-keeps p hp u np =
        let c = at-cleared_other p np in
        let (q, hq, le, e) = out-Shifted.moves.keeps p hp (ap (λ (z : Cell V). z.used) c ∙ u) in
        (q, hq, e ∙ c)

    gone : (k q : ℕ) → (at m.cells i).key ≡ k → Stored out cap k q → ⊥
    gone k q e s =
        let (p, hp, np, le, c) = out-comes q s.inside s.live in
        np (
          unique p i hp inside (ap (λ (z : Cell V). z.used) (sym c) ∙ s.live) live
            (ap (λ (z : Cell V). z.key) (sym c) ∙ s.keyed ∙ sym e))

    reads_gone : (k : ℕ) → (at m.cells i).key ≡ k → lookup out k ≡ none
    unfolding out-IsValid
    reads_gone k e = elim (Option-cases (find out k)) [
      | inl f ↦ lookup-eq_none out out-IsValid k f
      | inr (q, f) ↦ absurd (gone k q e (find-Stored out out-IsValid k q f))
    ]

    reads_other : (k : ℕ) → (at m.cells i).key ≢ k → lookup out k ≡ lookup m k
    unfolding out-IsValid load
    reads_other k ne = lookup_agrees m out v out-IsValid k there back
      where
        there : (p : ℕ) → Stored m cap k p → (q : ℕ) × Stored out cap k q × (load out q ≡ load m p)
        there p s =
            let np : p ≢ i = λ e. ne (ap (λ (x : ℕ). (at m.cells x).key) (sym e) ∙ s.keyed) in
            let (q, hq, c) = out-keeps p s.inside s.live np in
            (
              q,
              record {
                inside = hq;
                live = ap (λ (z : Cell V). z.used) c ∙ s.live;
                keyed = ap (λ (z : Cell V). z.key) c ∙ s.keyed;
              },
              ap (λ (z : Cell V). z.val) c,
            )

        back : (q : ℕ) → Stored out cap k q → (p : ℕ) × Stored m cap k p
        back q s =
            let (p, hp, np, le, c) = out-comes q s.inside s.live in
            (
              p,
              record {
                inside = hp;
                live = ap (λ (z : Cell V). z.used) (sym c) ∙ s.live;
                keyed = ap (λ (z : Cell V). z.key) (sym c) ∙ s.keyed;
              },
            )

    -- Dropping the entry of a slot keeps the invariant, forgets that entry's key and no other, and
    -- takes the entry out of every sum.
    pub drop_at-Drops : Drops m cap i (drop_at m i)
    unfolding out-IsValid drop_at
    drop_at-Drops = record {
      valid = out-IsValid;
      same_cap = refl;
      reads = λ k. if_eq (at m.cells i).key k _ _ _ (reads_gone k) (reads_other k);
      sums = total-out;
      size = size-out;
      limit = refl;
      mask = refl;
      comes = out-comes;
    }

  -- `erase` says whether the key was there.
  pub record Erases (m : OpenMap V) (k : ℕ) (r : Bool × OpenMap V) : Type ℓ where
    pub valid : IsValid r.1
    pub found : r.0 ≡ elim (lookup m k) [ some x ↦ true | none ↦ false ]
    pub reads : (k' : ℕ) → lookup r.1 k' ≡ (if k == k' then none else lookup m k')
    pub sums :
        (g : ℕ → V → ℕ)
        → total g r.1.cells + elim (lookup m k) [ some x ↦ g k x | none ↦ 0 ] ≡ total g m.cells
    pub size : r.1.size + elim (lookup m k) [ some x ↦ 1 | none ↦ 0 ] ≡ m.size
    pub limit : r.1.max_entries ≡ m.max_entries

  -- On a valid table `erase` keeps the invariant, forgets its key and no other, takes the entry out of every sum, and
  -- returns whether the key was there.
  pub erase-Erases : (m : OpenMap V) (k : ℕ) → IsValid m → Erases m k (erase m k)
  unfolding erase
  erase-Erases m k v = go (locate m k) refl
    where
      here : (p : ℕ) → locate m k ≡ hit p → Erases m k (true, drop_at m p)
      here p e =
          let s = find-Stored m v k p (find_hit m k p e) in
          let r = drop_at-Drops m v p s.inside s.live in
          let was = lookup-eq_some m v k p s in
          record {
            valid = r.valid;
            found = rw was;
            reads = λ k'. rw (← s.keyed) (r.reads k');
            sums = λ g. rw (was, ← s.keyed) (unfold load in r.sums g);
            size = rw was r.size;
            limit = r.limit;
          }

      absent : lookup m k ≡ none → Erases m k (false, m)
      absent was = record {
        valid = v;
        found = rw was;
        reads = λ k'. if_eq k k' _ _ _ (λ e. rw (← e) was) (λ ne. refl);
        sums = λ g. rw was (omega arith);
        size = rw was (omega arith);
        limit = refl;
      }

      go : (r : Probe) → locate m k ≡ r → Erases m k (erase m k)
      go (hit p) e = rw (e, erase) (here p e)
      go (hole i) e = rw (e, erase) (absent (lookup-eq_none m v k (find_hole m k i e)))
      go endless e = absurd (locate-ne-endless m v k e)
