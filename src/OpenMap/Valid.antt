-- ===== src/OpenMap/Valid.antt =====
-- The invariant of the table, and what `find` returns under it.
use native.Mathlib.Decide.{dec_lt}
use slick_perfmon.Prelude.{
  ℕ, ◌≤◌, ◌<◌, ◌≡◌, refl, sym, ap, ◌∙◌, ◌≢◌, arith, true, Option, none, some, Option-cases, length,
  inl, inr,
}
use slick_perfmon.OpenMap.{
  Default, OpenMap, at, home, Probe, hit, hole, endless, locate, find, load,
}
use slick_perfmon.OpenMap.Cells.{total, one, unused_slot}
use slick_perfmon.OpenMap.Cyclic.{gap, gap_inj, IsMask}
use slick_perfmon.OpenMap.Probing.{Ends, probe-Ends-home}
use slick_perfmon.OpenMap.Placed.{Before, Reached, Unique}

-- `cap` slots, a mask for them, as many entries as `size` says, room for one more, no key twice,
-- and no unused slot between an entry and its home.
pub record IsValid {ℓ} {V : Type ℓ} ⦃d : Default V⦄ (m : OpenMap V) : Type ℓ where
  pub cap : ℕ
  pub geometry : IsMask m.mask cap
  pub width : length m.cells ≡ cap
  pub counted : total one m.cells ≡ m.size
  pub bounded : m.size ≤ m.max_entries
  pub room : m.max_entries < cap
  pub reached : Reached m.mask cap m.cells
  pub unique : Unique m.mask cap m.cells

module _ {ℓ} {V : Type ℓ} ⦃d : Default V⦄ where
  -- The abstract view: the value under a key.
  unfoldable pub lookup : OpenMap V → ℕ → Option V
  lookup m k = elim (find m k) [ some i ↦ some (load m i) | none ↦ none ]

  -- An entry of the table at slot `p`, under the key `k`.
  pub record Stored (m : OpenMap V) (cap k p : ℕ) : Type 0 where
    pub inside : p < cap
    pub live : (at m.cells p).used ≡ true
    pub keyed : (at m.cells p).key ≡ k

  module _ (m : OpenMap V) (v : IsValid m) where
    open v use {cap, geometry, width, counted, bounded, room, reached, unique}

    pub locate-Ends : (k : ℕ) → Ends m.cells m.mask cap k geometry (locate m k)
    unfolding locate
    locate-Ends k =
        let (f, lt, unused) = unused_slot m.cells (omega arith) in
        rw width (probe-Ends-home m.cells m.mask cap k geometry f (omega arith) unused)

    -- On a valid table the probe loop ends within the rounds that it is given, one for each slot.
    pub locate-ne-endless : (k : ℕ) → locate m k ≢ endless
    locate-ne-endless k e = rw e at (locate-Ends k)

    -- The entry under a key is what the probe stops at.
    pub locate-Stored : (k p : ℕ) → Stored m cap k p → locate m k ≡ hit p
    locate-Stored k p s = go (locate m k) (locate-Ends k)
      where
        go : (r : Probe) → Ends m.cells m.mask cap k geometry r → r ≡ hit p
        go (hit j) (hj, used, key) = ap hit (unique j p hj s.inside used s.live (key ∙ sym s.keyed))
        go (hole j) (hj, unused, passed) =
            elim (dec_lt (gap cap (home m.mask k) p) (gap cap (home m.mask k) j)) [
              | yes near ↦ absurd ((passed p s.inside near).1 s.keyed)
              | no far ↦
                  let apart : gap cap (home m.mask k) j ≢ gap cap (home m.mask k) p = λ z.
                    let same : j ≡ p =
                      gap_inj cap (home m.mask k) j p (geometry.home_lt k) hj s.inside z in
                    cc (ap (λ (x : ℕ). (at m.cells x).used) same, s.live) in
                  let before : Before m.mask cap m.cells p j = rw s.keyed (omega arith) in
                  cc (reached p j s.inside hj s.live before)
            ]
        go endless e = absurd e

    pub find-eq_some : (k p : ℕ) → Stored m cap k p → find m k ≡ some p
    unfolding find
    find-eq_some k p s = rw (locate-Stored k p s, find)

    pub find-Stored : (k p : ℕ) → find m k ≡ some p → Stored m cap k p
    unfolding find
    find-Stored k p e = go (locate m k) (locate-Ends k) e
      where
        go :
            (r : Probe)
            → Ends m.cells m.mask cap k geometry r
            → elim r [ hit i ↦ some i | hole i ↦ none | endless ↦ none ] ≡ some p
            → Stored m cap k p
        go (hit j) (hj, used, key) eq =
            let same : j ≡ p = cc in
            record {
              inside = rw (← same) hj;
              live = ap (λ (x : ℕ). (at m.cells x).used) (sym same) ∙ used;
              keyed = ap (λ (x : ℕ). (at m.cells x).key) (sym same) ∙ key;
            }
        go (hole j) h eq = cc
        go endless h eq = cc

    -- `find` misses exactly the keys that no entry has.
    pub find-none : (k p : ℕ) → find m k ≡ none → Stored m cap k p → ⊥
    find-none k p e s = cc (find-eq_some k p s)

    pub lookup-eq_some : (k p : ℕ) → Stored m cap k p → lookup m k ≡ some (load m p)
    unfolding lookup
    lookup-eq_some k p s = rw (find-eq_some k p s, lookup)

    pub lookup-eq_none : (k : ℕ) → find m k ≡ none → lookup m k ≡ none
    unfolding lookup
    lookup-eq_none k e = rw (e, lookup)

    -- An entry's slot is found again, whatever its key.
    pub live-Stored :
        (p : ℕ) → p < cap → (at m.cells p).used ≡ true → Stored m cap (at m.cells p).key p
    live-Stored p hp u = record { inside = hp; live = u; keyed = refl }

  pub find_hit : (m : OpenMap V) (k p : ℕ) → locate m k ≡ hit p → find m k ≡ some p
  unfolding find
  find_hit m k p e = rw (e, find)

  pub find_hole : (m : OpenMap V) (k i : ℕ) → locate m k ≡ hole i → find m k ≡ none
  unfolding find
  find_hole m k i e = rw (e, find)

  -- Two tables in which the entries under `k` are the same cells agree on `k`.
  pub lookup_agrees :
      (a b : OpenMap V) (va : IsValid a) (vb : IsValid b) (k : ℕ)
      → ((p : ℕ) → Stored a va.cap k p → (q : ℕ) × Stored b vb.cap k q × (load b q ≡ load a p))
      → ((q : ℕ) → Stored b vb.cap k q → (p : ℕ) × Stored a va.cap k p)
      → lookup b k ≡ lookup a k
  lookup_agrees a b va vb k there back = elim (Option-cases (find a k)) [
    | inr (p, e) ↦
        let s = find-Stored a va k p e in
        let (q, t, same) = there p s in
        rw (lookup-eq_some b vb k q t, lookup-eq_some a va k p s, same)
    | inl e ↦ elim (Option-cases (find b k)) [
      | inr (q, f) ↦ let (p, s) = back q (find-Stored b vb k q f) in absurd (find-none a va k p e s)
      | inl f ↦ rw (lookup-eq_none a va k e, lookup-eq_none b vb k f)
    ]
  ]
