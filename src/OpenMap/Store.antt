-- ===== src/OpenMap/Store.antt =====
-- A write through a pointer that `find` or `insert` returned.
use native.Mathlib.Decide.{ℕ_discrete}
use slick_perfmon.Prelude.{
  ℕ, ◌+◌, ◌≤◌, ◌≡◌, refl, sym, ap, ◌∙◌, ◌≢◌, arith, ◌==◌, if_eq, if◌then◌else◌, some, Option-cases,
  inl, inr, length-set,
}
use slick_perfmon.OpenMap.{Cell, Default, OpenMap, at, find, load, store}
use slick_perfmon.OpenMap.Cells.{at-set, total, weight, one, total-set, weight-le-total}
use slick_perfmon.OpenMap.Valid.{
  IsValid, lookup, Stored, find-Stored, lookup-eq_some, lookup-eq_none, lookup_agrees,
}

module _ {ℓ} {V : Type ℓ} ⦃d : Default V⦄ where
  pub record Stores (m : OpenMap V) (k i : ℕ) (x : V) (out : OpenMap V) : Type ℓ where
    pub valid : IsValid out
    pub reads : (k' : ℕ) → lookup out k' ≡ (if k == k' then some x else lookup m k')
    pub sums : (g : ℕ → V → ℕ) → total g out.cells + g k (load m i) ≡ total g m.cells + g k x
    pub size : out.size ≡ m.size
    pub limit : out.max_entries ≡ m.max_entries

  module _ (m : OpenMap V) (v : IsValid m) (k i : ℕ) (x : V) (s : Stored m v.cap k i) where
    open v use {cap, geometry, width, counted, bounded, room, reached, unique}

    abbrev out : OpenMap V
    out = store m i x

    at-out :
        (j : ℕ)
        → at out.cells j ≡ (if i == j then record (at m.cells i) { val = x } else at m.cells j)
    unfolding store
    at-out j = at-set m.cells i j _ (rw width s.inside)

    at-out_self : at out.cells i ≡ record (at m.cells i) { val = x }
    at-out_self = ground (arith, at-out i)

    at-out_other : (j : ℕ) → i ≢ j → at out.cells j ≡ at m.cells j
    at-out_other j ne = ground (arith, at-out j)

    used-out : (j : ℕ) → (at out.cells j).used ≡ (at m.cells j).used
    used-out j = elim (ℕ_discrete i j) [
      | yes e ↦ rw (← e) (ground (arith, at-out i))
      | no ne ↦ ground (arith, at-out j)
    ]

    key-out : (j : ℕ) → (at out.cells j).key ≡ (at m.cells j).key
    key-out j = elim (ℕ_discrete i j) [
      | yes e ↦ rw (← e) (ground (arith, at-out i))
      | no ne ↦ ground (arith, at-out j)
    ]

    total-out : (g : ℕ → V → ℕ) → total g out.cells + g k (load m i) ≡ total g m.cells + g k x
    unfolding store load
    total-out g =
        let e = total-set g m.cells i (record (at m.cells i) { val = x }) (rw width s.inside) in
        let was : weight g (at m.cells i) ≡ g k (at m.cells i).val = rw (s.live, s.keyed) in
        let now : weight g (record (at m.cells i) { val = x }) ≡ g k x = rw (s.live, s.keyed) in
        omega arith

    out-IsValid : IsValid out
    unfolding store
    out-IsValid = record {
      cap = cap;
      geometry = geometry;
      width = length-set m.cells i _ ∙ width;
      counted = omega (arith, total-out one);
      bounded = bounded;
      room = room;
      reached = λ p q hp hq up before.
          used-out q ∙ reached p q hp hq (sym (used-out p) ∙ up) (rw (key-out p) at before);
      unique = λ p q hp hq up uq same.
          unique p q hp hq (sym (used-out p) ∙ up) (sym (used-out q) ∙ uq)
            (sym (key-out p) ∙ same ∙ key-out q);
    }

    stored : Stored out cap k i
    stored = record { inside = s.inside; live = used-out i ∙ s.live; keyed = key-out i ∙ s.keyed }

    reads_self : lookup out k ≡ some x
    unfolding out-IsValid load
    reads_self =
        lookup-eq_some out out-IsValid k i stored ∙ ap (λ (c : Cell V). some c.val) at-out_self

    reads_other : (k' : ℕ) → k ≢ k' → lookup out k' ≡ lookup m k'
    unfolding out-IsValid load
    reads_other k' ne = lookup_agrees m out v out-IsValid k' there back
      where
        there :
            (p : ℕ) → Stored m cap k' p → (q : ℕ) × Stored out cap k' q × (load out q ≡ load m p)
        there p t =
            let np : i ≢ p =
              λ e. ne (sym s.keyed ∙ ap (λ (y : ℕ). (at m.cells y).key) e ∙ t.keyed) in
            (
              p,
              record { inside = t.inside; live = used-out p ∙ t.live; keyed = key-out p ∙ t.keyed },
              ap (λ (c : Cell V). c.val) (at-out_other p np),
            )

        back : (q : ℕ) → Stored out cap k' q → (p : ℕ) × Stored m cap k' p
        back q t = (
          q,
          record {
            inside = t.inside;
            live = sym (used-out q) ∙ t.live;
            keyed = sym (key-out q) ∙ t.keyed;
          },
        )

    -- On a valid table a write through a pointer to the entry of `k` keeps the invariant and changes
    -- the value under `k` alone.
    pub store-Stores : Stores m k i x (store m i x)
    store-Stores = record {
      valid = out-IsValid;
      reads = λ k'. if_eq k k' _ _ _ (λ e. rw (← e) reads_self) (reads_other k');
      sums = total-out;
      size = unfold store in refl;
      limit = unfold store in refl;
    }

  -- An entry is part of every sum.
  pub entry-le-total :
      (m : OpenMap V) (v : IsValid m) (k i : ℕ) (g : ℕ → V → ℕ)
      → Stored m v.cap k i
      → g k (load m i) ≤ total g m.cells
  unfolding load
  entry-le-total m v k i g s =
      let part = weight-le-total g m.cells i (omega (arith, s.inside, v.width)) in
      rw (s.live, s.keyed) at part

  -- A table in which something is found is not empty.
  pub lookup-size : (m : OpenMap V) (k : ℕ) (x : V) → IsValid m → lookup m k ≡ some x → 1 ≤ m.size
  lookup-size m k x v e = elim (Option-cases (find m k)) [
    | inl gone ↦ absurd (let z = lookup-eq_none m v k gone in cc (z, e))
    | inr (i, found) ↦
        omega (arith, entry-le-total m v k i one (find-Stored m v k i found), v.counted)
  ]
