-- ===== src/OpenMap/Insert.antt =====
-- `insert` and a write through a pointer: the invariant kept, and the effect on the abstract map.
use native.Mathlib.Decide.{ℕ_discrete}
use slick_perfmon.Prelude.{
  ℕ, ◌+◌, ◌<◌, ◌≡◌, refl, sym, ap, ◌∙◌, ◌≢◌, ◌⊎◌, arith, true, false, ◌==◌, if_eq, if◌then◌else◌,
  Bool-cases, Option, none, some, length-set, set, inl, inr,
}
use slick_perfmon.OpenMap.{
  Cell, Default, OpenMap, at, home, Probe, hit, hole, endless, locate, find, load, insert, full,
}
use slick_perfmon.OpenMap.Cells.{at-set, total, one, total-set}
use slick_perfmon.OpenMap.Cyclic.{gap}
use slick_perfmon.OpenMap.Probing.{Ends}
use slick_perfmon.OpenMap.Placed.{Before, Reached, Unique}
use slick_perfmon.OpenMap.Valid.{
  IsValid, lookup, Stored, locate-Ends, locate-Stored, find-eq_some, lookup-eq_some, lookup-eq_none,
  lookup_agrees, find_hit, find_hole, locate-ne-endless,
}

module _ {ℓ} {V : Type ℓ} ⦃d : Default V⦄ where
  -- What `insert` makes of the value under the key: the first one stays, and a full table takes none.
  abbrev pub kept : OpenMap V → V → Option V → Option V
  kept m x (some old) = some old
  kept m x none = if full m then none else some x

  abbrev pub added : OpenMap V → ℕ → Option V → ℕ
  added m n (some old) = 0
  added m n none = if full m then 0 else n

  -- A value that counts for nothing adds nothing.
  pub added_zero : (m : OpenMap V) (o : Option V) → added m 0 o ≡ 0
  added_zero m (some old) = refl
  added_zero m none = ground arith

  pub record Inserts (m : OpenMap V) (k : ℕ) (x : V) (r : Option ℕ × OpenMap V) : Type ℓ where
    pub valid : IsValid r.1
    pub pointer : r.0 ≡ find r.1 k
    pub reads : (k' : ℕ) → lookup r.1 k' ≡ (if k == k' then kept m x (lookup m k) else lookup m k')
    pub sums : (g : ℕ → V → ℕ) → total g r.1.cells ≡ total g m.cells + added m (g k x) (lookup m k)
    pub size : r.1.size ≡ m.size + added m 1 (lookup m k)
    pub limit : r.1.max_entries ≡ m.max_entries

  -- The new entry, in the unused slot `i` at which the probe for its key stopped.
  module _ (m : OpenMap V) (v : IsValid m) (k i : ℕ) (x : V) (stopped : locate m k ≡ hole i)
      (roomy : m.size < m.max_entries) where
    open v use {cap, geometry, width, counted, bounded, room, reached, unique}

    ends : Ends m.cells m.mask cap k geometry (hole i)
    ends = rw stopped at (locate-Ends m v k)

    abbrev fresh : Cell V
    fresh = record { used = true; key = k; val = x }

    grown : OpenMap V
    grown = record m { cells = set m.cells i fresh; size = m.size + 1 }

    at-grown : (j : ℕ) → at grown.cells j ≡ (if i == j then fresh else at m.cells j)
    unfolding grown
    at-grown j = at-set m.cells i j fresh (rw width ends.0)

    at-grown_other : (j : ℕ) → j ≢ i → at grown.cells j ≡ at m.cells j
    at-grown_other j ne = ground (arith, at-grown j)

    at-grown_self : at grown.cells i ≡ fresh
    at-grown_self = ground (arith, at-grown i)

    absent : (p : ℕ) → Stored m cap k p → ⊥
    absent p s = cc (locate-Stored m v k p s)

    total-grown : (g : ℕ → V → ℕ) → total g grown.cells ≡ total g m.cells + g k x
    unfolding grown
    total-grown g =
        let e = total-set g m.cells i fresh (rw width ends.0) in
        let gone : total g (set m.cells i fresh) + 0 ≡ total g m.cells + g k x = rw ends.1 at e in
        omega arith

    grown-Reached : Reached m.mask cap grown.cells
    grown-Reached p q hp hq up before = elim (ℕ_discrete q i) [
      | yes e ↦ rw (e, at-grown_self)
      | no nq ↦ rw (at-grown_other q nq) (elim (ℕ_discrete p i) [
        | yes e ↦
            let near : gap cap (home m.mask k) q < gap cap (home m.mask k) i =
              rw (e, at-grown_self) at before in
            (ends.2 q hq near).0
        | no np ↦
            let live : (at m.cells p).used ≡ true = rw (at-grown_other p np) at up in
            let near : Before m.mask cap m.cells p q = rw (at-grown_other p np) at before in
            reached p q hp hq live near
      ])
    ]

    -- An entry of the grown table is the new one, or an old one under another key.
    grown-entry :
        (p : ℕ)
        → p < cap
        → (at grown.cells p).used ≡ true
        → ((p ≡ i) × (at grown.cells p ≡ fresh))
          ⊎ ((p ≢ i)
              × ((at m.cells p).used ≡ true)
              × ((at m.cells p).key ≢ k)
              × (at grown.cells p ≡ at m.cells p))
    grown-entry p hp u = elim (ℕ_discrete p i) [
      | yes e ↦ inl (e, rw e at-grown_self)
      | no ne ↦
          let live : (at m.cells p).used ≡ true = rw (at-grown_other p ne) at u in
          inr (
            ne,
            live,
            λ same. absent p (record { inside = hp; live = live; keyed = same }),
            at-grown_other p ne,
          )
    ]

    grown-Unique : Unique m.mask cap grown.cells
    grown-Unique p q hp hq up uq same = elim (grown-entry p hp up) [
      | inl (ep, cp) ↦ elim (grown-entry q hq uq) [
        | inl (eq, cq) ↦ ep ∙ sym eq
        | inr (nq, lq, kq, cq) ↦ absurd (kq (cc))
      ]
      | inr (np, lp, kp, cp) ↦ elim (grown-entry q hq uq) [
        | inl (eq, cq) ↦ absurd (kp (cc))
        | inr (nq, lq, kq, cq) ↦ unique p q hp hq lp lq (cc)
      ]
    ]

    grown-IsValid : IsValid grown
    unfolding grown
    grown-IsValid = record {
      cap = cap;
      geometry = geometry;
      width = length-set m.cells i fresh ∙ width;
      counted = rw (total-grown one) (omega arith);
      bounded = omega arith;
      room = room;
      reached = grown-Reached;
      unique = grown-Unique;
    }

    new_entry : Stored grown cap k i
    new_entry = record {
      inside = ends.0;
      live = ap (λ (c : Cell V). c.used) at-grown_self;
      keyed = ap (λ (c : Cell V). c.key) at-grown_self;
    }

    reads_self : lookup grown k ≡ some x
    unfolding load grown-IsValid
    reads_self =
        lookup-eq_some grown grown-IsValid k i new_entry
        ∙ ap (λ (c : Cell V). some c.val) at-grown_self

    reads_other : (k' : ℕ) → k ≢ k' → lookup grown k' ≡ lookup m k'
    unfolding grown-IsValid
    reads_other k' ne = lookup_agrees m grown v grown-IsValid k' there back
      where
        there :
            (p : ℕ)
            → Stored m cap k' p
            → (q : ℕ) × Stored grown cap k' q × (load grown q ≡ load m p)
        there p s =
            let np : p ≢ i = λ e. cc (s.live, ap (λ (y : ℕ). (at m.cells y).used) e, ends.1) in
            let same = at-grown_other p np in
            (
              p,
              record {
                inside = s.inside;
                live = ap (λ (c : Cell V). c.used) same ∙ s.live;
                keyed = ap (λ (c : Cell V). c.key) same ∙ s.keyed;
              },
              unfold load in ap (λ (c : Cell V). c.val) same,
            )

        back : (q : ℕ) → Stored grown cap k' q → (p : ℕ) × Stored m cap k' p
        back q s = elim (grown-entry q s.inside s.live) [
          | inl (e, c) ↦ absurd (ne (sym (ap (λ (z : Cell V). z.key) c) ∙ s.keyed))
          | inr (nq, lq, kq, c) ↦ (
            q,
            record {
              inside = s.inside;
              live = lq;
              keyed = sym (ap (λ (z : Cell V). z.key) c) ∙ s.keyed;
            },
          )
        ]

    grown-Inserts : full m ≡ false → Inserts m k x (some i, grown)
    unfolding grown grown-IsValid
    grown-Inserts f =
        let was : lookup m k ≡ none = lookup-eq_none m v k (find_hole m k i stopped) in
        record {
          valid = grown-IsValid;
          pointer = sym (find-eq_some grown grown-IsValid k i new_entry);
          reads = λ k'. rw (was, f) (if_eq k k' _ _ _ (λ e. rw (← e) reads_self) (reads_other k'));
          sums = λ g. rw (was, f) (total-grown g);
          size = rw (was, f);
          limit = refl;
        }

  kept-Inserts :
      (m : OpenMap V) (v : IsValid m) (k : ℕ) (x : V) (o : Option V)
      → lookup m k ≡ o
      → kept m x o ≡ o
      → ((n : ℕ) → added m n o ≡ 0)
      → Inserts m k x (find m k, m)
  kept-Inserts m v k x o e same nothing = record {
    valid = v;
    pointer = refl;
    reads = λ k'. if_eq k k' _ _ _ (λ h. rw (← h, e, same)) (λ ne. refl);
    sums = λ g. rw (e, nothing (g k x)) (omega arith);
    size = rw (e, nothing 1) (omega arith);
    limit = refl;
  }

  -- On a valid table `insert` keeps the invariant; it returns the pointer that `find` then returns; a key that is
  -- there keeps its value, a new one is added unless the table is full, and no other key is touched.
  pub insert-Inserts : (m : OpenMap V) (k : ℕ) (x : V) → IsValid m → Inserts m k x (insert m k x)
  unfolding insert full lookup
  insert-Inserts m k x v = go (locate m k) refl
    where
      go : (r : Probe) → locate m k ≡ r → Inserts m k x (insert m k x)
      go (hit p) e =
          rw (e, insert)
            (rw (find_hit m k p e) at (
              kept-Inserts m v k x (some (load m p)) (rw (find_hit m k p e, lookup)) refl
                (λ n. refl)))
      go (hole i) e = elim (Bool-cases (full m)) [
        | inl f ↦
            rw (e, f, insert)
              (rw (find_hole m k i e) at (
                kept-Inserts m v k x none (lookup-eq_none m v k (find_hole m k i e)) (rw f)
                  (λ n. rw f)))
        | inr f ↦ rw (e, f, insert) (unfold grown in grown-Inserts m v k i x e (ground arith) f)
      ]
      go endless e = absurd (locate-ne-endless m v k e)
