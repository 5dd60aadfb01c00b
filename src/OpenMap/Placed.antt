-- ===== src/OpenMap/Placed.antt =====
-- Where entries may stand: the order that linear probing rests on, and one move of the deletion.
use native.Mathlib.Decide.{ℕ_discrete}
use slick_perfmon.Prelude.{
  ℕ, ◌+◌, ◌≤◌, ◌<◌, ◌≡◌, refl, sym, ap, ◌∙◌, ◌≢◌, ◌⊎◌, arith, true, false, ◌==◌, if◌then◌else◌,
  List, length, length-set, set, inl, inr,
}
use slick_perfmon.OpenMap.{Cell, Default, at, home}
use slick_perfmon.OpenMap.Cells.{at-set, total, weight, total-set}
use slick_perfmon.OpenMap.Cyclic.{gap, gap_self, gap_inj}

unless : {A B : Type 0} → A ⊎ B → (B → ⊥) → A
unless (inl a) no_b = a
unless (inr b) no_b = absurd (no_b b)

-- The cells once the entry of slot `k` has moved to slot `i`.
unfoldable pub moved {ℓ} : {V : Type ℓ} ⦃d : Default V⦄ → List (Cell V) → ℕ → ℕ → List (Cell V)
moved cells i k = set (set cells i (at cells k)) k (record (at cells k) { used = false })

pub length-moved {ℓ} :
    {V : Type ℓ} ⦃d : Default V⦄ (cells : List (Cell V)) (i k : ℕ)
    → length (moved cells i k) ≡ length cells
unfolding moved
length-moved cells i k = length-set (set cells i (at cells k)) k _ ∙ length-set cells i _

module _ {ℓ} {V : Type ℓ} ⦃d : Default V⦄ (mask cap : ℕ) where
  abbrev pub home_of : List (Cell V) → ℕ → ℕ
  home_of cells p = home mask (at cells p).key

  -- Slot `q` lies before `p` on the way from the home of `p`.
  abbrev pub Before : List (Cell V) → ℕ → ℕ → Type 0
  Before cells p q = gap cap (home_of cells p) q < gap cap (home_of cells p) p

  -- No unused slot parts an entry from its home.
  abbrev pub Reached : List (Cell V) → Type 0
  Reached cells =
      (p q : ℕ)
      → p < cap
      → q < cap
      → (at cells p).used ≡ true
      → Before cells p q
      → (at cells q).used ≡ true

  -- But for the hole `i`, which may part entries past `j` from their homes.
  abbrev pub Broken : List (Cell V) → ℕ → ℕ → Type 0
  Broken cells i j =
      (p q : ℕ)
      → p < cap
      → q < cap
      → (at cells p).used ≡ true
      → Before cells p q
      → ((at cells q).used ≡ true) ⊎ (q ≡ i) × (gap cap i j < gap cap i p)

  abbrev pub Unique : List (Cell V) → Type 0
  Unique cells =
      (p q : ℕ)
      → p < cap
      → q < cap
      → (at cells p).used ≡ true
      → (at cells q).used ≡ true
      → (at cells p).key ≡ (at cells q).key
      → p ≡ q

  -- `out` holds the entries of `cells`, each where it was or moved back towards `start`.
  pub record Moves (start : ℕ) (cells out : List (Cell V)) : Type ℓ where
    pub width : length out ≡ length cells
    pub totals : (g : ℕ → V → ℕ) → total g out ≡ total g cells
    pub keeps :
        (p : ℕ)
        → p < cap
        → (at cells p).used ≡ true
        → (q : ℕ) × (q < cap) × (gap cap start q ≤ gap cap start p) × (at out q ≡ at cells p)
    pub comes :
        (q : ℕ)
        → q < cap
        → (at out q).used ≡ true
        → (p : ℕ) × (p < cap) × (gap cap start q ≤ gap cap start p) × (at out q ≡ at cells p)

  pub Moves-refl : (start : ℕ) (cells : List (Cell V)) → Moves start cells cells
  Moves-refl start cells = record {
    width = refl;
    totals = λ g. refl;
    keeps = λ p hp used. (p, hp, omega arith, refl);
    comes = λ p hp used. (p, hp, omega arith, refl);
  }

  pub Moves-trans :
      (start : ℕ) (a b c : List (Cell V)) → Moves start a b → Moves start b c → Moves start a c
  Moves-trans start a b c f g = record {
    width = g.width ∙ f.width;
    totals = λ w. g.totals w ∙ f.totals w;
    keeps = λ p hp used.
        let (q, hq, le, e) = f.keeps p hp used in
        let (r, hr, le', e') = g.keeps q hq (ap (λ (x : Cell V). x.used) e ∙ used) in
        (r, hr, omega arith, e' ∙ e);
    comes = λ r hr used.
        let (q, hq, le, e) = g.comes r hr used in
        let (p, hp, le', e') = f.comes q hq (ap (λ (x : Cell V). x.used) (sym e) ∙ used) in
        (p, hp, omega arith, e ∙ e');
  }

  -- The entry of slot `k` moves into the hole `i`.
  module _ (cells : List (Cell V)) (i k : ℕ) (width : length cells ≡ cap) (hi : i < cap)
      (hk : k < cap) (free : (at cells i).used ≡ false) (used : (at cells k).used ≡ true) where
    pub at-moved :
        (x : ℕ)
        → at (moved cells i k) x ≡ (
            if k == x
            then record (at cells k) { used = false }
            else if i == x
            then at cells k
            else at cells x)
    unfolding moved
    at-moved x =
        let l = length-set cells i (at cells k) in
        rw (
          at-set (set cells i (at cells k)) k x (record (at cells k) { used = false })
              (omega arith),
          at-set cells i x (at cells k) (omega arith),
        )

    -- The other slots keep their cell.
    pub at-moved_other : (x : ℕ) → x ≢ i → x ≢ k → at (moved cells i k) x ≡ at cells x
    at-moved_other x ni nk = ground (arith, at-moved x)

    apart : i ≢ k
    apart e = ground arith

    at-moved_hole : at (moved cells i k) i ≡ at cells k
    at-moved_hole = ground (arith, at-moved i, apart)

    pub at-moved_from : (at (moved cells i k) k).used ≡ false
    at-moved_from = ground (arith, at-moved k)

    pub origin :
        (x : ℕ)
        → x < cap
        → (at (moved cells i k) x).used ≡ true
        → (x ≢ k)
          × (o : ℕ) × (o < cap)
          × (at (moved cells i k) x ≡ at cells o)
          × ((x ≡ i) × (o ≡ k) ⊎ (x ≢ i) × (o ≡ x))
    origin x hx u = elim (ℕ_discrete x k) [
      | yes e ↦ cc (at-moved_from, ap (λ (y : ℕ). (at (moved cells i k) y).used) (sym e) ∙ u)
      | no nk ↦ elim (ℕ_discrete x i) [
        | yes e ↦ (nk, k, hk, rw e at-moved_hole, inl (e, refl))
        | no ni ↦ (nk, x, hx, at-moved_other x ni nk, inr (ni, refl))
      ]
    ]

    moved-total : (g : ℕ → V → ℕ) → total g (moved cells i k) ≡ total g cells
    unfolding moved
    moved-total g =
        let mid = set cells i (at cells k) in
        let same : at mid k ≡ at cells k = ground (arith, at-set cells i k (at cells k)) in
        let first : total g mid + 0 ≡ total g cells + weight g (at cells k) =
          rw free at (total-set g cells i (at cells k) (omega arith)) in
        let second : total g (moved cells i k) + weight g (at cells k) ≡ total g mid + 0 =
          rw same at (
            total-set g mid k (record (at cells k) { used = false })
              (omega (arith, length-set cells i (at cells k)))) in
        omega arith

    pub moved-Moves :
        (start : ℕ) → gap cap start i ≤ gap cap start k → Moves start cells (moved cells i k)
    unfolding moved
    moved-Moves start back = record {
      width = length-moved cells i k;
      totals = moved-total;
      keeps = λ p hp u. keeps p hp u;
      comes = λ q hq u. comes q hq u;
    }
      where
        mid : List (Cell V)
        mid = set cells i (at cells k)

        keeps :
            (p : ℕ)
            → p < cap
            → (at cells p).used ≡ true
            → (q : ℕ) × (q < cap)
              × (gap cap start q ≤ gap cap start p)
              × (at (moved cells i k) q ≡ at cells p)
        keeps p hp u = elim (ℕ_discrete p k) [
          | yes e ↦ (i, hi, rw e back, rw e at-moved_hole)
          | no nk ↦
              let ni : p ≢ i = λ e. ground arith in (p, hp, omega arith, at-moved_other p ni nk)
        ]

        comes :
            (q : ℕ)
            → q < cap
            → (at (moved cells i k) q).used ≡ true
            → (p : ℕ) × (p < cap)
              × (gap cap start q ≤ gap cap start p)
              × (at (moved cells i k) q ≡ at cells p)
        comes q hq u = let (nk, o, ho, e, from) = origin q hq u in (o, ho, ground arith, e)

    pub moved-Unique : Unique cells → Unique (moved cells i k)
    moved-Unique unique p q hp hq up uq e =
        let (np, op, hop, ep, fp) = origin p hp up in
        let (nq, oq, hoq, e', fq) = origin q hq uq in
        let same : op ≡ oq = unique op oq hop hoq (cc) (cc) (cc) in ground arith

    pub moved-Broken :
        (j : ℕ)
        → gap cap (home_of cells k) i ≤ gap cap (home_of cells k) k
        → Broken cells i j
        → Broken (moved cells i k) k k
    moved-Broken j le broken p q hp hq up before = elim (ℕ_discrete q k) [
      | yes e ↦ inr (e, past)
      | no nk ↦ elim (ℕ_discrete q i) [
        | yes e ↦ inl (rw e (ap (λ (c : Cell V). c.used) at-moved_hole ∙ used))
        | no ni ↦ inl (ap (λ (c : Cell V). c.used) (at-moved_other q ni nk) ∙ still ni)
      ]
    ]
      where
        past : gap cap k k < gap cap k p
        past =
            let (np, o, ho, e, from) = origin p hp up in
            let ne : gap cap k k ≢ gap cap k p = λ z. np (sym (gap_inj cap k k p hk hk hp z)) in
            omega (arith, gap_self cap k)

        still : q ≢ i → (at cells q).used ≡ true
        still ni =
            let (np, o, ho, e, from) = origin p hp up in
            let here : gap cap (home_of cells o) q < gap cap (home_of cells o) p =
              rw (ap (λ (c : Cell V). home mask c.key) e) at before in
            elim from [
              | inl (pi, ok) ↦
                  let near : Before cells k q = ground arith in
                  unless (broken k q hk hq used near) (λ h. ni h.0)
              | inr (pi, op) ↦
                  let near : Before cells p q = ground arith in
                  let on : (at cells p).used ≡ true = cc in
                  unless (broken p q hp hq on near) (λ h. ni h.0)
            ]
