-- ===== src/Merge/Balance.antt =====
-- Where the sources of a merge of include/slick/perfmon/collector.hpp stand, and where
-- the samples have gone.
use mathlib.Core.List.{Permᴰ}
use mathlib.Core.List.Permᴰ
use mathlib.Core.Path.{subst}
use slick_perfmon.Prelude.{
  ℕ, suc, ◌+◌, ◌≤◌, ◌≡◌, refl, sym, ap, ◌∙◌, arith, Bool, true, false, ◌==◌, Bool-cases, inl, inr,
  Option, none, some, List, [], ◌∷◌, length, get_or,
}
use slick_perfmon.Event.{Sample}
use slick_perfmon.Merge.{Source, Outside, Pass}
use slick_perfmon.Merge.Heaps.{Each, Each-Permᴰ}
use slick_perfmon.Merge.Heads.{at}
use slick_perfmon.Merge.Flow.{index, Goes, FlowsTo}
use slick_perfmon.Merge.Carrying.{Stands, IsAtRest, Carries}
use slick_perfmon.Merge.Carried.{IsWide}
use slick_perfmon.Merge.Covers.{Has, Has-Permᴰ}

index-inj : (a b : Option ℕ) → index a ≡ index b → a ≡ b
index-inj none none e = refl
index-inj none (some j) e = absurd (omega (arith, e))
index-inj (some i) none e = absurd (omega (arith, e))
index-inj (some i) (some j) e = ap some (omega (arith, e))

-- No two sources of the list are of one ring.
abbrev pub IsDistinct : List Source → Type 0
IsDistinct [] = Unit
IsDistinct (x ∷ xs) = (Has x.ring xs → ⊥) × IsDistinct xs

pub IsDistinct-Permᴰ : {xs ys : List Source} → Permᴰ xs ys → IsDistinct xs → IsDistinct ys
IsDistinct-Permᴰ Permᴰ.nil d = d
IsDistinct-Permᴰ (Permᴰ.cons {l₁} {l₂} e p) (n, d) = (
  subst (λ (x : Source). Has x.ring l₂ → ⊥) e (λ h. n (Has-Permᴰ _ (Permᴰ.symm p) h)),
  IsDistinct-Permᴰ p d,
)
IsDistinct-Permᴰ (Permᴰ.swap {a} {b} {a'} {b'} {l} e f) (n, (n', d)) =
    subst (λ (x : Source). IsDistinct (x ∷ b' ∷ l)) f
      (subst (λ (x : Source). IsDistinct (b ∷ x ∷ l)) e
        (
          (λ h. elim h [ inl same ↦ n (inl (sym same)) | inr later ↦ n' later ]),
          ((λ h. n (inr h)), d),
        ))
IsDistinct-Permᴰ (Permᴰ.trans p q) d = IsDistinct-Permᴰ q (IsDistinct-Permᴰ p d)

-- What the sources of the stage have taken of it.
abbrev pub taken_by : Option ℕ → ℕ → ℕ
taken_by none pos = pos
taken_by (some i) pos = 0

abbrev pub staged_taken : List Source → ℕ
staged_taken [] = 0
staged_taken (x ∷ xs) = taken_by x.ring x.pos + staged_taken xs

module _ {W : Type 0} (o : Outside W) (published : ℕ → ℕ → Sample) (stage : List Sample)
    (from : List ℕ) (lost : ℕ) (w : W) where
  -- The samples have gone to where the sources in the merge stand, to the cursors of the other rings,
  -- and to what the stage's source had taken when it left.
  pub record Balances (xs spent : List Source) (m : Pass W) : Type 0 where
    pub place : List ℕ
    pub flow : FlowsTo o published stage from lost w place m
    pub wide : IsWide place m
    pub stands : Each (Stands o published stage from lost w place) xs
    pub distinct : IsDistinct xs
    pub rings_rest : (j : ℕ) → (Has (some j) xs → ⊥) → get_or place (suc j) 0 ≡ at j m
    pub stage_rests :
        (Has none xs → ⊥)
        → (get_or place 0 0 ≡ staged_taken spent) × (get_or place 0 0 ≤ length stage)
    pub stage_waits : Has none xs → staged_taken spent ≡ 0

  pub Balances-shuffle :
      (xs ys spent : List Source) (m : Pass W)
      → Permᴰ xs ys
      → Balances xs spent m
      → Balances ys spent m
  Balances-shuffle xs ys spent m p k = record {
    place = k.place;
    flow = k.flow;
    wide = k.wide;
    stands = Each-Permᴰ (Stands o published stage from lost w k.place) p k.stands;
    distinct = IsDistinct-Permᴰ p k.distinct;
    rings_rest = λ j apart. k.rings_rest j (λ h. apart (Has-Permᴰ (some j) p h));
    stage_rests = λ apart. k.stage_rests (λ h. apart (Has-Permᴰ none p h));
    stage_waits = λ h. k.stage_waits (Has-Permᴰ none (Permᴰ.symm p) h);
  }

  -- The other sources stand where they stood.
  Each-apart :
      (r : Option ℕ) (q q' : List ℕ) (xs : List Source)
      → Goes (index r) q q'
      → (Has r xs → ⊥)
      → Each (Stands o published stage from lost w q) xs
      → Each (Stands o published stage from lost w q') xs
  Each-apart r q q' [] g apart h = tt
  Each-apart r q q' (x ∷ xs) g apart (h, hs) = (
    record {
      here = g.others (index x.ring) (λ e. apart (inl (sym (index-inj r x.ring e)))) ∙ h.here;
      part = h.part;
      based = h.based;
    },
    Each-apart r q q' xs g (λ later. apart (inr later)) hs,
  )

  -- One source moves on, or leaves.
  module _ (src : Source) (front spent : List Source) (m : Pass W)
      (k : Balances (src ∷ front) spent m) where
    -- A ring without a source in the merge, that is not this source's, is where it was.
    ring_rests :
        (out : Bool × Source × Pass W) (f : Carries o published stage from lost w src m k.place out)
        (j : ℕ)
        → (src.ring ≡ some j → ⊥)
        → (Has (some j) front → ⊥)
        → get_or f.to (suc j) 0 ≡ at j out.2
    ring_rests out f j ne apart =
        f.goes.others (suc j) (λ e. ne (index-inj src.ring (some j) e))
        ∙ k.rings_rest j (λ h. elim h [ inl same ↦ ne same | inr later ↦ apart later ])
        ∙ sym (f.apart j ne)

    pub Balances-on :
        (src' : Source) (m' : Pass W)
        → Carries o published stage from lost w src m k.place (true, src', m')
        → Balances (src' ∷ front) spent m'
    Balances-on src' m' f = record {
      place = f.to;
      flow = f.flow;
      wide = (let a = k.wide in let b = f.goes.size in let c = f.size in omega (arith, a, b, c));
      stands =
          (f.stands refl, Each-apart src.ring k.place f.to front f.goes k.distinct.0 k.stands.1);
      distinct = ((λ h. k.distinct.0 (rw f.ring at h)), k.distinct.1);
      rings_rest = λ j apart.
          ring_rests (true, src', m') f j (λ e. apart (inl (f.ring ∙ e))) (λ h. apart (inr h));
      stage_rests = λ apart.
          (let still = f.goes.others 0 (λ e. apart (inl (f.ring ∙ index-inj src.ring none e))) in
            let (a, b) = k.stage_rests (λ h. elim h [
              | inl same ↦ apart (inl (f.ring ∙ same))
              | inr later ↦ apart (inr later)
            ]) in
            (still ∙ a, omega (arith, still, b)));
      stage_waits = λ h. elim h [
        | inl same ↦ k.stage_waits (inl (sym f.ring ∙ same))
        | inr later ↦ k.stage_waits (inr later)
      ];
    }

    pub Balances-leave :
        (src' : Source) (m' : Pass W)
        → Carries o published stage from lost w src m k.place (false, src', m')
        → Balances front (src' ∷ spent) m'
    Balances-leave src' m' f = go src.ring refl
      where
        rests : IsAtRest o published stage from lost w f.to src'.ring src'.pos m'
        rests = f.rests refl

        made :
            ((j : ℕ) → (Has (some j) front → ⊥) → get_or f.to (suc j) 0 ≡ at j m')
            → ((Has none front → ⊥)
                → (get_or f.to 0 0 ≡ taken_by src'.ring src'.pos + staged_taken spent)
                  × (get_or f.to 0 0 ≤ length stage))
            → (Has none front → taken_by src'.ring src'.pos + staged_taken spent ≡ 0)
            → Balances front (src' ∷ spent) m'
        made a b c = record {
          place = f.to;
          flow = f.flow;
          wide =
              (let a' = k.wide in
                let b' = f.goes.size in let c' = f.size in omega (arith, a', b', c'));
          stands = Each-apart src.ring k.place f.to front f.goes k.distinct.0 k.stands.1;
          distinct = k.distinct.1;
          rings_rest = a;
          stage_rests = b;
          stage_waits = c;
        }

        go : (r : Option ℕ) → src.ring ≡ r → Balances front (src' ∷ spent) m'
        go none e =
            let e' : src'.ring ≡ none = f.ring ∙ e in
            let none_yet = k.stage_waits (inl e) in
            let (here, within) : (get_or f.to 0 0 ≡ src'.pos) × (src'.pos ≤ length stage) =
              rw e' at rests in
            made
              (λ j apart.
                ring_rests (false, src', m') f j
                  (λ z. (let y : none ≡ some j = sym e ∙ z in absurd (cc))) apart)
              (λ apart. (rw e' (omega (arith, here, none_yet)), omega (arith, here, within)))
              (λ h. absurd (k.distinct.0 (rw e h)))
        go (some i) e =
            let e' : src'.ring ≡ some i = f.ring ∙ e in
            let here : get_or f.to (suc i) 0 ≡ at i m' = rw e' at rests in
            made
              (λ j apart. elim (Bool-cases (i == j)) [
                | inl same ↦ let z : i ≡ j = ground (arith, same) in rw z at here
                | inr other ↦
                    ring_rests (false, src', m') f j
                      (λ z.
                        (let y : some i ≡ some j = sym e ∙ z in
                          let y' : i ≡ j = cc in ground (arith, other, y')))
                      apart
              ])
              (λ apart.
                (let still = f.goes.others 0 (λ z.
                    (let y = index-inj src.ring none z in
                      let y' : some i ≡ none = sym e ∙ y in absurd (cc))) in
                  let (before, within) = k.stage_rests (λ h. elim h [
                    | inl same ↦ absurd (let y : some i ≡ none = sym e ∙ same in cc)
                    | inr later ↦ apart later
                  ]) in
                  (rw e' (omega (arith, still, before)), omega (arith, still, within))))
              (λ h. (let z = k.stage_waits (inr h) in rw e' (omega (arith, z))))
