-- ===== src/Merge/Conserved.antt =====
-- The samples that the sources of a merge of include/slick/perfmon/collector.hpp read while they are
-- gathered, and what is erased of the stage.
use mathlib.Core.List.{Permᴰ}
use mathlib.Core.List.Permᴰ
use slick_perfmon.Prelude.{
  ℕ, zero, suc, ◌+◌, ◌≤◌, ◌≡◌, refl, sym, ap, ◌∙◌, arith, Bool, true, false, ltb, leb, Bool-cases,
  inl, inr, Option, none, some, List, [], ◌∷◌, ◌++◌, length, get_or, drop,
}
use slick_perfmon.Event.{Sample}
use slick_perfmon.Shared.{Shared}
use slick_perfmon.Merge.{Source, Outside, Pass, next_stamp}
use slick_perfmon.Merge.Looping.{fresh_source, gather, staged_below, erase_consumed}
use slick_perfmon.Merge.Feeding.{StandsAt, IsRings}
use slick_perfmon.Merge.Order.{last_first}
use slick_perfmon.Merge.Carrying.{Carries}
use slick_perfmon.Merge.Carried.{next_stamp-Carries}
use slick_perfmon.Merge.Covers.{Has-Permᴰ}
use slick_perfmon.Merge.Balance.{
  staged_taken, Balances, Balances-shuffle, Balances-on, Balances-leave,
}
use slick_perfmon.Merge.Conserving.{IsBelow, fresh-Balances, forget-Balances}

drop_nothing : (n : ℕ) → drop {A = Sample} n [] ≡ []
drop_nothing zero = refl
drop_nothing (suc n) = refl

drop-drop : (a b : ℕ) (xs : List Sample) → drop b (drop a xs) ≡ drop (a + b) xs
drop-drop zero b xs = ap (λ n. drop n xs) (omega arith)
drop-drop (suc a) b [] = let n : suc a + b ≡ suc (a + b) = omega arith in rw n (drop_nothing b)
drop-drop (suc a) b (x ∷ xs) =
    let n : suc a + b ≡ suc (a + b) = omega arith in rw n (drop-drop a b xs)

pub staged_below-StandsAt :
    (watermark : ℕ) (f : ℕ → Sample) (p : ℕ) (stage : List Sample)
    → StandsAt f p stage
    → StandsAt f p (staged_below watermark stage)
unfolding staged_below
staged_below-StandsAt watermark f p [] h = tt
staged_below-StandsAt watermark f p (s ∷ stage) (e, h) =
    elim (Bool-cases (ltb s.timestamp watermark)) [
      | inl below ↦ rw below (e, staged_below-StandsAt watermark f (suc p) stage h)
      | inr past ↦ rw past tt
    ]

-- What the last loop leaves of the stage.
pub erase_consumed-stage :
    {W : Type 0} (spent : List Source) (sh : Shared W) (m : Pass W)
    → (erase_consumed spent sh m).0.stage ≡ drop (staged_taken spent) sh.stage
unfolding erase_consumed
erase_consumed-stage [] sh m = refl
erase_consumed-stage {W} (src ∷ spent) sh m = go src.ring refl (erase_consumed-stage spent)
  where
    go :
        (r : Option ℕ)
        → src.ring ≡ r
        → ((sh' : Shared W) (m' : Pass W)
            → (erase_consumed spent sh' m').0.stage ≡ drop (staged_taken spent) sh'.stage)
        → (erase_consumed (src ∷ spent) sh m).0.stage ≡ drop (staged_taken (src ∷ spent)) sh.stage
    go none e rest =
        rw (erase_consumed, e)
          (rest (record sh { stage = drop src.pos sh.stage }) (record m { progressed = true })
            ∙ drop-drop src.pos (staged_taken spent) sh.stage)
    go (some i) e rest =
        let n : 0 + staged_taken spent ≡ staged_taken spent = omega arith in
        rw (erase_consumed, e, n) (rest sh m)

module _ {W : Type 0} (o : Outside W) (published : ℕ → ℕ → Sample) (rings : IsRings o published)
    (watermark : ℕ) where
  module _ (stage : List Sample) (from : List ℕ) (lost : ℕ) (w : W) where
    grown-IsBelow :
        (i : ℕ) (src : Source) (sources : List Source)
        → src.ring ≡ some i
        → IsBelow o published stage from lost w rings watermark i sources
        → IsBelow o published stage from lost w rings watermark (i + 1) (src ∷ sources)
    grown-IsBelow i src sources r below j le h = elim h [
      | inl same ↦
          let y : some i ≡ some j = sym r ∙ same in let y' : i ≡ j = cc in omega (arith, le, y')
      | inr later ↦ below j (omega (arith, le)) later
    ]

    pub gather-Balances :
        (fuel n i : ℕ) (sources : List Source) (m : Pass W) (out : List Source × Pass W)
        → i + n ≤ length m.cursors
        → IsBelow o published stage from lost w rings watermark i sources
        → Balances o published stage from lost w sources [] m
        → gather o watermark fuel n i sources m ≡ some out
        → Balances o published stage from lost w out.0 [] out.1
    unfolding gather
    gather-Balances fuel zero i sources m out room below k e =
        let p : (sources, m) ≡ out = cc in rw (sym p) k
    gather-Balances fuel (suc n) i sources m out room below k e =
        elim (Bool-cases (leb watermark (get_or m.waits i 0))) [
          | inl waits ↦
              gather-Balances fuel n (i + 1) sources m out (omega (arith, room))
                (λ j le. below j (omega (arith, le))) k (rw (gather, waits) at e)
          | inr reads ↦
              go reads (next_stamp o watermark fuel fresh m) refl
                λ sources' m'. gather-Balances fuel n (i + 1) sources' m' out
        ]
      where
        fresh : Source
        fresh = fresh_source i (get_or m.cursors i 0)

        begun : Balances o published stage from lost w (fresh ∷ sources) [] m
        begun = fresh-Balances o published stage from lost w rings watermark i sources m below k

        carries :
            (more : Bool) (src : Source) (m' : Pass W)
            → next_stamp o watermark fuel fresh m ≡ some (more, src, m')
            → Carries o published stage from lost w fresh m begun.place (more, src, m')
        carries more src m' er =
            next_stamp-Carries o published stage from lost w rings watermark fuel fresh m
              begun.place (more, src, m') (omega (arith, room)) begun.wide begun.flow begun.stands.0
              er

        go :
            leb watermark (get_or m.waits i 0) ≡ false
            → (r : Option (Bool × Source × Pass W)) → next_stamp o watermark fuel fresh m ≡ r
            → ((sources' : List Source) (m' : Pass W)
                → i + 1 + n ≤ length m'.cursors
                → IsBelow o published stage from lost w rings watermark (i + 1) sources'
                → Balances o published stage from lost w sources' [] m'
                → gather o watermark fuel n (i + 1) sources' m' ≡ some out
                → Balances o published stage from lost w out.0 [] out.1)
            → Balances o published stage from lost w out.0 [] out.1
        go reads none er again = absurd (let z = rw (gather, reads, er) at e in cc)
        go reads (some (true, src, m')) er again =
            let f = carries true src m' er in
            let size = f.size in
            let same : Permᴰ (src ∷ sources) (sources ++ (src ∷ [])) = last_first sources src in
            again (sources ++ (src ∷ [])) m' (omega (arith, room, size))
              (λ j le h.
                grown-IsBelow i src sources f.ring below j le
                  (Has-Permᴰ (some j) (Permᴰ.symm same) h))
              (Balances-shuffle o published stage from lost w (src ∷ sources)
                (sources ++ (src ∷ [])) [] m' same
                (Balances-on o published stage from lost w fresh sources [] m begun src m' f))
              (rw (gather, reads, er) at e)
        go reads (some (false, src, m')) er again =
            let f = carries false src m' er in
            let size = f.size in
            again sources m' (omega (arith, room, size)) (λ j le. below j (omega (arith, le)))
              (forget-Balances o published stage from lost w rings watermark i sources src m' f.ring
                (Balances-leave o published stage from lost w fresh sources [] m begun src m' f))
              (rw (gather, reads, er) at e)
