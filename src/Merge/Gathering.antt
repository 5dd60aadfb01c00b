-- ===== src/Merge/Gathering.antt =====
-- The sources that a merge of include/slick/perfmon/collector.hpp gathers.
use slick_perfmon.Prelude.{
  ℕ, zero, suc, ◌+◌, ◌≤◌, ◌≡◌, refl, sym, ◌∙◌, arith, Bool, true, false, ltb, leb, if◌then◌else◌,
  Bool-cases, inl, inr, Option, none, some, List, [], ◌∷◌, ◌++◌, length, get_or,
}
use slick_perfmon.Event.{Sample}
use slick_perfmon.Shared.Stage.{AllFrom, IsSorted}
use slick_perfmon.Merge.{Source, Outside, Pass, next_stamp}
use slick_perfmon.Merge.Looping.{fresh_source, gather, staged_below, stage_source}
use slick_perfmon.Merge.Feeding.{Feeds, nothing, Feeds-trans, IsRings, IsReady, HasCursor, Moves}
use slick_perfmon.Merge.Stamps.{HasCursor-after, next_stamp-Moves}
use slick_perfmon.Merge.Heaps.{key, Each, Each-map, Each-append}
use slick_perfmon.Merge.Turns.{Sits, Sits-map, IsStage, Each-later}

module _ {W : Type 0} (o : Outside W) (published : ℕ → ℕ → Sample) (rings : IsRings o published)
    (watermark : ℕ) where
  -- What the loop over the rings gathers.
  pub record Gathers (m : Pass W) (out : List Source × Pass W) : Type 0 where
    pub size : length out.1.cursors ≡ length m.cursors
    pub sits : Each (Sits published watermark 0 out.1) out.0
    pub fed : Feeds o watermark 0 m.world 0 out.1.world

  -- One more source, if it has a stamp.
  pub gather_one :
      (src0 : Source) (sources : List Source) (m m' : Pass W) (more : Bool) (src : Source)
      → HasCursor src0.ring m
      → Moves o published watermark 0 src0 m (more, src, m')
      → Each (Sits published watermark 0 m) sources
      → Each (Sits published watermark 0 m') (if more then sources ++ (src ∷ []) else sources)
  gather_one src0 sources m m' more src has f each = go more f.ready
    where
      kept : Each (Sits published watermark 0 m') sources
      kept =
          Each-later o published rings watermark 0 0 m m' sources f.size
            (Each-map (Sits published watermark 0 m) (λ x. 0 ≤ key x) sources (λ x h. omega arith)
              each)
            each

      go :
          (b : Bool)
          → (b ≡ true → IsReady watermark src.slots)
          → Each (Sits published watermark 0 m') (if b then sources ++ (src ∷ []) else sources)
      go false ready = kept
      go true ready = Each-append (Sits published watermark 0 m') sources src kept (record {
        cursor =
            HasCursor-after o published rings watermark 0 src0.ring src.ring m m' f.same_ring f.size
              has;
        sound = f.sound;
        ready = ready refl;
        from = omega arith;
      })

  pub gather-Gathers :
      (fuel n i : ℕ) (sources : List Source) (m : Pass W) (out : List Source × Pass W)
      → i + n ≤ length m.cursors
      → Each (Sits published watermark 0 m) sources
      → gather o watermark fuel n i sources m ≡ some out
      → Gathers m out
  unfolding gather
  gather-Gathers fuel zero i sources m out room each e =
      let p : (sources, m) ≡ out = cc in
      rw (sym p) (record { size = refl; sits = each; fed = nothing })
  gather-Gathers fuel (suc n) i sources m out room each e =
      elim (Bool-cases (leb watermark (get_or m.waits i 0))) [
        | inl waits ↦
            gather-Gathers fuel n (i + 1) sources m out (omega (arith, room)) each
              (rw (gather, waits) at e)
        | inr reads ↦
            go reads (next_stamp o watermark fuel fresh m) refl
              λ sources' m'. gather-Gathers fuel n (i + 1) sources' m' out
      ]
    where
      fresh : Source
      fresh = fresh_source i (get_or m.cursors i 0)

      moves :
          (out' : Bool × Source × Pass W)
          → next_stamp o watermark fuel fresh m ≡ some out'
          → Moves o published watermark 0 fresh m out'
      moves out' e' =
          next_stamp-Moves o published rings watermark 0 fuel fresh m out' (omega (arith, room)) tt
            (λ k le is. omega arith) e'

      go :
          leb watermark (get_or m.waits i 0) ≡ false
          → (r : Option (Bool × Source × Pass W)) → next_stamp o watermark fuel fresh m ≡ r
          → ((sources' : List Source) (m' : Pass W)
              → i + 1 + n ≤ length m'.cursors
              → Each (Sits published watermark 0 m') sources'
              → gather o watermark fuel n (i + 1) sources' m' ≡ some out
              → Gathers m' out)
          → Gathers m out
      go reads none er again = absurd (let z = rw (gather, reads, er) at e in cc)
      go reads (some (more, src, m')) er again =
          let f = moves (more, src, m') er in
          let z : gather o watermark fuel n (i + 1)
                (if more then sources ++ (src ∷ []) else sources) m'
              ≡ some out =
            rw (gather, reads, er) at e in
          let n' = f.size in
          let g =
            again (if more then sources ++ (src ∷ []) else sources) m' (omega (arith, room, n'))
              (gather_one fresh sources m m' more src (omega (arith, room)) f each) z in
          record {
            size = g.size ∙ n';
            sits = g.sits;
            fed = Feeds-trans o watermark 0 0 m.world m'.world 0 out.1.world f.fed g.fed;
          }

  AllFrom-staged_below :
      (t : ℕ) (stage : List Sample) → AllFrom t stage → AllFrom t (staged_below watermark stage)
  unfolding staged_below
  AllFrom-staged_below t [] h = tt
  AllFrom-staged_below t (s ∷ stage) (le, h) = elim (Bool-cases (ltb s.timestamp watermark)) [
    | inl below ↦ rw below (le, AllFrom-staged_below t stage h)
    | inr past ↦ rw past tt
  ]

  staged_below-IsSorted :
      (stage : List Sample) → IsSorted stage → IsSorted (staged_below watermark stage)
  unfolding staged_below
  staged_below-IsSorted [] h = tt
  staged_below-IsSorted (s ∷ stage) (le, h) = elim (Bool-cases (ltb s.timestamp watermark)) [
    | inl below ↦
        rw below (AllFrom-staged_below s.timestamp stage le, staged_below-IsSorted stage h)
    | inr past ↦ rw past tt
  ]

  pub length-staged_below :
      (stage : List Sample) → length (staged_below watermark stage) ≤ length stage
  unfolding staged_below
  length-staged_below [] = omega arith
  length-staged_below (s ∷ stage) =
      let n = length-staged_below stage in
      elim (Bool-cases (ltb s.timestamp watermark)) [
        | inl below ↦ rw below (omega (arith, n))
        | inr past ↦ rw past (omega arith)
      ]

  pub stage_source-Sits :
      (stage : List Sample) (m : Pass W)
      → IsStage stage
      → Each (Sits published watermark 0 m) (stage_source (staged_below watermark stage))
  unfolding staged_below
  stage_source-Sits [] m h = tt
  stage_source-Sits (s ∷ stage) m ((is, _), (le, h)) =
      elim (Bool-cases (ltb s.timestamp watermark)) [
        | inl below ↦ rw below (
          record {
            cursor = tt;
            sound = (AllFrom-staged_below s.timestamp stage le, staged_below-IsSorted stage h);
            ready = (is, ground (arith, below));
            from = omega arith;
          },
          tt,
        )
        | inr past ↦ rw past tt
      ]

  -- The sources that are gathered sit in the merge.
  pub gathered-Sits :
      (fuel : ℕ) (stage : List Sample) (m : Pass W) (sources : List Source) (m' : Pass W)
      (any : Bool)
      → o.count ≤ length m.cursors
      → IsStage stage
      → gather o watermark fuel o.count 0 (stage_source (staged_below watermark stage)) m
        ≡ some (sources, m')
      → Each (Sits published watermark 0 (record m' { progressed = any })) sources
  gathered-Sits fuel stage m sources m' any room h e =
      Each-map (Sits published watermark 0 m') (Sits published watermark 0 m1) sources
        (λ x sits. Sits-map o published rings watermark 0 0 m' m1 x (omega arith) refl sits)
        (gather-Gathers fuel o.count 0 (stage_source (staged_below watermark stage)) m (sources, m')
          (omega (arith, room)) (stage_source-Sits stage m h) e).sits
    where
      m1 : Pass W
      m1 = record m' { progressed = any }
