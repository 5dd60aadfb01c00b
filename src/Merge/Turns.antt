-- ===== src/Merge/Turns.antt =====
-- One turn of a merge of include/slick/perfmon/collector.hpp: a source gives a stamp, and moves on.
use slick_perfmon.Prelude.{
  ℕ, suc, ◌+◌, ◌≤◌, ◌≡◌, refl, arith, Bool, true, Option, none, some, List, [], ◌∷◌, length, get_or,
}
use slick_perfmon.Event.{Sample}
use slick_perfmon.Ring.{no_sample}
use slick_perfmon.Shared.{Shared}
use slick_perfmon.Shared.Stage.{IsSorted}
use slick_perfmon.Merge.{Source, Outside, Pass, source_head, consume, next_stamp}
use slick_perfmon.Merge.Feeding.{
  IsStamp, Feeds, nothing, a_stamp, Feeds-trans, IsRings, IsSound, IsFrom, IsReady, HasCursor,
  IsPart, IsLater, IsPart-next,
}
use slick_perfmon.Merge.Stamps.{HasCursor-after, next_stamp-Moves}
use slick_perfmon.Merge.Heaps.{key, Each}

-- A source in the merge: on a stamp before the watermark, no earlier than `lo`.
pub record Sits {W : Type 0} (published : ℕ → ℕ → Sample) (watermark lo : ℕ) (m : Pass W)
    (src : Source) : Type 0 where
  pub cursor : HasCursor src.ring m
  pub sound : IsSound published src
  pub ready : IsReady watermark src.slots
  pub from : lo ≤ key src

abbrev pub OnlyStamps : List Sample → Type 0
OnlyStamps [] = Unit
OnlyStamps (s ∷ stage) = IsStamp s × OnlyStamps stage

-- The stage holds stamps in the order of their times.
abbrev pub IsStage : List Sample → Type 0
IsStage stage = OnlyStamps stage × IsSorted stage

-- Some stamps later.
abbrev pub FeedsOn : {W : Type 0} → Outside W → ℕ → ℕ → Pass W → Pass W → Type 0
FeedsOn o watermark lo m m' = (hi : ℕ) × Feeds o watermark lo m.world hi m'.world

-- What a merge does: it feeds the pairer in order, and leaves a stage.
pub record Merges {W : Type 0} (o : Outside W) (watermark : ℕ) (m : Pass W)
    (out : Shared W × Pass W) : Type 0 where
  pub fed : FeedsOn o watermark 0 m out.1
  pub stage : IsStage out.0.stage

module _ {W : Type 0} (o : Outside W) (published : ℕ → ℕ → Sample) (rings : IsRings o published)
    (watermark : ℕ) where
  -- The stamps after the first are no earlier.
  rest-IsLater :
      (r : Option ℕ) (p : ℕ) (s : Sample) (rest : List Sample)
      → IsStamp s
      → IsPart published r p (s ∷ rest)
      → IsLater published s.timestamp r (suc p) rest
  rest-IsLater none p s rest is h = h.0
  rest-IsLater (some i) p s rest is (e, h) =
      λ k le is'. rw e at (rings.ordered i p k (omega (arith, le)) (rw e is) is')

  pub Sits-map :
      (lo lo' : ℕ) (m m' : Pass W) (src : Source)
      → lo' ≤ key src
      → length m'.cursors ≡ length m.cursors
      → Sits published watermark lo m src
      → Sits published watermark lo' m' src
  Sits-map lo lo' m m' src le n h = record {
    cursor = HasCursor-after o published rings watermark lo src.ring src.ring m m' refl n h.cursor;
    sound = h.sound;
    ready = h.ready;
    from = le;
  }

  -- What one turn of a merge does with the source it takes.
  pub record Turns (lo : ℕ) (src : Source) (m : Pass W) (out : Bool × Source × Pass W)
      : Type 0 where
    pub size : length out.2.cursors ≡ length m.cursors
    pub same_ring : out.1.ring ≡ (consume o src m).0.ring
    pub cursor : HasCursor (consume o src m).0.ring (consume o src m).1
    pub sound : IsSound published (consume o src m).0
    pub from : IsFrom published (key src) (consume o src m).0
    pub fed : Feeds o watermark lo m.world (key src) out.2.world
    pub next : out.0 ≡ true → Sits published watermark (key src) out.2 out.1

  -- A source that stands on a stamp, and has none before `lo`.
  pub ready_from :
      (lo : ℕ) (r : Option ℕ) (p : ℕ) (slots : List Sample)
      → IsReady watermark slots
      → IsPart published r p slots
      → IsLater published lo r p slots
      → lo ≤ (get_or slots 0 no_sample).timestamp
  ready_from lo r p [] no_stamp part from = absurd no_stamp
  ready_from lo none p (s ∷ rest) ready part from = from.0
  ready_from lo (some i) p (s ∷ rest) (is, lt) (e, part) from =
      rw e at (from p (omega arith) (rw e is))

  pub turn :
      (fuel lo : ℕ) (src : Source) (m : Pass W) (out : Bool × Source × Pass W)
      → Sits published watermark lo m src
      → next_stamp o watermark fuel (consume o src m).0 (consume o src m).1 ≡ some out
      → Turns lo src m out
  unfolding consume
  turn fuel lo src m out h e = go src.slots refl
    where
      go : (slots : List Sample) → src.slots ≡ slots → Turns lo src m out
      go [] es = absurd (rw es at h.ready)
      go (s ∷ rest) es =
          let n : src.base + (src.pos + 1) ≡ suc (src.base + src.pos) = omega arith in
          let (is, lt) : IsReady watermark (s ∷ rest) = rw es at h.ready in
          let part : IsPart published src.ring (src.base + src.pos) (s ∷ rest) = rw es at h.sound in
          let (src1, m1) = consume o src m in
          let sound1 : IsSound published src1 =
            rw (es, n) (IsPart-next published src.ring (src.base + src.pos) s rest part) in
          let from1 : IsFrom published (key src) src1 =
            rw (es, n) (rest-IsLater src.ring (src.base + src.pos) s rest is part) in
          let f =
            next_stamp-Moves o published rings watermark (key src) fuel src1 m1 out
              (HasCursor-after o published rings watermark lo src.ring src.ring m m1 refl refl
                h.cursor)
              sound1 from1 e in
          let fed : Feeds o watermark lo m.world (key src) (o.on_event (source_head src) m.world) =
            a_stamp (source_head src) nothing h.from (rw es lt) in
          record {
            size = f.size;
            same_ring = f.same_ring;
            cursor =
                HasCursor-after o published rings watermark lo src.ring src1.ring m m1 refl refl
                  h.cursor;
            sound = sound1;
            from = from1;
            fed =
                Feeds-trans o watermark lo (key src) m.world m1.world (key src) out.2.world fed
                  f.fed;
            next = λ more. record {
              cursor =
                  HasCursor-after o published rings watermark lo src.ring out.1.ring m out.2
                    f.same_ring f.size h.cursor;
              sound = f.sound;
              ready = f.ready more;
              from =
                  ready_from (key src) out.1.ring (out.1.base + out.1.pos) out.1.slots
                    (f.ready more) f.sound f.from;
            };
          }

  pub Each-later :
      (lo lo' : ℕ) (m m' : Pass W) (xs : List Source)
      → length m'.cursors ≡ length m.cursors
      → Each (λ x. lo' ≤ key x) xs
      → Each (Sits published watermark lo m) xs
      → Each (Sits published watermark lo' m') xs
  Each-later lo lo' m m' [] n le h = tt
  Each-later lo lo' m m' (x ∷ xs) n (le, les) (h, hs) =
      (Sits-map lo lo' m m' x le n h, Each-later lo lo' m m' xs n les hs)
