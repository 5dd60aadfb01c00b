-- ===== src/Merge/Feeding.antt =====
-- What a merge of include/slick/perfmon/collector.hpp relies on and what it keeps up: the order in
-- which the pairer is fed, the rings, and the sources.
use slick_perfmon.Prelude.{
  ℕ, suc, ◌+◌, ◌-◌, ◌%◌, ◌^◌, ◌≤◌, ◌<◌, ◌≡◌, sym, arith, Bool, true, false, Option, none, some,
  List, [], ◌∷◌, length, get_or,
}
use slick_perfmon.Event.{Sample, is_value_event}
use slick_perfmon.Ring.{no_sample}
use slick_perfmon.Shared.Stage.{AllFrom, IsSorted}
use slick_perfmon.Merge.{Source, Outside, Pass}

abbrev pub IsValue : Sample → Type 0
IsValue s = is_value_event s.event ≡ true

abbrev pub IsStamp : Sample → Type 0
IsStamp s = is_value_event s.event ≡ false

-- From a state of the pairer to a later one: it was fed values, and stamps before the watermark
-- in the order of their times. The last stamp was at `lo`, and now at `hi`.
pub data Feeds {W : Type 0} (o : Outside W) (watermark lo : ℕ) (w : W) : ℕ → W → Type 0 where
  nothing : Feeds o watermark lo w lo w
  a_value :
      {hi : ℕ} {v : W} (s : Sample)
      → Feeds o watermark lo w hi v
      → IsValue s
      → Feeds o watermark lo w hi (o.on_event s v)
  a_stamp :
      {hi : ℕ} {v : W} (s : Sample)
      → Feeds o watermark lo w hi v
      → hi ≤ s.timestamp
      → s.timestamp < watermark
      → Feeds o watermark lo w s.timestamp (o.on_event s v)

pub Feeds-trans :
    {W : Type 0} (o : Outside W) (watermark a b : ℕ) (u v : W) (c : ℕ) (w : W)
    → Feeds o watermark a u b v
    → Feeds o watermark b v c w
    → Feeds o watermark a u c w
Feeds-trans o watermark a b u v c w f nothing = f
Feeds-trans o watermark a b u v c w f (a_value {hi} {v = x} s g is) =
    a_value s (Feeds-trans o watermark a b u v hi x f g) is
Feeds-trans o watermark a b u v c w f (a_stamp {hi} {v = x} s g le lt) =
    a_stamp s (Feeds-trans o watermark a b u v hi x f g) le lt

-- The list stands in the sequence from `p` on.
abbrev pub StandsAt : (ℕ → Sample) → ℕ → List Sample → Type 0
StandsAt published p [] = Unit
StandsAt published p (s ∷ rest) = (published p ≡ s) × StandsAt published (suc p) rest

pub StandsAt-at :
    (f : ℕ → Sample) (p : ℕ) (xs : List Sample)
    → ((j : ℕ) → j < length xs → get_or xs j no_sample ≡ f (p + j))
    → StandsAt f p xs
StandsAt-at f p [] h = tt
StandsAt-at f p (x ∷ xs) h =
    let e : p + 0 ≡ p = omega arith in
    (
      sym (rw e at (h 0 (omega arith))),
      StandsAt-at f (suc p) xs λ j lt.
          (let e' : p + suc j ≡ suc p + j = omega arith in
            rw e' at (h (suc j) (omega (arith, lt)))),
    )

-- What the merge relies on: sample number p that the thread of ring i published is
-- `published i p`, its stamps are in the order of their times, and a read gives samples of the
-- ring from a cursor that is no less than the old one, no more of them than it is asked for. A read
-- below the head, with room, gets on; what it skips is counted as lost; and a head only rises.
pub record IsRings {W : Type 0} (o : Outside W) (published : ℕ → ℕ → Sample) : Type 0 where
  pub ordered :
      (i j k : ℕ)
      → j ≤ k
      → IsStamp (published i j)
      → IsStamp (published i k)
      → (published i j).timestamp ≤ (published i k).timestamp
  pub holds :
      (i t c n l : ℕ) → StandsAt (published i) (o.read i t c n l).cursor (o.read i t c n l).batch
  pub onward : (i t c n l : ℕ) → c ≤ (o.read i t c n l).cursor
  pub bounded : (i t c n l : ℕ) → length (o.read i t c n l).batch ≤ n
  pub no_room : (i t c l : ℕ) → (o.read i t c 0 l).cursor ≡ c
  pub counted :
      (i t c n l : ℕ) → (o.read i t c n l).lost ≡ (l + ((o.read i t c n l).cursor - c)) % 2 ^ 64
  pub progress :
      (i t c n l : ℕ)
      → c < o.head i t
      → 0 < n
      → c < (o.read i t c n l).cursor + length (o.read i t c n l).batch
  pub rising : (i t u : ℕ) → t ≤ u → o.head i t ≤ o.head i u

-- What is left of a chunk is part of the source.
abbrev pub IsPart : (ℕ → ℕ → Sample) → Option ℕ → ℕ → List Sample → Type 0
IsPart published none p slots = IsSorted slots
IsPart published (some i) p slots = StandsAt (published i) p slots

abbrev pub IsSound : (ℕ → ℕ → Sample) → Source → Type 0
IsSound published src = IsPart published src.ring (src.base + src.pos) src.slots

-- No stamp from `p` on is before `lo`.
abbrev pub IsLater : (ℕ → ℕ → Sample) → ℕ → Option ℕ → ℕ → List Sample → Type 0
IsLater published lo none p slots = AllFrom lo slots
IsLater published lo (some i) p slots =
    (k : ℕ) → p ≤ k → IsStamp (published i k) → lo ≤ (published i k).timestamp

abbrev pub IsFrom : (ℕ → ℕ → Sample) → ℕ → Source → Type 0
IsFrom published lo src = IsLater published lo src.ring (src.base + src.pos) src.slots

-- The source stands on a stamp before the watermark.
abbrev pub IsReady : ℕ → List Sample → Type 0
IsReady watermark [] = ⊥
IsReady watermark (s ∷ rest) = IsStamp s × (s.timestamp < watermark)

-- The ring has a cursor.
abbrev pub HasCursor : {W : Type 0} → Option ℕ → Pass W → Type 0
HasCursor none m = Unit
HasCursor (some i) m = i < length m.cursors

-- What `next_stamp` does to a source and a pass.
pub record Moves {W : Type 0} (o : Outside W) (published : ℕ → ℕ → Sample) (watermark lo : ℕ)
    (src : Source) (m : Pass W) (out : Bool × Source × Pass W) : Type 0 where
  pub same_ring : out.1.ring ≡ src.ring
  pub size : length out.2.cursors ≡ length m.cursors
  pub sound : IsSound published out.1
  pub from : IsFrom published lo out.1
  pub ready : out.0 ≡ true → IsReady watermark out.1.slots
  pub fed : Feeds o watermark lo m.world lo out.2.world

pub IsPart-next :
    (published : ℕ → ℕ → Sample) (r : Option ℕ) (p : ℕ) (s : Sample) (rest : List Sample)
    → IsPart published r p (s ∷ rest)
    → IsPart published r (suc p) rest
IsPart-next published none p s rest h = h.1
IsPart-next published (some i) p s rest h = h.1

pub IsLater-next :
    (published : ℕ → ℕ → Sample) (lo : ℕ) (r : Option ℕ) (p : ℕ) (s : Sample) (rest : List Sample)
    → IsLater published lo r p (s ∷ rest)
    → IsLater published lo r (suc p) rest
IsLater-next published lo none p s rest h = h.1
IsLater-next published lo (some i) p s rest h = λ k le. h k (omega (arith, le))
