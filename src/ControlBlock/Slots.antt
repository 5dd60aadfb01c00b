-- ===== src/ControlBlock/Slots.antt =====
-- What processes that publish names know of the slots, and what a change of one word keeps.
use native.Mathlib.Decide.{ℕ_discrete}
use slick_perfmon.Prelude.{
  ℕ, ◌+◌, ◌<◌, ◌≡◌, ◌≢◌, ◌⊎◌, refl, sym, ◌∙◌, ap, true, false, ◌==◌, ==_iff, ==_false, inl, inr,
  Option, none, some, List, ◌∷◌, ◌++◌, length, drop, get_or-set_self, get_or-set_other,
}
use slick_perfmon.ControlBlock.{ControlBlock, NameEntry, no_entry}
use slick_perfmon.ControlBlock.Names.{key_of, entry_at, word, write_word, write_name}
use slick_perfmon.ControlBlock.Publishers.{
  Pc, looking, racing, claimed, named, waiting, published, returned, System, put,
}

-- The slot that a process has claimed.
abbrev pub owns : Pc → Option ℕ
owns (claimed i) = some i
owns (named i) = some i
owns (looking i) = none
owns (racing i) = none
owns (waiting i n lost) = none
owns published = none
owns (returned r) = none

-- The slots in use come first, and have different keys.
pub record IsTable (b : ControlBlock) : Type 0 where
  pub width : length b.names ≡ b.max_names
  pub dense : (i j : ℕ) → i < j → word b j ≢ 0 → word b i ≢ 0
  pub unique : (i j : ℕ) → i < j → word b j ≢ 0 → key_of (word b i) ≢ key_of (word b j)

abbrev pub Passed : ControlBlock → ℕ → ℕ → Type 0
Passed b want i = (j : ℕ) → j < i → (word b j ≢ 0) × (key_of (word b j) ≢ want)

-- What a process that stands there knows of the block.
abbrev pub Good : ControlBlock → ℕ → Pc → Type 0
Good b want (looking i) = Passed b want i
Good b want (racing i) = Passed b want i × (i < b.max_names)
Good b want (waiting i n lost) = Passed b want i × (i < b.max_names) × (word b i ≢ 0)
Good b want (claimed i) = (i < b.max_names) × (word b i ≢ 0) × (key_of (word b i) ≡ want)
Good b want (named i) = (i < b.max_names) × (word b i ≢ 0) × (key_of (word b i) ≡ want)
Good b want published = Unit
Good b want (returned r) = Unit

pub record IsSafe (want : ℕ → ℕ) (σ : System) : Type 0 where
  pub table : IsTable σ.block
  pub good : (t : ℕ) → Good σ.block (want t) (σ.pc t)
  pub alone : (t u i : ℕ) → owns (σ.pc t) ≡ some i → owns (σ.pc u) ≡ some i → t ≡ u

pub put_lem :
    (f : ℕ → Pc) (t u : ℕ) (p : Pc)
    → ((u ≡ t) × (put f t p u ≡ p)) ⊎ ((u ≢ t) × (put f t p u ≡ f u))
put_lem f t u p = elim (ℕ_discrete u t) [
  | yes e ↦ inl (e, let s : (u == t) ≡ true = (==_iff u t).1 e in rw s refl)
  | no ne ↦ inr (ne, let s : (u == t) ≡ false = ==_false u t ne in rw s refl)
]

-- The words of a block keep their keys, and no slot is taken or freed.
abbrev pub SameKeys : ControlBlock → ControlBlock → Type 0
SameKeys b b' =
    (length b'.names ≡ length b.names)
    × (b'.max_names ≡ b.max_names)
    × ((j : ℕ)
        → (key_of (word b' j) ≡ key_of (word b j))
          × (word b' j ≢ 0 → word b j ≢ 0)
          × (word b j ≢ 0 → word b' j ≢ 0))

pub SameKeys-IsTable : (b b' : ControlBlock) → SameKeys b b' → IsTable b → IsTable b'
SameKeys-IsTable b b' (l, m, same) v = record {
  width = l ∙ v.width ∙ sym m;
  dense = λ i j lt h. (same i).2 (v.dense i j lt ((same j).1 h));
  unique = λ i j lt h e. v.unique i j lt ((same j).1 h) (sym (same i).0 ∙ e ∙ (same j).0);
}

pub SameKeys-refl : (b : ControlBlock) → SameKeys b b
SameKeys-refl b = (refl, refl, λ j. (refl, (λ h. h), (λ h. h)))

module _ (b b' : ControlBlock) (want : ℕ) (m : b'.max_names ≡ b.max_names) where
  Passed-kept :
      (i : ℕ)
      → ((j : ℕ) → word b j ≢ 0 → (key_of (word b' j) ≡ key_of (word b j)) × (word b' j ≢ 0))
      → Passed b want i
      → Passed b' want i
  Passed-kept i keep g =
      λ j lt. let (a, c) = g j lt in let (x, y) = keep j a in (y, λ e. c (sym x ∙ e))

  -- Everything that is known of the slots in use stays known.
  pub Good-kept :
      (p : Pc)
      → ((j : ℕ) → word b j ≢ 0 → (key_of (word b' j) ≡ key_of (word b j)) × (word b' j ≢ 0))
      → Good b want p
      → Good b' want p
  Good-kept (looking i) keep g = Passed-kept i keep g
  Good-kept (racing i) keep (g, lt) = (Passed-kept i keep g, rw m lt)
  Good-kept (waiting i n lost) keep (g, lt, a) = (Passed-kept i keep g, rw m lt, (keep i a).1)
  Good-kept (claimed i) keep (lt, a, c) = (rw m lt, (keep i a).1, (keep i a).0 ∙ c)
  Good-kept (named i) keep (lt, a, c) = (rw m lt, (keep i a).1, (keep i a).0 ∙ c)
  Good-kept published keep g = tt
  Good-kept (returned r) keep g = tt

pub word-write_word_other :
    (b : ControlBlock) (i j w : ℕ) → i ≢ j → word (write_word b i w) j ≡ word b j
word-write_word_other b i j w ne =
    ap (λ (e : NameEntry). e.key_plus_one)
      (get_or-set_other b.names i j (record (entry_at b i) { key_plus_one = w }) no_entry ne)

pub word-write_word :
    (b : ControlBlock) (i w : ℕ) → i < length b.names → word (write_word b i w) i ≡ w
word-write_word b i w inside =
    ap (λ (e : NameEntry). e.key_plus_one)
      (get_or-set_self b.names i (record (entry_at b i) { key_plus_one = w }) no_entry inside)

pub word-write_name :
    (b : ControlBlock) (i j : ℕ) (nm : List ℕ)
    → i < length b.names
    → word (write_name b i nm) j ≡ word b j
word-write_name b i j nm inside = elim (ℕ_discrete i j) [
  | no ne ↦ ap (λ (e : NameEntry). e.key_plus_one) (get_or-set_other b.names i j _ no_entry ne)
  | yes e ↦ rw (← e) (
      ap (λ (e : NameEntry). e.key_plus_one)
        (get_or-set_self b.names i
          (record (entry_at b i) { name = nm ++ (0 ∷ drop (length nm + 1) (entry_at b i).name) })
          no_entry inside))
]
