-- ===== src/ControlBlock/Publishing.antt =====
-- What `publish_one` does to the table of names, and what `lookup` finds afterwards.
use native.Mathlib.Nat.{mod-eq_of_lt}
use native.Mathlib.Decide.{ℕ_discrete, dec_lt}
use slick_perfmon.Prelude.{
  ℕ, ◌+◌, ◌*◌, ◌%◌, ◌^◌, ◌<◌, ◌≡◌, ◌≢◌, ◌⊎◌, refl, ap, sym, ◌∙◌, arith, Bool, true, false, inl, inr,
  some, List, ◌∷◌, ◌++◌, length, drop, get_or, set, length-set, get_or-set_other, get_or-set_self,
}
use slick_perfmon.Prelude.Text.{same_text-true}
use slick_perfmon.ControlBlock.{ControlBlock, NameEntry, no_entry}
use slick_perfmon.ControlBlock.Names.{
  key_of, name_key, tagged, c_string, entry_at, word, publish_from, publish_one, lookup,
}
use slick_perfmon.ControlBlock.Words.{key_of_mod, name_key_sum, Plain, c_string-append}
use slick_perfmon.ControlBlock.Searching.{
  Passed, written, Ends, held, blocked, added, full, publish_from-Ends, lookup_from-held,
  lookup_from-eq,
}

-- What publishing a name for a key promises of the block before and after, and of its result.
pub record Publishes (b b' : ControlBlock) (p step : ℕ) (nm : List ℕ) (agreed : Bool) : Type 0 where
  pub named : agreed ≡ true → lookup (some b') p step ≡ nm
  pub refused : agreed ≡ false → b' ≡ b
  pub others :
      (q s : ℕ)
      → q < 2 ^ 32
      → s < 2 ^ 8
      → (q * 256 + s ≢ p * 256 + step)
      → lookup (some b') q s ≡ lookup (some b) q s
  pub announced : (b' ≡ b) ⊎ (b'.name_generation ≡ (b.name_generation + 1) % 2 ^ 64)
  pub room :
      (k : ℕ)
      → k < b.max_names
      → word b k ≡ 0
      → ((j : ℕ) → j < k → key_of (word b j) ≢ name_key p step + 1)
      → agreed ≡ true

module _ (b : ControlBlock) (p step : ℕ) (hp : p < 2 ^ 32) (hs : step < 2 ^ 8) (nm : List ℕ)
    (plain : Plain nm) (width : length b.names ≡ b.max_names)
    (fits : (i : ℕ) → word b i < 2 ^ 64) where
  abbrev want : ℕ
  want = name_key p step + 1

  want_pos : 0 < want
  want_pos = omega arith

  want_small : want < 2 ^ 63
  want_small = omega (arith, name_key_sum p step hp hs)

  abbrev after : ℕ → ControlBlock
  after k = written b want k nm

  entry_after :
      (k : ℕ)
      → k < b.max_names
      → entry_at (after k) k ≡ record {
        key_plus_one = want;
        name = nm ++ (0 ∷ drop (length nm + 1) (entry_at b k).name);
      }
  entry_after k below =
      let old = entry_at b k in
      let x : NameEntry = record old { key_plus_one = tagged want } in
      let y : NameEntry = record x { name = nm ++ (0 ∷ drop (length nm + 1) old.name) } in
      let l1 = length-set b.names k x in
      let read = get_or-set_self b.names k x no_entry (omega (arith, width)) in
      let second : (z : NameEntry)
          → z ≡ x
          → get_or
              (set (set b.names k x) k
                (record z { name = nm ++ (0 ∷ drop (length nm + 1) z.name) }))
              k no_entry
            ≡ y =
        λ z e. rw e (get_or-set_self (set b.names k x) k y no_entry (omega (arith, width, l1))) in
      get_or-set_self _ k _ no_entry (omega (arith, width, l1, length-set (set b.names k x) k _))
      ∙ ap (λ (z : NameEntry). record z { key_plus_one = want }) (second _ read)

  entry_other : (k j : ℕ) → k ≢ j → entry_at (after k) j ≡ entry_at b j
  entry_other k j ne =
      get_or-set_other _ k j _ no_entry ne
      ∙ get_or-set_other _ k j _ no_entry ne
      ∙ get_or-set_other b.names k j _ no_entry ne

  lookup_held :
      (k : ℕ)
      → k < b.max_names
      → Passed b want 0 k
      → word b k ≡ want
      → lookup (some b) p step ≡ c_string (entry_at b k).name
  unfolding lookup
  lookup_held k below passed w =
      lookup_from-held b want want_pos want_small fits b.max_names 0 k (omega arith) (omega arith)
        (λ j a c. (passed j a c).1) w

  lookup_added : (k : ℕ) → k < b.max_names → Passed b want 0 k → lookup (some (after k)) p step ≡ nm
  unfolding lookup
  lookup_added k below passed =
      let e = entry_after k below in
      let text : c_string (entry_at (after k) k).name ≡ nm = rw e (c_string-append nm _ plain) in
      lookup_from-held (after k) want want_pos want_small fits_after b.max_names 0 k (omega arith)
        (omega arith)
        (λ j a c h. (passed j a c).1 (
          ap (λ (x : NameEntry). x.key_plus_one)
            (sym (entry_other k j (λ z. absurd (omega (arith, z, c)))))
          ∙ h))
        (ap (λ (x : NameEntry). x.key_plus_one) e)
      ∙ text
    where
      fits_after : (i : ℕ) → word (after k) i < 2 ^ 64
      fits_after i = elim (ℕ_discrete k i) [
        | yes e ↦
            let w = ap (λ (x : NameEntry). x.key_plus_one) (entry_after k below) in
            rw (← e, w) (omega (arith, want_small))
        | no ne ↦ rw (word, entry_other k i ne) (fits i)
      ]

  other_key :
      (q s : ℕ) → q < 2 ^ 32 → s < 2 ^ 8 → q * 256 + s ≢ p * 256 + step → name_key q s + 1 ≢ want
  other_key q s hq hs' ne h =
      ne (omega (arith, h, name_key_sum p step hp hs, name_key_sum q s hq hs'))

  others_added :
      (k q s : ℕ)
      → k < b.max_names
      → word b k ≡ 0
      → q < 2 ^ 32
      → s < 2 ^ 8
      → q * 256 + s ≢ p * 256 + step
      → lookup (some (after k)) q s ≡ lookup (some b) q s
  unfolding lookup
  others_added k q s below empty hq hs' ne =
      lookup_from-eq b (after k) (name_key q s + 1)
        (λ j. elim (ℕ_discrete k j) [
          | no apart ↦ inl (entry_other k j apart)
          | yes e ↦ inr (
              rw (← e) (
                (λ z. absurd (omega (arith, z, empty))),
                (λ z.
                    other_key q s hq hs' ne
                      (sym z ∙ ap (λ (x : NameEntry). x.key_plus_one) (entry_after k below))),
              ))
        ])
        b.max_names 0

  zero-ne : key_of 0 ≢ want
  zero-ne h = absurd (omega (arith, h, key_of_mod 0))

  no_room :
      (k j : ℕ)
      → Passed b want 0 k
      → key_of (word b k) ≡ want
      → word b j ≡ 0
      → ((i : ℕ) → i < j → key_of (word b i) ≢ want)
      → ⊥
  no_room k j passed mine empty absent = elim (dec_lt k j) [
    | yes before ↦ absent k before mine
    | no late ↦ elim (ℕ_discrete k j) [
      | yes e ↦ zero-ne (ap key_of (sym empty ∙ ap (word b) (sym e)) ∙ mine)
      | no ne ↦ (passed j (omega arith) (omega arith)).0 empty
    ]
  ]

  -- Publishing a plain text for a key of 40 bits, in a table of max_names entries whose words have 64
  -- bits, where no other process writes meanwhile: if it reports success, the key looks up as the
  -- text; if it does not, the block is as it was; every other key looks up as before; a block that
  -- has changed has the next generation; and it succeeds if a slot is free before which no slot has
  -- the key.
  pub publish_one-Publishes :
      Publishes b
        (publish_one b (name_key p step) nm).0
        p
        step
        nm
        (publish_one b (name_key p step) nm).1
  unfolding publish_one
  publish_one-Publishes =
      go (publish_from b.max_names b 0 want nm)
        (publish_from-Ends b want want_pos want_small fits nm b.max_names 0)
    where
      e0 : 0 + b.max_names ≡ b.max_names
      e0 = omega arith

      go :
          (r : ControlBlock × Bool)
          → Ends b want nm 0 (0 + b.max_names) r
          → Publishes b r.0 p step nm r.1
      go r (held k from below passed w e) = rw e (record {
        named = λ same. lookup_held k (omega (arith, below)) passed w ∙ same_text-true _ nm same;
        refused = λ h. refl;
        others = λ q s hq hs' ne. refl;
        announced = inl refl;
        room = λ j inside empty absent. absurd (
            no_room k j passed (ap key_of w ∙ key_of_mod want ∙ mod-eq_of_lt want_small) empty
              absent);
      })
      go r (blocked k from below passed w e) = rw e (record {
        named = λ h. absurd (cc);
        refused = λ h. refl;
        others = λ q s hq hs' ne. refl;
        announced = inl refl;
        room = λ j inside empty absent. absurd (no_room k j passed w empty absent);
      })
      go r (added k from below passed empty e) = rw e (record {
        named = λ h. lookup_added k (omega (arith, below)) passed;
        refused = λ h. absurd (cc);
        others = λ q s hq hs' ne. others_added k q s (omega (arith, below)) empty hq hs' ne;
        announced = inr refl;
        room = λ j inside empty' absent. refl;
      })
      go r (full passed e) = rw e (record {
        named = λ h. absurd (cc);
        refused = λ h. refl;
        others = λ q s hq hs' ne. refl;
        announced = inl refl;
        room = λ j inside empty absent.
            absurd ((passed j (omega arith) (omega (arith, inside))).0 empty);
      })
