-- ===== src/OpenMap/Every.antt =====
-- A property of all values in the slots of a table, used or not.
use slick_perfmon.Prelude.{
  ℕ, zero, suc, ◌*◌, ◌≡◌, ◌==◌, if◌then◌else◌, replicate, refl, true, Bool-cases, inl, inr, List,
  [], ◌∷◌, get_or, set,
}
use slick_perfmon.OpenMap.{
  Cell, Default, OpenMap, Probe, hit, hole, endless, blank, at, load, insert, locate, full, clear,
  unused_all, reset, next_pow2,
}

module _ {ℓ κ} {V : Type ℓ} ⦃d : Default V⦄ (P : V → Type κ) where
  pub Every : OpenMap V → Type κ
  Every m = (i : ℕ) → P (load m i)

  set-keeps :
      (cs : List (Cell V)) (j : ℕ) (c : Cell V)
      → ((i : ℕ) → P (at cs i).val)
      → P c.val
      → (i : ℕ) → P (at (set cs j c) i).val
  unfolding at
  set-keeps [] j c h p i = h i
  set-keeps (x ∷ xs) zero c h p zero = p
  set-keeps (x ∷ xs) zero c h p (suc i) = h (suc i)
  set-keeps (x ∷ xs) (suc j) c h p zero = h 0
  set-keeps (x ∷ xs) (suc j) c h p (suc i) = set-keeps xs j c (λ k. h (suc k)) p i

  pub insert-Every : (m : OpenMap V) (k : ℕ) (v : V) → Every m → P v → Every (insert m k v).1
  unfolding Every insert load
  insert-Every m k v h p = go (locate m k) refl
    where
      go : (r : Probe) → locate m k ≡ r → (i : ℕ) → P (load (insert m k v).1 i)
      go (hit j) e = rw (insert, e) h
      go endless e = rw (insert, e) h
      go (hole j) e = elim (Bool-cases (full m)) [
        | inl f ↦ rw (insert, e, f) h
        | inr f ↦
            rw (insert, e, f) (set-keeps m.cells j (record { used = true; key = k; val = v }) h p)
      ]

  unused_all-keeps :
      (cs : List (Cell V)) → ((i : ℕ) → P (at cs i).val) → (i : ℕ) → P (at (unused_all cs) i).val
  unfolding at unused_all
  unused_all-keeps [] h i = h i
  unused_all-keeps (x ∷ xs) h zero = h 0
  unused_all-keeps (x ∷ xs) h (suc i) = unused_all-keeps xs (λ k. h (suc k)) i

  pub clear-Every : (m : OpenMap V) → Every m → Every (clear m)
  unfolding Every clear load
  clear-Every m h = unused_all-keeps m.cells h

  pub load-Every : (m : OpenMap V) (i : ℕ) → Every m → P (load m i)
  unfolding Every
  load-Every m i h = h i

  pub reset-Every : (n : ℕ) → P d.fresh → Every (reset n)
  unfolding Every reset load at
  reset-Every n p i = go (next_pow2 ((if n == 0 then 1 else n) * 2)) i
    where
      go : (cap i : ℕ) → P (get_or (replicate cap blank) i blank).val
      go zero i = p
      go (suc cap) zero = p
      go (suc cap) (suc i) = go cap i
