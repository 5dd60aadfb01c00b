-- ===== src/ControlBlock/Publishers.antt =====
-- Any number of processes in `publish_one` on one block, one access to a slot's word at a time.
use slick_perfmon.Prelude.{
  ℕ, zero, suc, ◌+◌, Bool, true, false, not, ◌&&◌, ltb, ◌==◌, if◌then◌else◌, List, [], ◌∷◌,
}
use slick_perfmon.Prelude.Text.{same_text}
use slick_perfmon.ControlBlock.{ControlBlock}
use slick_perfmon.ControlBlock.Names.{
  is_claimed, key_of, tagged, c_string, entry_at, word, write_word, write_name, bump,
}

-- Where a process stands: at the first load of slot i; in `await_claim` on it with that many loads
-- left before the last one, entered from that load or after a lost exchange; at the exchange; past
-- the exchange; past the name; past the key; or returned.
pub data Pc : Type 0 where
  looking racing claimed named : ℕ → Pc
  waiting : ℕ → ℕ → Bool → Pc
  published : Pc
  returned : Bool → Pc

pub record System : Type 0 where
  pub block : ControlBlock
  pub pc : ℕ → Pc

abbrev pub put : (ℕ → Pc) → ℕ → Pc → ℕ → Pc
put f t p u = if u == t then p else f u

-- The two tests after a slot's word is known, `lost` after a lost exchange.
unfoldable pub decide : ControlBlock → ℕ → List ℕ → ℕ → ℕ → Bool → Pc
decide b want nm i cur lost =
    if key_of cur == want
    then (if is_claimed cur
        then returned false
        else returned (same_text (c_string (entry_at b i).name) nm))
    else if (cur == 0) && not lost
    then racing i
    else looking (i + 1)

-- The wait before them, if the word is a claim on the own key.
unfoldable pub inspect : ControlBlock → ℕ → List ℕ → ℕ → ℕ → Bool → Pc
inspect b want nm i cur lost =
    if is_claimed cur && (key_of cur == want)
    then waiting i 1000 lost
    else decide b want nm i cur lost

unfoldable pub wait_more : ControlBlock → ℕ → List ℕ → ℕ → ℕ → Bool → Pc
wait_more b want nm i zero lost = decide b want nm i (word b i) lost
wait_more b want nm i (suc n) lost =
    if is_claimed (word b i) then waiting i n lost else decide b want nm i (word b i) lost

-- The next access of process t, which publishes the text `text t` for the key `want t` less 1.
unfoldable pub act : (ℕ → ℕ) → (ℕ → List ℕ) → ℕ → System → System
act want text t σ = elim (σ.pc t) [
  | looking i ↦
      if ltb i σ.block.max_names
      then record σ { pc = put σ.pc t (inspect σ.block (want t) (text t) i (word σ.block i) false) }
      else record σ { pc = put σ.pc t (returned false) }
  | waiting i n lost ↦ record σ { pc = put σ.pc t (wait_more σ.block (want t) (text t) i n lost) }
  | racing i ↦
      if word σ.block i == 0
      then record { block = write_word σ.block i (tagged (want t)); pc = put σ.pc t (claimed i) }
      else record σ { pc = put σ.pc t (inspect σ.block (want t) (text t) i (word σ.block i) true) }
  | claimed i ↦ record { block = write_name σ.block i (text t); pc = put σ.pc t (named i) }
  | named i ↦ record { block = write_word σ.block i (want t); pc = put σ.pc t published }
  | published ↦ record { block = bump σ.block; pc = put σ.pc t (returned true) }
  | returned r ↦ σ
]

-- The processes take turns in any order.
unfoldable pub run : (ℕ → ℕ) → (ℕ → List ℕ) → List ℕ → System → System
run want text [] σ = σ
run want text (t ∷ ts) σ = run want text ts (act want text t σ)
