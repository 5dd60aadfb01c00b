-- ===== src/OpenMap/Tests.antt =====
-- Runs of the table, and its theorems at concrete tables.
use slick_perfmon.Prelude.{ℕ, ◌+◌, ◌*◌, ◌^◌, ◌≤◌, ◌<◌, ◌≡◌, refl, ◌≢◌, ltb, arith, Bool, some}
use slick_perfmon.OpenMap.{
  Default, OpenMap, reset, insert, erase, erase_if, clear, find, store, locate, endless, next_pow2,
  smear, home, next, mix64, full, at, probe,
}
use slick_perfmon.OpenMap.Valid.{IsValid, locate-ne-endless, find-Stored}
use slick_perfmon.OpenMap.Reset.{Empties, entries, reset-Empties, clear-Empties}
use slick_perfmon.OpenMap.Insert.{Inserts, insert-Inserts}
use slick_perfmon.OpenMap.Erase.{Erases, erase-Erases}
use slick_perfmon.OpenMap.Store.{Stores, store-Stores}
use slick_perfmon.OpenMap.Sweep.{Sweeps, erase_if-Sweeps}
use slick_perfmon.OpenMap.Pow2.{next_pow2_least}
use slick_perfmon.Prelude.{length}

instance ℕ-Default : Default ℕ
ℕ-Default = record { fresh = 0 }

abbrev table : OpenMap ℕ
table = (insert (insert (reset 3) 7 70).1 9 90).1

started : IsValid (reset {V = ℕ} 3)
started = (reset-Empties 3 (omega arith)).0.valid

table-IsValid : IsValid table
table-IsValid = (insert-Inserts _ 9 90 (insert-Inserts (reset 3) 7 70 started).valid).valid

capacity_test : length (reset {V = ℕ} 3).cells ≡ 8
unfolding reset next_pow2 smear
capacity_test = refl

insert-Inserts_example : Inserts table 11 110 (insert table 11 110)
insert-Inserts_example = insert-Inserts table 11 110 table-IsValid

erase-Erases_example : Erases table 7 (erase table 7)
erase-Erases_example = erase-Erases table 7 table-IsValid

locate-ne-endless_example : locate table 8 ≢ endless
locate-ne-endless_example = locate-ne-endless table table-IsValid 8

reset-Empties_run :
    Empties (entries 3) (reset {V = ℕ} 3) × (entries 3 * 2 ≤ length (reset {V = ℕ} 3).cells)
reset-Empties_run = reset-Empties 3 (omega arith)

clear-Empties_run : Empties table.max_entries (clear table)
clear-Empties_run = clear-Empties table table-IsValid

next_pow2_least_run : (n : ℕ) × (n ≤ 63) × (next_pow2 6 ≡ 2 ^ n) × (6 ≤ 2 ^ n) × (2 ^ n < 2 * 6)
next_pow2_least_run = next_pow2_least 6 (omega arith) (omega arith)

abbrev old : ℕ → ℕ → Bool
old k x = ltb x 80

abbrev tick : ℕ → ℕ → ℕ → ℕ
tick k x s = s + 1

erase_if-Sweeps_example : Sweeps old tick (λ r s. r ≡ s) 0 table (erase_if old tick table 0)
erase_if-Sweeps_example =
    erase_if-Sweeps old tick (λ r s. r ≡ s) (λ r k x s chosen same. omega arith) table 0
      table-IsValid refl

slot_test : find table 7 ≡ some 7
unfolding find locate probe home next mix64 insert full at reset next_pow2 smear ℕ-Default
slot_test = refl

store-Stores_run : Stores table 7 7 71 (store table 7 71)
store-Stores_run =
    store-Stores table table-IsValid 7 7 71 (find-Stored table table-IsValid 7 7 slot_test)
