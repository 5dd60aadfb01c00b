-- ===== src/ControlBlock/Tests.antt =====
-- A block of two names.
use slick_perfmon.Prelude.{
  ℕ, zero, suc, ◌^◌, ◌<◌, ◌≡◌, refl, arith, some, List, [], ◌∷◌, replicate, true,
}
use slick_perfmon.Prelude.Results.{throws}
use slick_perfmon.RingTable
use slick_perfmon.Prelude.Text.{same_text}
use slick_perfmon.ControlBlock.{
  ControlBlock, rings_mismatch, initialise, attach_shared, clear_names, bytes_for, rings_offset,
}
use slick_perfmon.ControlBlock.Names.{
  word, name_key, publish_one, publish_from, publish_names, publish_points, publish_steps,
  publish_step, is_claimed, key_of, c_string, settle, judge, tagged, await_claim,
}
use slick_perfmon.ControlBlock.Publishers.{returned, run, act, decide, inspect, wait_more}
use slick_perfmon.ControlBlock.Slots.{IsTable}
use slick_perfmon.ControlBlock.OneSlot.{start, run-IsTable}
use slick_perfmon.ControlBlock.Opening.{attach_shared-initialise}
use slick_perfmon.ControlBlock.Publishing.{Publishes, publish_one-Publishes}

abbrev raw : ControlBlock
raw = record {
  magic = 0;
  version = 0;
  max_names = 0;
  capacity = 0;
  ring_count = 0;
  ring_capacity = 0;
  tsc_hz_milli = 0;
  invariant_tsc = 0;
  init_state = 0;
  name_generation = 0;
  names = replicate 2 (record { key_plus_one = 7; name = replicate 64 9 });
  rings = RingTable.create 0 0;
}

abbrev block : ControlBlock
block = initialise raw 2 0 0

attach_shared-initialise_example :
    attach_shared (some ((λ t. t), initialise raw 2 4 8)) 2 4 16 ≡ throws rings_mismatch
attach_shared-initialise_example =
    attach_shared-initialise raw 2 4 8 2 4 16 (λ t. t) 2 (omega arith) refl

-- "ab" for the key (7, 3).
abbrev text : List ℕ
text = 97 ∷ 98 ∷ []

block_words : (i : ℕ) → word block i < 2 ^ 64
unfolding initialise clear_names
block_words zero = omega arith
block_words (suc zero) = omega arith
block_words (suc (suc i)) = omega arith

publish_one-Publishes_example :
    Publishes block
      (publish_one block (name_key 7 3) text).0
      7
      3
      text
      (publish_one block (name_key 7 3) text).1
unfolding initialise clear_names
publish_one-Publishes_example =
    publish_one-Publishes block 7 3 (omega arith) (omega arith) text (omega arith) refl block_words

-- Two names fit; the third, and one that is too long, are conflicts.
abbrev texts : ℕ → ℕ → List ℕ
texts p zero = text
texts p (suc zero) = replicate 64 97
texts p (suc (suc s)) = []

publish_names_run : (publish_names (some block) 3 (some texts)).1 ≡ 4
unfolding publish_names publish_points publish_steps publish_step publish_one publish_from settle
    judge tagged is_claimed key_of name_key same_text c_string await_claim initialise clear_names
publish_names_run = refl

bytes_for_run : bytes_for 512 64 65536 ≡ 67154048
unfolding bytes_for rings_offset RingTable.bytes_for
bytes_for_run = refl

-- Two processes publish one key in turns.
abbrev same_key : ℕ → ℕ
same_key t = 5

abbrev texts_of : ℕ → List ℕ
texts_of t = text

abbrev in_turns : List ℕ
in_turns = 0 ∷ 1 ∷ 0 ∷ 1 ∷ 0 ∷ 1 ∷ 0 ∷ 1 ∷ 0 ∷ 1 ∷ []

block_empty : (j : ℕ) → word block j ≡ 0
unfolding initialise clear_names
block_empty zero = refl
block_empty (suc zero) = refl
block_empty (suc (suc j)) = refl

block-IsTable : IsTable block
unfolding initialise clear_names
block-IsTable = record {
  width = refl;
  dense = λ i j lt h. absurd (h (block_empty j));
  unique = λ i j lt h. absurd (h (block_empty j));
}

run-IsTable_example : IsTable (run same_key texts_of in_turns (start block)).block
run-IsTable_example =
    run-IsTable same_key (λ t. omega arith) (λ t. omega arith) texts_of in_turns block block-IsTable

second_returns : (run same_key texts_of in_turns (start block)).pc 1 ≡ returned true
unfolding run act decide inspect wait_more is_claimed key_of tagged c_string same_text initialise
    clear_names
second_returns = refl
