-- ===== src/Merge/Looping.antt =====
-- The loops of a merge: `drain_once`, `merge_pass`, `source_head` and `prefer_clean_tie` of
-- include/slick/perfmon/collector.hpp. The heap holds the sources themselves, each of which the code
-- names by its index, once.
use slick_perfmon.Prelude.{
  ℕ, zero, suc, ◌+◌, ◌-◌, Bool, true, false, not, ◌&&◌, ◌||◌, ltb, leb, ◌==◌, if◌then◌else◌, Option,
  none, some, List, [], ◌∷◌, ◌++◌, get_or, drop,
}
use slick_perfmon.Event.{Sample}
use slick_perfmon.Shared.{Queue, Shared, read_shared}
use slick_perfmon.Merge.{Source, Outside, Pass, source_head, later, consume, next_stamp}

-- The scan of `prefer_clean_tie`: `a` is swapped with the first source of the heap whose stamp has
-- its time and pairs cleanly.
unfoldable pub swap_clean :
    {W : Type 0} → Outside W → W → Source → List Source → List Source × Source
swap_clean o w a [] = ([], a)
swap_clean o w a (b ∷ heap) =
    let (heap', a') = swap_clean o w a heap in
    if ((source_head b).timestamp == (source_head a).timestamp) && o.pairs_cleanly (source_head b) w
    then (a ∷ heap, b)
    else (b ∷ heap', a')

-- `prefer_clean_tie`: the heap before its last place, and its last place.
unfoldable pub prefer_clean_tie :
    {W : Type 0} → Outside W → W → List Source → Source → List Source × Source
prefer_clean_tie o w [] a = ([], a)
prefer_clean_tie o w (root ∷ heap) a =
    if not ((source_head root).timestamp == (source_head a).timestamp)
      || o.pairs_cleanly (source_head a) w
    then (root ∷ heap, a)
    else swap_clean o w a (root ∷ heap)

-- `heap_.back()`, and what comes before it.
abbrev pub back : List Source → Option (List Source × Source)
back [] = none
back (a ∷ []) = some ([], a)
back (a ∷ b ∷ heap) = elim (back (b ∷ heap)) [
  | none ↦ none
  | some (front, last) ↦ some (a ∷ front, last)
]

-- The loop of a pass with one source.
unfoldable pub merge_one :
    {W : Type 0} → Outside W → ℕ → ℕ → Source → Pass W → Option (Source × Pass W)
merge_one o watermark zero src m = none
merge_one o watermark (suc fuel) src m =
    let (src', m') = consume o src m in
    elim (next_stamp o watermark fuel src' m') [
      | none ↦ none
      | some (more, src'', m'') ↦ elim more [
        | true ↦ merge_one o watermark fuel src'' m''
        | false ↦ some (src'', m'')
      ]
    ]

-- The loop over the heap; the sources that have left it are in `spent`.
unfoldable pub merge_heap :
    {W : Type 0}
    → Outside W
    → ℕ
    → ℕ
    → List Source
    → List Source
    → Pass W
    → Option (List Source × Pass W)
merge_heap o watermark zero heap spent m = none
merge_heap o watermark (suc fuel) [] spent m = some (spent, m)
merge_heap o watermark (suc fuel) (x ∷ heap) spent m = elim (back (o.pop_heap later (x ∷ heap))) [
  | none ↦ none
  | some (front, least) ↦
      let (front', a) = prefer_clean_tie o m.world front least in
      let (src, m') = consume o a m in
      elim (next_stamp o watermark fuel src m') [
        | none ↦ none
        | some (more, src', m'') ↦ elim more [
          | true ↦ merge_heap o watermark fuel (o.push_heap later (front' ++ (src' ∷ []))) spent m''
          | false ↦ merge_heap o watermark fuel front' (src' ∷ spent) m''
        ]
      ]
]

-- A source that has read nothing yet.
abbrev pub fresh_source : ℕ → ℕ → Source
fresh_source i cursor = record { ring = some i; slots = []; pos = 0; base = cursor; stop = none }

-- The loop over the rings, with the rounds left and the ring; it adds to the sources.
unfoldable pub gather :
    {W : Type 0} → Outside W → ℕ → ℕ → ℕ → ℕ → List Source → Pass W → Option (List Source × Pass W)
gather o watermark fuel zero i sources m = some (sources, m)
gather o watermark fuel (suc n) i sources m = elim (leb watermark (get_or m.waits i 0)) [
  | true ↦ gather o watermark fuel n (i + 1) sources m
  | false ↦ elim (next_stamp o watermark fuel (fresh_source i (get_or m.cursors i 0)) m) [
    | none ↦ none
    | some (more, src, m') ↦
        gather o watermark fuel n (i + 1) (if more then sources ++ (src ∷ []) else sources) m'
  ]
]

-- The staged stamps before `lower_bound`.
unfoldable pub staged_below : ℕ → List Sample → List Sample
staged_below watermark [] = []
staged_below watermark (s ∷ stage) =
    let rest = staged_below watermark stage in if ltb s.timestamp watermark then s ∷ rest else []

abbrev pub stage_source : List Sample → List Source
stage_source [] = []
stage_source (s ∷ below) =
    record { ring = none; slots = s ∷ below; pos = 0; base = 0; stop = none } ∷ []

-- The merge of the sources that were gathered.
unfoldable pub merge_sources :
    {W : Type 0} → Outside W → ℕ → ℕ → List Source → Pass W → Option (List Source × Pass W)
merge_sources o watermark fuel [] m = some ([], m)
merge_sources o watermark fuel (src ∷ []) m = elim (merge_one o watermark fuel src m) [
  | none ↦ none
  | some (src', m') ↦ some (src' ∷ [], m')
]
merge_sources o watermark fuel (a ∷ b ∷ sources) m =
    merge_heap o watermark fuel (o.make_heap later (a ∷ b ∷ sources)) [] m

-- The last loop: what was consumed of the stage is erased.
unfoldable pub erase_consumed : {W : Type 0} → List Source → Shared W → Pass W → Shared W × Pass W
erase_consumed [] sh m = (sh, m)
erase_consumed (src ∷ sources) sh m = elim src.ring [
  | some i ↦ erase_consumed sources sh m
  | none ↦
      erase_consumed sources (record sh { stage = drop src.pos sh.stage })
        (record m { progressed = true })
]

-- `merge_pass` between `read_shared` and `release_retired_rings`.
unfoldable pub merge_staged :
    {W : Type 0} → Outside W → ℕ → ℕ → Shared W → Pass W → Option (Shared W × Pass W)
merge_staged o watermark fuel sh m =
    elim (gather o watermark fuel o.count 0 (stage_source (staged_below watermark sh.stage)) m) [
      | none ↦ none
      | some (sources, m') ↦
          let any : Bool = elim sources [ [] ↦ m'.progressed | s ∷ more ↦ true ] in
          elim (merge_sources o watermark fuel sources (record m' { progressed = any })) [
            | none ↦ none
            | some (spent, m'') ↦ some (erase_consumed spent sh m'')
          ]
    ]

-- `merge_pass` up to its call of `release_retired_rings`; the shared ring is read at moment `t`.
unfoldable pub merge_pass :
    {W : Type 0}
    → Outside W
    → Queue
    → ℕ
    → ℕ
    → ℕ
    → ℕ
    → ℕ
    → ℕ
    → Shared W
    → Pass W
    → Option (Shared W × Pass W)
merge_pass o q queue_capacity t now timeout watermark fuel sh m =
    let (sh', any) =
      read_shared o.on_event q o.count queue_capacity t now timeout
        (record sh { world = m.world }) in
    merge_staged o watermark fuel sh' (record m { world = sh'.world; progressed = any })

-- `drain_once`, where `clock` is the time-stamp counter.
unfoldable pub drain_once :
    {W : Type 0}
    → Outside W
    → Queue
    → ℕ
    → ℕ
    → ℕ
    → ℕ
    → ℕ
    → ℕ
    → ℕ
    → Shared W
    → Pass W
    → Option (Shared W × Pass W)
unfolding merge_pass
drain_once o q queue_capacity t now timeout clock holdback_cycles fuel sh m =
    merge_pass o q queue_capacity t now timeout
      (if ltb holdback_cycles clock then clock - holdback_cycles else 0) fuel sh m
