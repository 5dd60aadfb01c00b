-- ===== src/Lib.antt =====
-- Latency measurement over event streams: the pairing and statistics core of slick-perfmon.
--
-- A program records events of 16 bytes: a time stamp (or a value), a measurement point, and a word
-- that packs a correlation id with a step. A collector reads them in order and gives them to the
-- pairer, which keeps the open spans in a table, turns consecutive stamps of a span into stage
-- latencies, and adds each latency to the accumulator of its stage. An accumulator keeps exact
-- counters, running moments and a log-linear histogram for the percentiles. Anomalies (an orphan
-- stamp, time that goes backwards, a span that is abandoned, a full stage table) are counted for
-- each point.
--
-- The files, under include/slick/perfmon:
--   Event        stamp_types.hpp: `make_event`, `step_of`, `seq_of` and the fields of `sample`.
--   OpenMap      detail/open_map.hpp: the class `open_map`, every operation. The three vectors that
--                the class indexes together are one list of cells; the pointer that `find` and
--                `insert` return is the index of the slot, read by `load` and written by `store`.
--   Histogram    histogram.hpp: the class `Histogram` at the default precision of 4 bits.
--   Accumulator  accumulator.hpp: the class `Accumulator`. The type `double` and its operations are
--                a parameter, the record `Doubles`.
--   Keys         pairing.hpp: `stage_key`, `total_key`, `span_key`, `span_point`.
--   Pairer       pairing.hpp: the class `Pairer`. `Pairer.Anomalies` has `points_` and `overflow_`,
--                which `anomalies` indexes together. `std::push_heap`, `std::pop_heap` and
--                `std::sort_heap` are a parameter, the record `Heap`. `record` is `record_cycles`.
--   Ring         detail/thread_ring.hpp: `publish`, `first_intact` and `ring_read`. The writer makes one
--                store at a time (`advance`), and each load of the reader has a moment of its own.
--                Loads and stores are sequentially consistent. In `Ring.Roundtrip` a sample is one
--                call of `publish`, and nobody writes while the ring is read.
--   RingTable    detail/ring_table.hpp: the claim words, the layout, and `create`, `reuse`, `take_tag`,
--                `claim`, `retire`, `release`. `RingTable.Threads` interleaves the accesses of any
--                number of threads and of a collector. `RingTable.Reclaim` has the passes of the
--                collector over the words, `reclaim_dead_rings` and `release_retired_rings`.
--   ControlBlock control_block.hpp: the header, `initialise`, `validate`, `create_shared`,
--                `attach_shared`. What opening a segment gives is the type `Segment`, since the
--                mapping is another library. `ControlBlock.Names` has `publish_one`, `publish_names`,
--                `lookup` and `claimed_names`, in a block to which no other process writes;
--                `ControlBlock.Publishers` interleaves the accesses of any number of processes.
--   Config       types.hpp, collector.hpp: `config`, `apply_environment`, `validate_config` and
--                `validate_csv_schema`; `Config.Header` has `percentile_label` and `csv_header`. How
--                the C++ library prints a double, and reads it back, is the record `Percentiles`.
--                The limit on a shared name is that of every platform but macOS.
--   Shared       collector.hpp: `read_shared_once`, `read_shared`, `check_stall`, `skip_hole` and
--                `final_drain` up to its last pass. The shared ring is the queue of another library,
--                the record `Queue`; the steady clock is a function of the number of the load.
--   Merge        collector.hpp: `next_stamp`; `Merge.Looping` has `drain_once`, `merge_pass` up to its
--                last call, `source_head` and `prefer_clean_tie`. The pairer, the rings and the heap
--                algorithms of the C++ library are the record `Outside`; the heap holds the sources
--                instead of their indices. `Merge.OfRings` reads the rings by `ring_read` of Ring.
--                `Merge.Feeding` has what the pairer is given and when, `Merge.Spent` how far a ring
--                was read, and `Merge.Flow` where each sample went.
--   Reports      collector.hpp: `StageReport`, `to_stats`, `to_summary`, `convert`, the labels and
--                their cache; `Reports.Building` has `build_reports`, and `Reports.Writing` has
--                `do_flush` (but for the clock, and `reclaim_dead_rings`, which stands in RingTable),
--                `write_csv` and the search of `snapshot`. `std::sort` and `std::to_string` are
--                parameters, and so is the conversion of cycles.
--   Scoped       scoped.hpp: `ScopedSample`, in a program that holds any number of guards.
--   Startup      collector.hpp: `start` up to the names that it publishes, and `open_transport`. What
--                opening the shared ring and the segment gives is the record `Surroundings`.
--                `Startup.Session` has `create_session`, `take_retired_table`, `modules_moved_on` and
--                `release_retired_ring`, and `note_module` of include/slick/perfmon.hpp; a module is
--                the address of its hot state, and notes itself undisturbed.
--   Csv          collector.hpp: `write_csv_field`, on bytes.
--
-- Integers are natural numbers with the wrap-around of their width written out. A `double` that
-- `Histogram::percentile` takes is the record `Percent`: its two comparisons and its scaled value.
--
-- Loops run on rounds. The probe loop has a round for each slot, which is enough on a valid table,
-- since one slot is unused; `erase_at` has a round for each slot; `erase_if` has two for each slot,
-- since a round erases an entry or moves on; the loops over the occupied band of a histogram and
-- over the eviction queue have a round for each index that is left. `passes 2` is the loop of two
-- passes in `evict_oldest`. `claim` and `publish_one` have a round for each slot; `await_ready` has
-- 10000 loads and `await_claim` 1000 and a last one, as in the source. The fuel of `final_drain` is
-- enough if it exceeds what is reserved and the loads until its grace is over. The loops of a merge
-- are on fuel, and enough of it is what the sources can give up to the heads that the pass found.
--
-- Not modelled: the threads of the collector and their hand-shakes (`run`, `flush`, `shutdown`), its
-- files and the table that it prints (collector.hpp), which are calls of the operating system and of
-- streams; the queue that is the shared ring (queue.hpp), which is another library; the processor's
-- counter and its calibration (detail/tsc.hpp), which are instructions and doubles; the macros, the
-- thread-local state and the atomic switch of the entry points (perfmon.hpp, config.hpp), and the
-- orderings of atomic accesses; the command line (tools), and the uses of the library (examples,
-- bench).
pub mod Prelude
pub mod Event
pub mod OpenMap
pub mod Histogram
pub mod Accumulator
pub mod Keys
pub mod Pairer
pub mod Csv
pub mod Ring
pub mod RingTable
pub mod ControlBlock
pub mod Config
pub mod Shared
pub mod Scoped
pub mod Startup
pub mod Merge
pub mod Reports
