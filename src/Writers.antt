-- ===== src/Writers.antt =====
-- internal/writer/writers.go: the registered writers, the queue of series, and its reader; Counting
-- has the counters. The methods hold the lock where they change the map or the counters.
-- `WriteSamples` counts in a goroutine of its own: the call that it spawns is a value here, and
-- lands later.
pub mod World
pub mod Counters
pub mod Enqueue
pub mod Fanout
pub mod Delivery
pub mod Reader
pub mod Tests
use kubemonitor.Common.{
  ℕ, zero, suc, Bool, ◌++◌, ◌%◌, ◌^◌, true, false, Option, none, some, List, [], ◌∷◌, ◌==◌,
  if◌then◌else◌, length, Text, codes, Map, lookup, insert, delete,
}
use kubemonitor.Common.Int.{ℤ}
use kubemonitor.Value.{Floats}
use kubemonitor.SafeList.{
  SafeListLimited, new_safe_list_limited, limited_push_front_n, limited_pop_back_n,
}
use kubemonitor.Sample.{Sample, TimeSeries, convert_time_series}
use kubemonitor.Writer.{
  Writer, WriterOption, Transport, Outcome, ok, failed, panicked, new_writer, write,
}
use kubemonitor.Counting.{Snapshot, SnapshotCall, queue_mode, no_counts, count_call, written}

pub record Writers (C F : Type 0) : Type 0 where
  pub writer_map : Map (Writer C)
  pub queue : SafeListLimited (TimeSeries F)
  pub batch : ℤ
  pub chan_size : ℤ
  pub counters : Snapshot

-- The loop of `WriteSamples`; `none` is the panic at a nil pointer. Samples that cannot be
-- converted are dropped.
unfoldable pub convert_all :
    {F : Type 0} ⦃fl : Floats F⦄ → List (Option (Sample F)) → Option (List (TimeSeries F))
convert_all [] = some []
convert_all (none ∷ samples) = none
convert_all (some sample ∷ samples) = elim (convert_all samples) [
  | none ↦ none
  | some items ↦ elim (convert_time_series (codes "ms") sample) [
    | none ↦ some items
    | some item ↦ some (if length item.labels == 0 then items else item ∷ items)
  ]
]

-- A write that has ended: the writer, what it was given, and how it ended.
pub record Written (F : Type 0) : Type 0 where
  pub key : Text
  pub items : List (TimeSeries F)
  pub ended : Outcome

-- What a goroutine of `WriteTimeSeries` does: its write, its call of `snapshot`, which holds the
-- lock, or a panic.
pub data WriteAction (F : Type 0) : Type 0 where
  wrote : Written F → WriteAction F
  counted : Bool → WriteAction F
  crashes : WriteAction F

-- The order in which a scheduler lets goroutines act.
abbrev pub Order : Type 0 → Type 0
Order F = List (List (WriteAction F)) → List (WriteAction F)

module _ {F : Type 0} where
  abbrev pub log_write :
      Written F → Option (Snapshot × List (Written F)) → Option (Snapshot × List (Written F))
  log_write w none = none
  log_write w (some (s, log)) = some (s, w ∷ log)

  -- A panic in one of the goroutines ends the program.
  unfoldable pub perform_writes :
      List (WriteAction F) → Snapshot → Option (Snapshot × List (Written F))
  perform_writes [] s = some (s, [])
  perform_writes (wrote w ∷ actions) s = log_write w (perform_writes actions s)
  perform_writes (counted success ∷ actions) s =
      perform_writes actions (count_call (written success) s)
  perform_writes (crashes ∷ actions) s = none

  -- The goroutine of a writer, by how its `Write` ends.
  unfoldable pub after_write : Text → List (TimeSeries F) → Outcome → List (WriteAction F)
  after_write key items panicked = crashes ∷ []
  after_write key items ok =
      wrote (record { key = key; items = items; ended = ok }) ∷ counted true ∷ []
  after_write key items failed =
      wrote (record { key = key; items = items; ended = failed }) ∷ counted false ∷ []

module _ {C F : Type 0} where
  unfoldable pub new_writers : ℤ → ℤ → Writers C F
  new_writers chan_size batch = record {
    writer_map = [];
    queue = new_safe_list_limited chan_size;
    batch = batch;
    chan_size = chan_size;
    counters = no_counts;
  }

  unfoldable pub snapshot : SnapshotCall → Writers C F → Writers C F
  snapshot c ws = record ws { counters = count_call c ws.counters }

  -- `QueueMetrics` returns a copy.
  unfoldable pub queue_metrics : Writers C F → Snapshot
  queue_metrics ws = ws.counters

  -- An error leaves the writers as they are.
  unfoldable pub de_register : Text → Writers C F → Outcome × Writers C F
  de_register name ws = elim (lookup name ws.writer_map) [
    | some w ↦ (ok, record ws { writer_map = delete name ws.writer_map })
    | none ↦ (failed, ws)
  ]

  unfoldable pub register :
      Transport C F → Text → WriterOption → Writers C F → Outcome × Writers C F
  register net name opt ws = elim (new_writer net opt) [
    | none ↦ (failed, ws)
    | some w ↦ (ok, record ws { writer_map = insert name w ws.writer_map })
  ]

  -- The push, and the call of `snapshot` that is spawned behind it.
  unfoldable pub enqueue : List (TimeSeries F) → Writers C F → Writers C F × List SnapshotCall
  enqueue items ws =
      let (success, queue) = limited_push_front_n items ws.queue in
      (
        record ws { queue = queue },
        record {
          count = length items;
          size = length queue.sl.items % 2 ^ 64;
          success = success;
          mode = queue_mode;
        }
            ∷ [],
      )

  unfoldable pub write_samples :
      ⦃fl : Floats F⦄
      → List (Option (Sample F))
      → Writers C F
      → Option (Writers C F × List SnapshotCall)
  write_samples [] ws = some (ws, [])
  write_samples (s ∷ samples) ws = elim (convert_all (s ∷ samples)) [
    | none ↦ none
    | some items ↦ some (enqueue items ws)
  ]

  -- The goroutines of `WriteTimeSeries`, one for each registered writer.
  unfoldable pub write_each :
      Transport C F → Map (Writer C) → List (TimeSeries F) → List (List (WriteAction F))
  unfolding after_write
  write_each net [] items = []
  write_each net ((key, w) ∷ m) items =
      after_write key items (write net w items) ∷ write_each net m items

  -- `wg.Wait` waits for all goroutines, which act in the given order.
  unfoldable pub write_time_series :
      Transport C F
      → Order F
      → List (TimeSeries F)
      → Writers C F
      → Option (Writers C F × List (Written F))
  unfolding write_each perform_writes
  write_time_series net order [] ws = some (ws, [])
  write_time_series net order (t ∷ series) ws =
      elim (perform_writes (order (write_each net ws.writer_map (t ∷ series))) ws.counters) [
        | none ↦ none
        | some (s, log) ↦ some (record ws { counters = s }, log)
      ]

  -- One round of `loopRead`, with its writes; an empty batch is followed by a sleep.
  unfoldable pub read_round :
      Transport C F → Order F → Writers C F → Option (Writers C F × List (Written F))
  unfolding write_time_series
  read_round net order ws = elim (limited_pop_back_n ws.batch ws.queue) [
    | none ↦ none
    | some (series, rest) ↦ write_time_series net order series (record ws { queue = rest })
  ]

  -- The first rounds of `loopRead`, each with an order of its own, and their writes.
  unfoldable pub loop_read :
      ℕ → Transport C F → (ℕ → Order F) → Writers C F → Option (Writers C F × List (Written F))
  unfolding read_round
  loop_read zero net orders ws = some (ws, [])
  loop_read (suc n) net orders ws = elim (read_round net (orders n) ws) [
    | none ↦ none
    | some (ws', log) ↦ elim (loop_read n net orders ws') [
      | none ↦ none
      | some (last, logs) ↦ some (last, log ++ logs)
    ]
  ]
