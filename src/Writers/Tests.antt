-- ===== src/Writers/Tests.antt =====
-- Runs of the writers.
use kubemonitor.Common.{
  ℕ, ◌%◌, ◌^◌, ◌≤◌, ◌<◌, ◌≡◌, refl, true, some, List, [], ◌∷◌, ◌++◌, length, All, Text, lookup,
  is_some, codes,
}
use kubemonitor.Common.Int.{ℤ, pos}
use kubemonitor.Value.{int, to_float64}
use kubemonitor.SafeList.{limited_push_front_n, push_front_n, push_front}
use kubemonitor.SafeList.Fifo.{queue}
use kubemonitor.Sample.{Sample, TimeSeries, convert_time_series}
use kubemonitor.Writers.{
  Writers, Written, Order, new_writers, snapshot, queue_metrics, convert_all, enqueue,
  write_samples, write_time_series, loop_read,
}
use mathlib.Core.List.{Perm}
use kubemonitor.Goroutines.{flatten, in_turn}
use kubemonitor.Counting.{Snapshot, SnapshotCall, queue_mode, no_counts}
use kubemonitor.Writers.World.{World, initial, Reach, here, offer, land}
use kubemonitor.Writers.Counters.{queue_metrics-Reach}
use kubemonitor.Writers.Enqueue.{series_of, write_samples_lem}
use kubemonitor.Writers.Fanout.{writes, write_time_series_lem}
use kubemonitor.Writers.Delivery.{written_to}
use kubemonitor.Writers.Reader.{loop_read_lem}
use kubemonitor.Toy.{int_floats, toy_net, dead_net, toy_option}

abbrev sample : Sample ℤ
sample = record {
  metric = codes "up";
  timestamp = pos 1000000;
  value = int (pos 1);
  labels = (codes "ident", codes "a") ∷ [];
}

abbrev one_series : TimeSeries ℤ
one_series = record {
  labels = (codes "__name__", codes "up") ∷ (codes "ident", codes "a") ∷ [];
  samples = (pos 1, pos 1) ∷ [];
}

-- One endpoint, and three series in the queue.
abbrev toy_writers : Writers ℕ ℤ
toy_writers = record {
  writer_map = (codes "n9e", record { opts = toy_option; client = 7 }) ∷ [];
  queue = record {
    max_size = pos 10;
    sl = record { items = one_series ∷ one_series ∷ one_series ∷ [] };
  };
  batch = pos 2;
  chan_size = pos 10;
  counters = no_counts;
}

write_samples_lem_example :
    (ws' : Writers ℕ ℤ) × (c : SnapshotCall) × (write_samples (some sample ∷ []) toy_writers
      ≡ some (ws', c ∷ []))
    × (queue ws'.queue.sl ≡ queue toy_writers.queue.sl ++ series_of (sample ∷ []))
    × (ws'.writer_map ≡ toy_writers.writer_map)
    × (c.count ≡ length (series_of (sample ∷ [])))
    × (c.success ≡ true)
    × (c.mode ≡ queue_mode)
write_samples_lem_example = write_samples_lem sample [] toy_writers

-- The goroutines one behind the other.
abbrev in_order : Order ℤ
in_order = λ gs. flatten gs

-- No endpoint answers, and no failure is counted.
write_time_series_lem_example :
    (s : Snapshot) × (log : List (Written ℤ)) × (write_time_series dead_net in_order
        (one_series ∷ [])
        toy_writers
      ≡ some (record toy_writers { counters = s }, log))
    × Perm log (writes dead_net toy_writers.writer_map (one_series ∷ []))
    × (s.write_total_count % 2 ^ 64 ≡ 1)
    × (s.write_fail_total % 2 ^ 64 ≡ 0)
write_time_series_lem_example =
    write_time_series_lem dead_net in_order (one_series ∷ []) toy_writers in_turn (λ e. cc e)
      (tt, tt)

loop_read_lem_example :
    (ws' : Writers ℕ ℤ) × (log : List (Written ℤ)) × (loop_read 3 toy_net
        (λ i. in_order)
        toy_writers
      ≡ some (ws', log))
    × ((key : Text)
        → is_some (lookup key toy_writers.writer_map) ≡ true
        → written_to key log ++ queue ws'.queue.sl ≡ queue toy_writers.queue.sl)
    × All (λ (w : Written ℤ). length w.items ≤ 2) log
    × (0 < 2 → length (queue toy_writers.queue.sl) ≤ 3 → queue ws'.queue.sl ≡ [])
unfolding lookup
loop_read_lem_example =
    loop_read_lem toy_net 3 2 (λ i. in_order) toy_writers (λ i gs. in_turn gs) refl (tt, tt)
      (refl, tt)

abbrev first : World ℕ ℤ
first = initial (pos 10) (pos 2)

abbrev spawned : SnapshotCall
spawned = record { count = 1; size = 1; success = true; mode = queue_mode }

abbrev offered : Writers ℕ ℤ
offered = record {
  writer_map = [];
  queue = record { max_size = pos 10; sl = record { items = one_series ∷ [] } };
  batch = pos 2;
  chan_size = pos 10;
  counters = no_counts;
}

offered_reached : Reach toy_net first 1 0 (record { ws = offered; pending = spawned ∷ [] })
unfolding write_samples convert_all enqueue limited_push_front_n push_front_n push_front new_writers
    convert_time_series to_float64
offered_reached = offer (some sample ∷ []) (one_series ∷ []) (spawned ∷ []) here refl refl refl refl

queue_metrics-Reach_example :
    ((queue_metrics (snapshot spawned offered)).queue_total_count % 2 ^ 64 ≡ 1)
    × ((queue_metrics (snapshot spawned offered)).queue_fail_total % 2 ^ 64 ≡ 0)
queue_metrics-Reach_example =
    queue_metrics-Reach toy_net (pos 10) (pos 2) (land spawned [] [] offered_reached refl) refl
