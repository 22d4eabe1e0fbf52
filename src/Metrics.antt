-- ===== src/Metrics.antt =====
-- pkg/metrics/metrics.go: the operator's own counters, written as samples every 15 seconds.
pub mod Round
use kubemonitor.Common.{ℕ, Option, none, some, List, [], ◌∷◌, Text, codes}
use kubemonitor.Value.{Floats, uint64}
use kubemonitor.SafeList.{pop_back_all}
use kubemonitor.Sample.{SampleList, Time, push_sample}
use kubemonitor.Process.{process}
use kubemonitor.Writers.{Writers, queue_metrics, write_samples}
use kubemonitor.Counting.{Snapshot, SnapshotCall}

abbrev pub default_prefix : Text
default_prefix = codes "kubemonitor"

abbrev pub metric_enqueue_sum : Text
metric_enqueue_sum = codes "metrics_enqueue_sum"

abbrev pub metric_enqueue_failed_sum : Text
metric_enqueue_failed_sum = codes "metrics_enqueue_failed_sum"

abbrev pub metric_enqueue_failed_cnt : Text
metric_enqueue_failed_cnt = codes "metrics_enqueue_failed_count"

abbrev pub metric_queue_size : Text
metric_queue_size = codes "current_queue_size"

abbrev pub metrics_write_total : Text
metrics_write_total = codes "write_total"

abbrev pub metrics_write_fail_total : Text
metrics_write_fail_total = codes "write_fail_total"

-- The metrics with the counter that each shows, in the order of the pushes.
abbrev pub counted : Snapshot → List (Text × ℕ)
counted ss =
    (metric_enqueue_sum, ss.queue_total_count)
    ∷ (metric_enqueue_failed_sum, ss.queue_fail_total)
    ∷ (metric_enqueue_failed_cnt, ss.queue_fail_count)
    ∷ (metric_queue_size, ss.queue_size)
    ∷ (metrics_write_total, ss.write_total_count)
    ∷ (metrics_write_fail_total, ss.write_fail_total)
    ∷ []

push_counted : {F : Type 0} → List (Text × ℕ) → SampleList F → SampleList F
push_counted [] slist = slist
push_counted ((metric, n) ∷ more) slist =
    push_counted more (push_sample default_prefix metric (uint64 n) [] slist)

module _ {C F : Type 0} where
  unfoldable pub collect_metrics : Writers C F → SampleList F → SampleList F
  unfolding push_counted
  collect_metrics ws slist = push_counted (counted (queue_metrics ws)) slist

  -- One turn of the loop of `Run` behind the timer, with the list that it goes on with; `none` is a
  -- panic.
  unfoldable pub run_round :
      ⦃fl : Floats F⦄
      → Time
      → Writers C F
      → SampleList F
      → Option (Writers C F × List SnapshotCall × SampleList F)
  run_round now ws slist =
      elim (process now ((codes "source", default_prefix) ∷ []) (collect_metrics ws slist)) [
        | none ↦ none
        | some (process_list, rest) ↦ elim (pop_back_all process_list) [
          | none ↦ none
          | some (arr, emptied) ↦ elim (write_samples arr ws) [
            | none ↦ none
            | some (ws', calls) ↦ some (ws', calls, rest)
          ]
        ]
      ]
