-- ===== src/Metrics/Round.antt =====
-- What one round of the operator's own metrics puts into the queue.
use kubemonitor.Common.{
  ℕ, ◌≡◌, refl, ap, ◌∙◌, some, List, [], ◌∷◌, ◌++◌, map, if◌then◌else◌, map-map, Text, codes,
  text_eq, Map, lookup, insert,
}
use kubemonitor.Common.Int.{pos}
use kubemonitor.Value.{Floats, to_float64}
use kubemonitor.SafeList.{new_safe_list, push_front, is_full}
use kubemonitor.SafeList.Fifo.{queue, pop_back_all_lem}
use kubemonitor.Sample.{
  Sample, TimeSeries, Time, unix_milli, metric_name_label, push_sample, new_sample, metric_replacer,
  label_replacer, is_zero, global_labels,
}
use kubemonitor.Process.{process_sample}
use kubemonitor.Process.Laws.{present, process_lem}
use kubemonitor.Writers.{Writers, queue_metrics}
use kubemonitor.Counting.{SnapshotCall}
use kubemonitor.Writers.Enqueue.{series_of, write_some}
use kubemonitor.Metrics.{default_prefix, counted, collect_metrics, run_round}

module _ {F : Type 0} ⦃fl : Floats F⦄ where
  -- The series of a counter.
  abbrev pub counter_series : Time → Text × ℕ → TimeSeries F
  counter_series now (metric, n) = record {
    labels =
        (metric_name_label, default_prefix ++ b'_' ∷ metric)
        ∷ (codes "source", default_prefix)
        ∷ [];
    samples = (fl.of_int (pos n), unix_milli now) ∷ [];
  }

  collected :
      {C : Type 0} (now : Time) (ws : Writers C F)
      → series_of (
          map
            (process_sample now ((codes "source", default_prefix) ∷ []))
            (present (queue (collect_metrics ws new_safe_list))))
        ≡ map (counter_series now) (counted (queue_metrics ws))
  unfolding collect_metrics push_sample push_front new_sample metric_replacer process_sample
      global_labels is_zero label_replacer to_float64 lookup insert text_eq
  collected now ws = refl

module _ {C F : Type 0} ⦃fl : Floats F⦄ where
  -- A round that starts from an empty list puts one series for each of the six counters of
  -- `QueueMetrics` into the queue, unless that is at its limit: in the order of the pushes, named
  -- `kubemonitor_` and the metric, labelled with the source alone, and at the time of the round. It
  -- never panics, leaves the writers' map as it is, and ends with an empty list again.
  run_round_lem :
      (now : Time) (ws : Writers C F)
      → (ws' : Writers C F) × (calls : List SnapshotCall) × (run_round now ws new_safe_list
          ≡ some (ws', calls, new_safe_list))
        × (queue ws'.queue.sl ≡ (
            if is_full ws.queue
            then queue ws.queue.sl
            else queue ws.queue.sl ++ map (counter_series now) (counted (queue_metrics ws))))
        × (ws'.writer_map ≡ ws.writer_map)
  unfolding run_round
  run_round_lem now ws =
      let extra : Map Text = (codes "source", default_prefix) ∷ [] in
      let slist = collect_metrics ws new_safe_list in
      let (nlst, ran, items) = process_lem now extra slist in
      let samples : List (Sample F) = map (process_sample now extra) (present (queue slist)) in
      let (ws', calls, wrote, after, same) = write_some samples ws in
      (
        ws',
        calls,
        rw (ran, run_round)
            (rw (pop_back_all_lem nlst) (
              rw
                (items
                  ∙ map-map (process_sample now extra) (λ (s : Sample F). some s)
                      (present (queue slist)))
                (rw wrote))),
        after
            ∙ ap (λ s. if is_full ws.queue then queue ws.queue.sl else queue ws.queue.sl ++ s)
                (collected now ws),
        same,
      )
