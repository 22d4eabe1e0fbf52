-- ===== src/Writers/Enqueue.antt =====
-- What `WriteSamples` puts into the queue.
use kubemonitor.Common.{
  ◌%◌, ◌^◌, ◌≡◌, inl, inr, refl, true, false, not, none, some, List, [], ◌∷◌, ◌++◌, map, append-nil,
  arith, if◌then◌else◌, suc_test, Bool-cases, Option-cases, length, codes,
}
use kubemonitor.Value.{Floats, to_float64}
use kubemonitor.SafeList.{limited_push_front_n, is_full, push_front_n}
use kubemonitor.SafeList.Fifo.{queue, queue-push_front_n}
use kubemonitor.Sample.{Sample, TimeSeries, unix_milli, metric_name_label}
use kubemonitor.Sample.Series.{convert-some, convert-none, renamed}
use kubemonitor.Writers.{Writers, convert_all, enqueue, write_samples}
use kubemonitor.Counting.{SnapshotCall, queue_mode}

module _ {F : Type 0} ⦃fl : Floats F⦄ where
  -- The series of the samples whose value is a number, in their order.
  abbrev pub series_of : List (Sample F) → List (TimeSeries F)
  series_of [] = []
  series_of (s ∷ samples) = elim (to_float64 s.value) [
    | none ↦ series_of samples
    | some v ↦
        record {
          labels = (metric_name_label, s.metric) ∷ renamed s.labels;
          samples = (v, unix_milli s.timestamp) ∷ [];
        }
        ∷ series_of samples
  ]

  convert_all-series_of :
      (samples : List (Sample F))
      → convert_all (map (λ s. some s) samples) ≡ some (series_of samples)
  unfolding convert_all
  convert_all-series_of [] = refl
  convert_all-series_of (s ∷ samples) = elim (Option-cases (to_float64 s.value)) [
    | inl e ↦ rw (convert_all-series_of samples, convert-none (codes "ms") s e, e, series_of)
    | inr (v, e) ↦ rw (
      convert_all-series_of samples,
      convert-some s v e,
      suc_test (length (renamed s.labels)),
      e,
      series_of,
    )
  ]

module _ {C F : Type 0} ⦃fl : Floats F⦄ where
  -- `WriteSamples` of samples that are there: it never panics; below the limit it appends the
  -- series of the samples whose value is a number, at milliseconds and in their order, to the
  -- queue; at the limit it queues none; and it spawns the call of `snapshot` that says how many
  -- there were, and whether they were queued.
  pub write_samples_lem :
      (s : Sample F) (samples : List (Sample F)) (ws : Writers C F)
      → let items = series_of (s ∷ samples) in
        let room = not (is_full ws.queue) in
        (ws' : Writers C F) × (c : SnapshotCall) × (write_samples
            (map (λ x. some x) (s ∷ samples))
            ws
          ≡ some (ws', c ∷ []))
        × (queue ws'.queue.sl ≡ (if room then queue ws.queue.sl ++ items else queue ws.queue.sl))
        × (ws'.writer_map ≡ ws.writer_map)
        × (c.count ≡ length items)
        × (c.success ≡ room)
        × (c.mode ≡ queue_mode)
  unfolding write_samples enqueue limited_push_front_n
  write_samples_lem s samples ws =
      let items = series_of (s ∷ samples) in
      elim (Bool-cases (is_full ws.queue)) [
        | inl full ↦ rw full (
          ws,
          record {
            count = length items;
            size = length ws.queue.sl.items % 2 ^ 64;
            success = false;
            mode = queue_mode;
          },
          rw (convert_all-series_of (s ∷ samples), write_samples) (rw full),
          refl,
          refl,
          refl,
          refl,
          refl,
        )
        | inr room ↦
            let after = push_front_n items ws.queue.sl in
            rw room (
              record ws { queue = record (ws.queue) { sl = after } },
              record {
                count = length items;
                size = length after.items % 2 ^ 64;
                success = true;
                mode = queue_mode;
              },
              rw (convert_all-series_of (s ∷ samples), write_samples) (rw room),
              queue-push_front_n items ws.queue.sl,
              refl,
              refl,
              refl,
              refl,
            )
      ]

  -- What the queue is after the samples have been written to it.
  abbrev pub queued : List (Sample F) → Writers C F → List (TimeSeries F)
  queued samples ws =
      if is_full ws.queue then queue ws.queue.sl else queue ws.queue.sl ++ series_of samples

  pub write_some :
      (samples : List (Sample F)) (ws : Writers C F)
      → (ws' : Writers C F) × (calls : List SnapshotCall) × (write_samples
            (map (λ s. some s) samples)
            ws
          ≡ some (ws', calls))
        × (queue ws'.queue.sl ≡ queued samples ws)
        × (ws'.writer_map ≡ ws.writer_map)
  unfolding write_samples
  write_some [] ws = (ws, [], refl, ground (arith, append-nil (queue ws.queue.sl)), refl)
  write_some (s ∷ samples) ws =
      let (ws', c, run, items, same, _, _, _) = write_samples_lem s samples ws in
      (ws', c ∷ [], run, ground (arith, items), same)
