-- ===== src/Writers/Counters.antt =====
-- The counters of the queue: whatever the order in which the spawned calls of `snapshot` land among
-- the other operations, they add up to what was offered to the queue and to what it refused.
use kubemonitor.Common.{
  ℕ, ◌+◌, ◌%◌, ◌^◌, ◌≡◌, inl, inr, refl, ap, ◌∙◌, Bool, true, false, Option, some, List, [], ◌∷◌,
  ◌++◌, arith, if◌then◌else◌, Option-cases, OnSome, OnSome-at, length, Text,
}
use kubemonitor.Common.Int.{ℤ}
use kubemonitor.Value.{Floats}
use kubemonitor.SafeList.{limited_push_front_n, limited_pop_back_n}
use kubemonitor.Sample.{Sample, TimeSeries}
use kubemonitor.Writer.{Transport, WriterOption}
use kubemonitor.Writers.{
  Writers, new_writers, snapshot, queue_metrics, register, de_register, convert_all, enqueue,
  write_samples, WriteAction, wrote, counted, crashes, Order, perform_writes, write_each,
  write_time_series, read_round,
}
use kubemonitor.Counting.{Snapshot, SnapshotCall, count_call, written}
use kubemonitor.Writers.World.{
  offers, refuses, sum, sum-append, count_call_lem, World, initial, Reach, here, offer, land, read,
  enlist, dismiss,
}

-- The counters and what is pending make up what was offered and refused.
pub record IsCounted {C F : Type 0} (n k : ℕ) (w : World C F) : Type 0 where
  pub offered : (w.ws.counters.queue_total_count + sum offers w.pending) % 2 ^ 64 ≡ n % 2 ^ 64
  pub refused : (w.ws.counters.queue_fail_total + sum refuses w.pending) % 2 ^ 64 ≡ k % 2 ^ 64

land-IsCounted :
    {C F : Type 0} {n k : ℕ} (w : World C F) (c : SnapshotCall) (xs ys : List SnapshotCall)
    → w.pending ≡ xs ++ c ∷ ys
    → IsCounted n k w
    → IsCounted n k (record { ws = snapshot c w.ws; pending = xs ++ ys })
unfolding snapshot
land-IsCounted w c xs ys e v = record {
  offered = omega (
    arith,
    count_call_lem c w.ws.counters,
    sum-append offers xs ys,
    sum-append offers xs (c ∷ ys),
    ap (sum offers) e,
    v.offered,
  );
  refused = omega (
    arith,
    count_call_lem c w.ws.counters,
    sum-append refuses xs ys,
    sum-append refuses xs (c ∷ ys),
    ap (sum refuses) e,
    v.refused,
  );
}

enqueue-calls :
    {C F : Type 0} (items : List (TimeSeries F)) (ws : Writers C F)
    → ((enqueue items ws).0.counters ≡ ws.counters)
      × (sum offers (enqueue items ws).1 ≡ length items)
      × (sum refuses (enqueue items ws).1
          ≡ (if (limited_push_front_n items ws.queue).0 then 0 else length items))
unfolding enqueue
enqueue-calls items ws = ground arith

-- The two sums of the queue.
abbrev queue_sums : Snapshot → ℕ × ℕ
queue_sums s = (s.queue_total_count, s.queue_fail_total)

count_write_sums :
    (success : Bool) (s : Snapshot) → queue_sums (count_call (written success) s) ≡ queue_sums s
unfolding count_call
count_write_sums true s = refl
count_write_sums false s = refl

perform_writes_sums :
    {F : Type 0} (actions : List (WriteAction F)) (s : Snapshot)
    → OnSome (λ r. queue_sums r.0 ≡ queue_sums s) (perform_writes actions s)
unfolding perform_writes
perform_writes_sums [] s = refl
perform_writes_sums (wrote w ∷ actions) s = ground (arith, perform_writes_sums actions s)
perform_writes_sums (counted success ∷ actions) s = ground (
  arith,
  perform_writes_sums actions (count_call (written success) s),
  count_write_sums success s,
)
perform_writes_sums (crashes ∷ actions) s = tt

module _ {C F : Type 0} (net : Transport C F) where
  write_time_series_sums :
      (order : Order F) (items : List (TimeSeries F)) (ws : Writers C F)
      → OnSome
          (λ r. queue_sums r.0.counters ≡ queue_sums ws.counters)
          (write_time_series net order items ws)
  unfolding write_time_series
  write_time_series_sums order [] ws = refl
  write_time_series_sums order (t ∷ items) ws =
      ground
        (arith, perform_writes_sums (order (write_each net ws.writer_map (t ∷ items))) ws.counters)

  read_round_sums :
      (order : Order F) (ws : Writers C F)
      → OnSome (λ r. queue_sums r.0.counters ≡ queue_sums ws.counters) (read_round net order ws)
  unfolding read_round
  read_round_sums order ws = elim (Option-cases (limited_pop_back_n ws.batch ws.queue)) [
    | inl e ↦ rw (e, read_round) tt
    | inr ((series, rest), e) ↦
        rw (e, read_round) (write_time_series_sums order series (record ws { queue = rest }))
  ]

  register_sums :
      (name : Text) (opt : WriterOption) (ws : Writers C F)
      → (register net name opt ws).1.counters ≡ ws.counters
  unfolding register
  register_sums name opt ws = ground arith

de_register_sums :
    {C F : Type 0} (name : Text) (ws : Writers C F) → (de_register name ws).1.counters ≡ ws.counters
unfolding de_register
de_register_sums name ws = ground arith

-- A call of `WriteSamples` that ends has converted its samples, and queued what that gave if there
-- were any samples.
write_samples-items :
    {C F : Type 0} ⦃fl : Floats F⦄ (samples : List (Option (Sample F))) (ws : Writers C F)
    (items : List (TimeSeries F))
    → convert_all samples ≡ some items
    → OnSome
        (λ r.
          (r.0.counters ≡ ws.counters)
          × (sum offers r.1 ≡ length items)
          × (sum refuses r.1
              ≡ (if (limited_push_front_n items ws.queue).0 then 0 else length items)))
        (write_samples samples ws)
unfolding write_samples convert_all
write_samples-items [] ws items e = ground arith
write_samples-items (s ∷ samples) ws items e = rw (e, write_samples) (enqueue-calls items ws)

same_sums :
    {C F : Type 0} {n k : ℕ} (w : World C F) (ws' : Writers C F)
    → queue_sums ws'.counters ≡ queue_sums w.ws.counters
    → IsCounted n k w
    → IsCounted n k (record w { ws = ws' })
same_sums w ws' e v = record {
  offered = ap (λ (t : ℕ × ℕ). (t.0 + sum offers w.pending) % 2 ^ 64) e ∙ v.offered;
  refused = ap (λ (t : ℕ × ℕ). (t.1 + sum refuses w.pending) % 2 ^ 64) e ∙ v.refused;
}

offer-IsCounted :
    {C F : Type 0} {n k n' k' : ℕ} (w : World C F) (ws' : Writers C F) (calls : List SnapshotCall)
    (count refused : ℕ)
    → ws'.counters ≡ w.ws.counters
    → sum offers calls ≡ count
    → sum refuses calls ≡ refused
    → n' ≡ n + count
    → k' ≡ k + refused
    → IsCounted n k w
    → IsCounted n' k' (record { ws = ws'; pending = w.pending ++ calls })
offer-IsCounted w ws' calls count refused same a b en ek v = record {
  offered = omega (
    arith,
    ap (λ (s : Snapshot). s.queue_total_count) same,
    sum-append offers w.pending calls,
    v.offered,
  );
  refused = omega (
    arith,
    ap (λ (s : Snapshot). s.queue_fail_total) same,
    sum-append refuses w.pending calls,
    v.refused,
  );
}

Reach-IsCounted :
    {C F : Type 0} (net : Transport C F) ⦃fl : Floats F⦄ {first w : World C F} {n k : ℕ}
    → IsCounted 0 0 first
    → Reach net first n k w
    → IsCounted n k w
Reach-IsCounted net v here = v
Reach-IsCounted net v (offer {w = w} {ws' = ws'} samples items calls r e conv en ek) =
    let (same, a, b) = OnSome-at _ (write_samples-items samples w.ws items conv) e in
    offer-IsCounted w ws' calls (length items) _ same a b en ek (Reach-IsCounted net v r)
Reach-IsCounted net v (land {w = w} c xs ys r e) =
    land-IsCounted w c xs ys e (Reach-IsCounted net v r)
Reach-IsCounted net v (read {w = w} {ws' = ws'} order log runs r e) =
    same_sums w ws' (OnSome-at _ (read_round_sums net order w.ws) e) (Reach-IsCounted net v r)
Reach-IsCounted net v (enlist {w = w} name opt r) =
    same_sums w _ (ap queue_sums (register_sums net name opt w.ws)) (Reach-IsCounted net v r)
Reach-IsCounted net v (dismiss {w = w} name r) =
    same_sums w _ (ap queue_sums (de_register_sums name w.ws)) (Reach-IsCounted net v r)

initial-IsCounted :
    {C F : Type 0} (chan_size batch : ℤ) → IsCounted {C = C} {F = F} 0 0 (initial chan_size batch)
unfolding new_writers
initial-IsCounted chan_size batch = record { offered = refl; refused = refl }

-- From new writers on, however calls of `WriteSamples`, rounds of the reader, registrations and the
-- landings of the spawned calls of `snapshot` are interleaved: when no spawned call is left,
-- `QueueMetrics` shows the number of series offered to the queue, and the number of those that it
-- refused, modulo 2 ^ 64.
pub queue_metrics-Reach :
    {C F : Type 0} (net : Transport C F) ⦃fl : Floats F⦄ (chan_size batch : ℤ) {w : World C F}
    {n k : ℕ}
    → Reach net (initial chan_size batch) n k w
    → w.pending ≡ []
    → ((queue_metrics w.ws).queue_total_count % 2 ^ 64 ≡ n % 2 ^ 64)
      × ((queue_metrics w.ws).queue_fail_total % 2 ^ 64 ≡ k % 2 ^ 64)
unfolding queue_metrics
queue_metrics-Reach net chan_size batch {w} r e =
    let v = Reach-IsCounted net (initial-IsCounted chan_size batch) r in
    (omega (arith, ap (sum offers) e, v.offered), omega (arith, ap (sum refuses) e, v.refused))
