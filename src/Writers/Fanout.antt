-- ===== src/Writers/Fanout.antt =====
-- The writes of one batch to all writers.
use kubemonitor.Common.{
  ◌+◌, ◌%◌, ◌^◌, ◌≡◌, ◌≢◌, ◌⊎◌, inl, inr, refl, ap, subst, ◌∙◌, Bool, true, false, not, some, List,
  [], ◌∷◌, map, arith, if◌then◌else◌, Option-cases, length, All, Text, Map, is_some,
}
use mathlib.Core.List.{Permᴰ, Perm}
use kubemonitor.Sample.{TimeSeries}
use kubemonitor.Goroutines.{
  Interleave, flatten, count, total, collect, Interleave-count, Interleave-collect,
}
use kubemonitor.Writer.{Writer, Transport, Outcome, ok, failed, panicked, write}
use kubemonitor.Writer.Prepare.{IsEven}
use kubemonitor.Writer.Post.{write_outcome}
use kubemonitor.Writers.{
  Writers, Written, WriteAction, wrote, counted, crashes, Order, after_write, log_write,
  perform_writes, write_each, write_time_series,
}
use kubemonitor.Counting.{Snapshot, add64, count_call, written}

-- The header list of every writer has an even number of words.
abbrev pub AllEven : {C : Type 0} → Map (Writer C) → Type 0
AllEven = All (λ kw. IsEven kw.1.opts.headers)

count_written :
    (b : Bool) (s : Snapshot)
    → ((count_call (written b) s).write_total_count % 2 ^ 64 ≡ (s.write_total_count + 1) % 2 ^ 64)
      × ((count_call (written b) s).write_fail_total % 2 ^ 64
          ≡ (s.write_fail_total + (if b then 0 else 1)) % 2 ^ 64)
unfolding count_call add64
count_written b s = ground arith

outcome-ok : (o : Outcome) → o ≢ panicked → o ≢ failed → o ≡ ok
outcome-ok ok p f = refl
outcome-ok failed p f = absurd (f refl)
outcome-ok panicked p f = absurd (p refl)

module _ {F : Type 0} where
  abbrev pub is_crash : WriteAction F → Bool
  is_crash crashes = true
  is_crash _ = false

  abbrev is_counted : WriteAction F → Bool
  is_counted (counted success) = true
  is_counted _ = false

  abbrev is_failure : WriteAction F → Bool
  is_failure (counted success) = not success
  is_failure _ = false

  abbrev pub log_of : WriteAction F → List (Written F)
  log_of (wrote w) = w ∷ []
  log_of _ = []

  -- Without a panic, the writes are logged in their order, and the calls of `snapshot` add up.
  pub perform_writes_lem :
      (actions : List (WriteAction F)) (s : Snapshot)
      → count is_crash actions ≡ 0
      → (s' : Snapshot) × (perform_writes actions s ≡ some (s', collect log_of actions))
        × (s'.write_total_count % 2 ^ 64
            ≡ (s.write_total_count + count is_counted actions) % 2 ^ 64)
        × (s'.write_fail_total % 2 ^ 64 ≡ (s.write_fail_total + count is_failure actions) % 2 ^ 64)
  unfolding perform_writes
  perform_writes_lem [] s h = (s, refl, omega arith, omega arith)
  perform_writes_lem (wrote w ∷ actions) s h =
      let (s', run, total, fails) = perform_writes_lem actions s (omega (arith, h)) in
      (s', ap (log_write w) run, omega (arith, total), omega (arith, fails))
  perform_writes_lem (counted b ∷ actions) s h =
      let (s', run, total, fails) =
        perform_writes_lem actions (count_call (written b) s) (omega (arith, h)) in
      (s', run, omega (arith, count_written b s, total), ground (arith, count_written b s, fails))
  perform_writes_lem (crashes ∷ actions) s h = absurd (omega (arith, h))

module _ {C F : Type 0} (net : Transport C F) where
  write_cases :
      (w : Writer C) (items : List (TimeSeries F))
      → items ≢ []
      → IsEven w.opts.headers
      → ((is_some (net.marshal items) ≡ true) × (write net w items ≡ ok))
        ⊎ ((is_some (net.marshal items) ≡ false) × (write net w items ≡ failed))
  write_cases w items ne even =
      let (never, iff) = write_outcome net w items even in
      elim (Option-cases (net.marshal items)) [
        | inl e ↦ inr (rw e, iff.1 (ne, e))
        | inr (b, e) ↦ inl (rw e, outcome-ok _ never (λ f. cc (e, (iff.0 f).1)))
      ]

  -- The goroutine of a writer makes its write and one call of `snapshot`.
  pub goroutine_cases :
      (key : Text) (w : Writer C) (items : List (TimeSeries F))
      → items ≢ []
      → IsEven w.opts.headers
      → after_write key items (write net w items)
        ≡ wrote (record { key = key; items = items; ended = write net w items })
          ∷ counted (is_some (net.marshal items))
          ∷ []
  unfolding after_write
  goroutine_cases key w items ne even = elim (write_cases w items ne even) [
    | inl (marshalled, e) ↦ rw (e, marshalled, after_write) refl
    | inr (unmarshalled, e) ↦ rw (e, unmarshalled, after_write) refl
  ]

  -- The write of each registered writer.
  abbrev pub writes : Map (Writer C) → List (TimeSeries F) → List (Written F)
  writes m items = map (λ kw. record { key = kw.0; items = items; ended = write net kw.1 items }) m

  pub write_each_counts :
      (m : Map (Writer C)) (items : List (TimeSeries F))
      → items ≢ []
      → AllEven m
      → (total is_crash (write_each net m items) ≡ 0)
        × (total is_counted (write_each net m items) ≡ length m)
        × (total is_failure (write_each net m items)
            ≡ (if is_some (net.marshal items) then 0 else length m))
        × (collect log_of (flatten (write_each net m items)) ≡ writes m items)
  unfolding write_each flatten
  write_each_counts [] items ne even = (refl, refl, ground arith, refl)
  write_each_counts ((key, w) ∷ m) items ne even =
      let (crash, count, failure, log) = write_each_counts m items ne even.1 in
      rw (goroutine_cases key w items ne even.0, write_each)
        (
          omega (arith, crash),
          omega (arith, count),
          ground (arith, failure),
          ap (◌∷◌ (record { key = key; items = items; ended = write net w items })) log,
        )

  -- `WriteTimeSeries` of at least one series, if every header list is even, in whatever order its
  -- goroutines act: it never panics, writes the whole batch to every registered writer once, changes
  -- the counters only, and counts one write for each writer; it counts a failure for each if the
  -- series cannot be marshalled, and for none otherwise, whatever the endpoints answered.
  pub write_time_series_lem :
      (order : Order F) (items : List (TimeSeries F)) (ws : Writers C F)
      → ((gs : List (List (WriteAction F))) → Interleave gs (order gs))
      → items ≢ []
      → AllEven ws.writer_map
      → (s : Snapshot) × (log : List (Written F)) × (write_time_series net order items ws
          ≡ some (record ws { counters = s }, log))
        × Perm log (writes ws.writer_map items)
        × (s.write_total_count % 2 ^ 64
            ≡ (ws.counters.write_total_count + length ws.writer_map) % 2 ^ 64)
        × (s.write_fail_total % 2 ^ 64
            ≡ (ws.counters.write_fail_total
                + (if is_some (net.marshal items) then 0 else length ws.writer_map))
              % 2 ^ 64)
  unfolding write_time_series
  write_time_series_lem order [] ws runs ne even = absurd (ne refl)
  write_time_series_lem order (t ∷ items) ws runs ne even =
      let gs = write_each net ws.writer_map (t ∷ items) in
      let (crash, count, failure, log) = write_each_counts ws.writer_map (t ∷ items) ne even in
      let (s, run, total, fails) =
        perform_writes_lem (order gs) ws.counters (Interleave-count is_crash (runs gs) ∙ crash) in
      (
        s,
        collect log_of (order gs),
        rw (run, write_time_series),
        ∣ subst (Permᴰ (collect log_of (order gs))) log (Interleave-collect log_of (runs gs)) ∣₁,
        omega (arith, total, Interleave-count is_counted (runs gs), count),
        ground (arith, fails, Interleave-count is_failure (runs gs), failure),
      )
