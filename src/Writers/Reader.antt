-- ===== src/Writers/Reader.antt =====
-- The reader of the queue.
use kubemonitor.Common.{
  ℕ, zero, suc, ◌≤◌, ◌<◌, ◌≡◌, refl, sym, ap, subst, ◌∙◌, true, some, List, [], ◌∷◌, ◌++◌,
  append_assoc, arith, length, take, drop, All, All-append, take-append-drop, length-drop,
  length-take, Text, Map, lookup, Distinct, is_some,
}
use mathlib.Core.List.{cons-ne-nil}
use kubemonitor.Common.Int.{pos}
use kubemonitor.SafeList.{limited_pop_back_n, pop_back_n}
use kubemonitor.SafeList.Fifo.{queue, pop_back_n_lem}
use kubemonitor.Sample.{TimeSeries}
use kubemonitor.Goroutines.{Interleave, collect-append}
use kubemonitor.Writer.{Writer, Transport}
use kubemonitor.Writers.{
  Writers, Written, WriteAction, Order, write_time_series, read_round, loop_read,
}
use kubemonitor.Writers.Fanout.{AllEven}
use kubemonitor.Writers.Delivery.{one_to, written_to, write_time_series-delivered}

nothing : {A : Type 0} (q : List A) → length q ≤ 0 → q ≡ []
nothing [] h = refl
nothing (x ∷ q) h = absurd (omega arith)

module _ {C F : Type 0} (net : Transport C F) where
  -- Every registered writer was given these series, in their order.
  abbrev pub Delivered : Map (Writer C) → List (TimeSeries F) → List (Written F) → Type 0
  Delivered m series log =
      (key : Text) → is_some (lookup key m) ≡ true → written_to key log ≡ series

  -- What stays as it is, what a round takes from the queue, and what it writes.
  record Took (n : ℕ) (log : List (Written F)) (ws ws' : Writers C F) : Type 0 where
    writer_map : ws'.writer_map ≡ ws.writer_map
    batch : ws'.batch ≡ ws.batch
    left : queue ws'.queue.sl ≡ drop n (queue ws.queue.sl)
    delivered : Delivered ws.writer_map (take n (queue ws.queue.sl)) log
    small : All (λ (w : Written F). length w.items ≤ n) log

  written_round :
      (order : Order F) (n : ℕ) (series : List (TimeSeries F)) (ws mid : Writers C F)
      → ((gs : List (List (WriteAction F))) → Interleave gs (order gs))
      → AllEven ws.writer_map
      → Distinct ws.writer_map
      → series ≡ take n (queue ws.queue.sl)
      → mid.writer_map ≡ ws.writer_map
      → mid.batch ≡ ws.batch
      → queue mid.queue.sl ≡ drop n (queue ws.queue.sl)
      → (ws' : Writers C F) × (log : List (Written F)) × (write_time_series net order series mid
          ≡ some (ws', log))
        × Took n log ws ws'
  unfolding write_time_series
  written_round order n [] ws mid runs even d taken m b left = (
    mid,
    [],
    refl,
    record { writer_map = m; batch = b; left = left; delivered = λ key e. taken; small = tt },
  )
  written_round order n (x ∷ series) ws mid runs even d taken m b left =
      let (s, log, run, given, whole) =
        write_time_series-delivered net order (x ∷ series) mid runs (cons-ne-nil x series)
          (subst AllEven (sym m) even) (subst Distinct (sym m) d) in
      (
        record mid { counters = s },
        log,
        run,
        record {
          writer_map = m;
          batch = b;
          left = left;
          delivered = λ key e. given key (ap (λ l. is_some (lookup key l)) m ∙ e) ∙ taken;
          small = whole n (omega (arith, ap length taken, length-take n (queue ws.queue.sl)));
        },
      )

  read_round_lem :
      (order : Order F) (n : ℕ) (ws : Writers C F)
      → ((gs : List (List (WriteAction F))) → Interleave gs (order gs))
      → ws.batch ≡ pos n
      → AllEven ws.writer_map
      → Distinct ws.writer_map
      → (ws' : Writers C F) × (log : List (Written F)) × (read_round net order ws ≡ some (ws', log))
        × Took n log ws ws'
  unfolding read_round limited_pop_back_n
  read_round_lem order n ws runs b even d =
      let (rest, popped, left) = pop_back_n_lem n ws.queue.sl in
      let (ws', log, run, took) =
        written_round order n (take n (queue ws.queue.sl)) ws
          (record ws { queue = record (ws.queue) { sl = rest } }) runs even d refl refl refl left in
      (ws', log, rw (ap (λ m. pop_back_n m ws.queue.sl) b ∙ popped, read_round) run, took)

  -- With a batch size of `n`, even header lists and no key twice in the map, in whatever order the
  -- goroutines of each round act: no round of the reader panics, and what is written to a registered
  -- writer is the queue, from the oldest series on. Put together, the batches written to the writer
  -- and what is left in the queue are the queue; no write has more than `n` series; and with as many
  -- rounds as there are series, and `n` positive, nothing is left.
  pub loop_read_lem :
      (rounds n : ℕ) (orders : ℕ → Order F) (ws : Writers C F)
      → ((i : ℕ) (gs : List (List (WriteAction F))) → Interleave gs (orders i gs))
      → ws.batch ≡ pos n
      → AllEven ws.writer_map
      → Distinct ws.writer_map
      → (ws' : Writers C F) × (log : List (Written F)) × (loop_read rounds net orders ws
          ≡ some (ws', log))
        × ((key : Text)
            → is_some (lookup key ws.writer_map) ≡ true
            → written_to key log ++ queue ws'.queue.sl ≡ queue ws.queue.sl)
        × All (λ (w : Written F). length w.items ≤ n) log
        × (0 < n → length (queue ws.queue.sl) ≤ rounds → queue ws'.queue.sl ≡ [])
  unfolding loop_read
  loop_read_lem zero n orders ws runs b even d =
      (ws, [], refl, (λ key e. refl), tt, λ pos_n. nothing (queue ws.queue.sl))
  loop_read_lem (suc r) n orders ws runs b even d =
      let (mid, log, run, took) = read_round_lem (orders r) n ws (runs r) b even d in
      let (last, logs, more, all, small, none_left) =
        loop_read_lem r n orders mid runs (took.batch ∙ b)
          (subst AllEven (sym took.writer_map) even) (subst Distinct (sym took.writer_map) d) in
      (
        last,
        log ++ logs,
        rw (run, loop_read) (rw more),
        (λ key e.
            ap (λ l. l ++ queue last.queue.sl)
              (collect-append (one_to key) log logs
                ∙ ap (λ l. l ++ written_to key logs) (took.delivered key e))
            ∙ append_assoc (take n (queue ws.queue.sl)) (written_to key logs) (queue last.queue.sl)
            ∙ ap (λ l. take n (queue ws.queue.sl) ++ l)
                (all key (ap (λ m. is_some (lookup key m)) took.writer_map ∙ e) ∙ took.left)
            ∙ take-append-drop n (queue ws.queue.sl)),
        All-append (λ (w : Written F). length w.items ≤ n) log logs took.small small,
        λ pos_n h.
            none_left pos_n (omega (arith, ap length took.left, length-drop n (queue ws.queue.sl))),
      )
