-- ===== src/Writers/Delivery.antt =====
-- What each writer is given.
use kubemonitor.Common.{
  ℕ, ◌≤◌, ◌≡◌, ◌≢◌, inl, inr, refl, ap, subst, ◌∙◌, true, none, some, List, [], ◌∷◌, ◌++◌,
  append-nil, arith, if◌then◌else◌, Bool-cases, length, All, All-append, Text, text_eq,
  text_eq_sound, Map, lookup, Distinct, is_some,
}
use kubemonitor.Sample.{TimeSeries}
use kubemonitor.Goroutines.{
  Interleave, Interleave-count, Interleave-All, collect, collect-append, Sole, sole, other,
  Interleave-Sole,
}
use kubemonitor.Writer.{Writer, Transport}
use kubemonitor.Writers.{Writers, Written, WriteAction, Order, write_each, write_time_series}
use kubemonitor.Writers.Fanout.{
  AllEven, log_of, is_crash, perform_writes_lem, goroutine_cases, write_each_counts,
}
use kubemonitor.Counting.{Snapshot}

module _ {F : Type 0} where
  -- What a write gave to one writer.
  abbrev pub one_to : Text → Written F → List (TimeSeries F)
  one_to key w = if text_eq w.key key then w.items else []

  -- What the writes gave to it, put together.
  abbrev pub written_to : Text → List (Written F) → List (TimeSeries F)
  written_to key = collect (one_to key)

  abbrev given : Text → WriteAction F → List (TimeSeries F)
  given key a = written_to key (log_of a)

  written_to-collect :
      (key : Text) (actions : List (WriteAction F))
      → written_to key (collect log_of actions) ≡ collect (given key) actions
  written_to-collect key [] = refl
  written_to-collect key (a ∷ actions) =
      collect-append (one_to key) (log_of a) (collect log_of actions)
      ∙ ap (λ l. given key a ++ l) (written_to-collect key actions)

module _ {C F : Type 0} (net : Transport C F) where
  nothing_given :
      (key : Text) (m : Map (Writer C)) (items : List (TimeSeries F))
      → items ≢ []
      → AllEven m
      → lookup key m ≡ none
      → All (λ g. collect (given key) g ≡ []) (write_each net m items)
  unfolding write_each lookup
  nothing_given key [] items ne even e = tt
  nothing_given key ((k, w) ∷ m) items ne even e = elim (Bool-cases (text_eq k key)) [
    | inl same ↦ absurd (ground (arith, e, same))
    | inr differs ↦ (
      rw (goroutine_cases net k w items ne even.0) (rw differs),
      nothing_given key m items ne even.1 (ground (arith, e, differs)),
    )
  ]

  items_given :
      (key : Text) (m : Map (Writer C)) (items : List (TimeSeries F))
      → items ≢ []
      → AllEven m
      → Distinct m
      → is_some (lookup key m) ≡ true
      → Sole (given key) items (write_each net m items)
  unfolding write_each lookup
  items_given key [] items ne even d e = absurd (cc)
  items_given key ((k, w) ∷ m) items ne even d e = elim (Bool-cases (text_eq k key)) [
    | inl same ↦
        sole
          (rw (goroutine_cases net k w items ne even.0)
            (rw same (append-nil (items ++ []) ∙ append-nil items)))
          (nothing_given key m items ne even.1
            (subst (λ j. lookup j m ≡ none) (text_eq_sound k key same) d.0))
    | inr differs ↦
        other (rw (goroutine_cases net k w items ne even.0) (rw differs))
          (items_given key m items ne even.1 d.1 (ground (arith, e, differs)))
  ]

  -- No goroutine writes more than the batch.
  abbrev IsSmall : ℕ → WriteAction F → Type 0
  IsSmall n a = All (λ (w : Written F). length w.items ≤ n) (log_of a)

  write_each-IsSmall :
      (m : Map (Writer C)) (items : List (TimeSeries F)) (n : ℕ)
      → items ≢ []
      → AllEven m
      → length items ≤ n
      → All (All (IsSmall n)) (write_each net m items)
  unfolding write_each
  write_each-IsSmall [] items n ne even h = tt
  write_each-IsSmall ((key, w) ∷ m) items n ne even h = (
    rw (goroutine_cases net key w items ne even.0) ((h, tt), (tt, tt)),
    write_each-IsSmall m items n ne even.1 h,
  )

  small_log :
      (n : ℕ) (actions : List (WriteAction F))
      → All (IsSmall n) actions
      → All (λ (w : Written F). length w.items ≤ n) (collect log_of actions)
  small_log n [] h = tt
  small_log n (a ∷ actions) h =
      All-append (λ (w : Written F). length w.items ≤ n) (log_of a) (collect log_of actions) h.0
        (small_log n actions h.1)

  -- Every registered writer is given the whole batch, in its order.
  pub write_time_series-delivered :
      (order : Order F) (items : List (TimeSeries F)) (ws : Writers C F)
      → ((gs : List (List (WriteAction F))) → Interleave gs (order gs))
      → items ≢ []
      → AllEven ws.writer_map
      → Distinct ws.writer_map
      → (s : Snapshot) × (log : List (Written F)) × (write_time_series net order items ws
          ≡ some (record ws { counters = s }, log))
        × ((key : Text) → is_some (lookup key ws.writer_map) ≡ true → written_to key log ≡ items)
        × ((n : ℕ) → length items ≤ n → All (λ (w : Written F). length w.items ≤ n) log)
  unfolding write_time_series
  write_time_series-delivered order [] ws runs ne even d = absurd (ne refl)
  write_time_series-delivered order (t ∷ items) ws runs ne even d =
      let gs = write_each net ws.writer_map (t ∷ items) in
      let (crash, count, failure, log) = write_each_counts net ws.writer_map (t ∷ items) ne even in
      let (s, run, total, fails) =
        perform_writes_lem (order gs) ws.counters (Interleave-count is_crash (runs gs) ∙ crash) in
      (
        s,
        collect log_of (order gs),
        rw (run, write_time_series),
        (λ key e.
            written_to-collect key (order gs)
            ∙ Interleave-Sole (given key) (runs gs)
                (items_given key ws.writer_map (t ∷ items) ne even d e)),
        λ n h. small_log n (order gs) (
            Interleave-All (IsSmall n) (runs gs)
              (write_each-IsSmall ws.writer_map (t ∷ items) n ne even h)),
      )
