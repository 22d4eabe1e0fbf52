-- ===== src/Writers/World.antt =====
-- The operations of the writers interleaved with the calls of `snapshot` that they have spawned.
use kubemonitor.Common.{
  ℕ, ◌+◌, ◌%◌, ◌^◌, ◌≡◌, Option, some, List, [], ◌∷◌, ◌++◌, arith, if◌then◌else◌, length, Text,
}
use kubemonitor.Common.Int.{ℤ}
use kubemonitor.Value.{Floats}
use kubemonitor.SafeList.{limited_push_front_n}
use kubemonitor.Sample.{Sample, TimeSeries}
use kubemonitor.Writer.{Transport, WriterOption}
use kubemonitor.Writers.{
  Writers, Written, WriteAction, Order, new_writers, snapshot, register, de_register, convert_all,
  write_samples, read_round,
}
use kubemonitor.Goroutines.{Interleave}
use kubemonitor.Counting.{Snapshot, SnapshotCall, queue_mode, write_mode, add64, count_call}

-- What a spawned call adds to the items offered, and to those refused.
abbrev pub offers : SnapshotCall → ℕ
offers c = elim c.mode [ queue_mode ↦ c.count | write_mode ↦ 0 ]

abbrev pub refuses : SnapshotCall → ℕ
refuses c = elim c.mode [ queue_mode ↦ if c.success then 0 else c.count | write_mode ↦ 0 ]

abbrev pub sum : (SnapshotCall → ℕ) → List SnapshotCall → ℕ
sum f [] = 0
sum f (c ∷ cs) = f c + sum f cs

pub sum-append :
    (f : SnapshotCall → ℕ) (xs ys : List SnapshotCall) → sum f (xs ++ ys) ≡ sum f xs + sum f ys
sum-append f [] ys = omega arith
sum-append f (x ∷ xs) ys = omega (arith, sum-append f xs ys)

pub count_call_lem :
    (c : SnapshotCall) (s : Snapshot)
    → ((count_call c s).queue_total_count % 2 ^ 64 ≡ (s.queue_total_count + offers c) % 2 ^ 64)
      × ((count_call c s).queue_fail_total % 2 ^ 64 ≡ (s.queue_fail_total + refuses c) % 2 ^ 64)
unfolding count_call add64
count_call_lem c s = ground arith

-- The writers, and the calls of `snapshot` that have been spawned and have not landed.
pub record World (C F : Type 0) : Type 0 where
  pub ws : Writers C F
  pub pending : List SnapshotCall

abbrev pub initial : {C F : Type 0} → ℤ → ℤ → World C F
initial chan_size batch = record { ws = new_writers chan_size batch; pending = [] }

module _ {C F : Type 0} (net : Transport C F) ⦃fl : Floats F⦄ where
  -- What the program reaches from `first`, with the number of series offered and of those refused.
  pub data Reach (first : World C F) : ℕ → ℕ → World C F → Type 0 where
    here : Reach first 0 0 first
    offer :
        {n k : ℕ} {w : World C F} {n' k' : ℕ} {ws' : Writers C F}
        (samples : List (Option (Sample F))) (items : List (TimeSeries F))
        (calls : List SnapshotCall)
        → Reach first n k w
        → write_samples samples w.ws ≡ some (ws', calls)
        → convert_all samples ≡ some items
        → n' ≡ n + length items
        → k' ≡ k + (if (limited_push_front_n items w.ws.queue).0 then 0 else length items)
        → Reach first n' k' (record { ws = ws'; pending = w.pending ++ calls })
    land :
        {n k : ℕ} {w : World C F} (c : SnapshotCall) (xs ys : List SnapshotCall)
        → Reach first n k w
        → w.pending ≡ xs ++ c ∷ ys
        → Reach first n k (record { ws = snapshot c w.ws; pending = xs ++ ys })
    read :
        {n k : ℕ} {w : World C F} {ws' : Writers C F} (order : Order F) (log : List (Written F))
        → ((gs : List (List (WriteAction F))) → Interleave gs (order gs))
        → Reach first n k w
        → read_round net order w.ws ≡ some (ws', log)
        → Reach first n k (record w { ws = ws' })
    enlist :
        {n k : ℕ} {w : World C F} (name : Text) (opt : WriterOption)
        → Reach first n k w
        → Reach first n k (record w { ws = (register net name opt w.ws).1 })
    dismiss :
        {n k : ℕ} {w : World C F} (name : Text)
        → Reach first n k w
        → Reach first n k (record w { ws = (de_register name w.ws).1 })
