-- ===== src/Counting.antt =====
-- internal/writer/writers.go: the counters, and what a call of `snapshot` does to them.
use kubemonitor.Common.{ℕ, ◌+◌, ◌%◌, ◌^◌, Bool, true, false}

-- The fields are `uint64`.
pub record Snapshot : Type 0 where
  pub queue_fail_count : ℕ
  pub queue_fail_total : ℕ
  pub queue_total_count : ℕ
  pub queue_size : ℕ
  pub write_total_count : ℕ
  pub write_fail_total : ℕ

-- The arguments of a call of `snapshot`.
pub data Mode : Type 0 where
  queue_mode write_mode : Mode

pub record SnapshotCall : Type 0 where
  pub count : ℕ
  pub size : ℕ
  pub success : Bool
  pub mode : Mode

-- `uint64` addition.
unfoldable pub add64 : ℕ → ℕ → ℕ
add64 a b = (a + b) % 2 ^ 64

abbrev pub no_counts : Snapshot
no_counts = record {
  queue_fail_count = 0;
  queue_fail_total = 0;
  queue_total_count = 0;
  queue_size = 0;
  write_total_count = 0;
  write_fail_total = 0;
}

count_queue : ℕ → ℕ → Bool → Snapshot → Snapshot
count_queue count size true s = record s {
  queue_total_count = add64 s.queue_total_count count;
  queue_size = size;
}
count_queue count size false s = record s {
  queue_total_count = add64 s.queue_total_count count;
  queue_size = size;
  queue_fail_count = add64 s.queue_fail_count 1;
  queue_fail_total = add64 s.queue_fail_total count;
}

count_write : ℕ → Bool → Snapshot → Snapshot
count_write count true s = record s { write_total_count = add64 s.write_total_count count }
count_write count false s = record s {
  write_total_count = add64 s.write_total_count count;
  write_fail_total = add64 s.write_fail_total 1;
}

-- The body of `snapshot`.
by_mode : Mode → ℕ → ℕ → Bool → Snapshot → Snapshot
unfolding count_queue count_write
by_mode queue_mode count size success s = count_queue count size success s
by_mode write_mode count size success s = count_write count success s

unfoldable pub count_call : SnapshotCall → Snapshot → Snapshot
unfolding by_mode
count_call c s = by_mode c.mode c.count c.size c.success s

-- `snapshot(1, 0, err == nil, "write")`.
abbrev pub written : Bool → SnapshotCall
written success = record { count = 1; size = 0; success = success; mode = write_mode }
