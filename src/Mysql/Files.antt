-- ===== src/Mysql/Files.antt =====
-- What is pushed of the binary logs.
use kubemonitor.Common.{
  ℕ, ◌+◌, ◌%◌, ◌^◌, ◌<◌, ◌≡◌, ◌≢◌, inl, inr, refl, sym, ap, ◌∙◌, true, false, ◌||◌, Option, none,
  some, List, [], ◌∷◌, ◌++◌, map, append_assoc, append-nil, arith, ◌==◌, if◌then◌else◌, ==_iff,
  Bool-cases, Option-cases, length, Text, codes, Map,
}
use kubemonitor.Value.{Floats, Value, uint64, float64}
use kubemonitor.SafeList.{push_front}
use kubemonitor.SafeList.Fifo.{queue, queue-push_front}
use kubemonitor.Sample.{Sample, SampleList, new_sample, push_sample, copy}
use kubemonitor.Mysql.{input_name}
use kubemonitor.Mysql.Binlog.{
  Binlog, no_logs, add_file, binlog_rows, file_extension, push_file_number, push_binlog,
  gather_binlog,
}

abbrev pub sizes : List (Text × ℕ) → ℕ
sizes [] = 0
sizes ((f, n) ∷ files) = n + sizes files

abbrev pub last_name : Text → List (Text × ℕ) → Text
last_name f [] = f
last_name f ((g, n) ∷ files) = last_name g files

binlog_rows_lem :
    (columns : ℕ) (files : List (Text × ℕ)) (b : Binlog)
    → (columns == 2) || (columns == 3) ≡ true
    → (b' : Binlog) × (binlog_rows columns (map (λ f. some f) files) b ≡ some b')
      × (b'.size % 2 ^ 64 ≡ (b.size + sizes files) % 2 ^ 64)
      × (b'.count % 2 ^ 64 ≡ (b.count + length files) % 2 ^ 64)
      × (b'.filename ≡ last_name b.filename files)
      × (b.size < 2 ^ 64 → b.count < 2 ^ 64 → (b'.size < 2 ^ 64) × (b'.count < 2 ^ 64))
unfolding binlog_rows add_file
binlog_rows_lem columns [] b h = (b, refl, omega arith, omega arith, refl, λ x y. (x, y))
binlog_rows_lem columns ((f, n) ∷ files) b h =
    let (last, ran, size, count, name, small) = binlog_rows_lem columns files (add_file f n b) h in
    (
      last,
      rw (h, binlog_rows) ran,
      omega (arith, size),
      omega (arith, count),
      name,
      λ x y. small (omega arith) (omega arith),
    )

module _ {F : Type 0} ⦃fl : Floats F⦄ where
  abbrev pub binlog_sample : Text → Value F → Map Text → Option (Sample F)
  binlog_sample metric v tags = some (new_sample input_name metric v (copy tags ∷ []))

  -- The sample of the number of the last file, if its extension is one.
  abbrev pub number_samples : Option Text → Map Text → List (Option (Sample F))
  number_samples none tags = []
  number_samples (some n) tags = elim (fl.parse_float n) [
    | none ↦ []
    | some value ↦ binlog_sample (codes "binlog_file_number") (float64 value) tags ∷ []
  ]

  push_file_number-queue :
      (n : Option Text) (tags : Map Text) (l : SampleList F)
      → queue (push_file_number n (copy tags) l) ≡ queue l ++ number_samples n tags
  unfolding push_file_number push_sample
  push_file_number-queue none tags l = sym (append-nil (queue l))
  push_file_number-queue (some n) tags l = elim (Option-cases (fl.parse_float n)) [
    | inl e ↦ rw (e, push_file_number, number_samples) (sym (append-nil (queue l)))
    | inr (v, e) ↦ rw (e, push_file_number, number_samples) (queue-push_front _ l)
  ]

  two_pushed :
      (x y : Option (Sample F)) (l : SampleList F)
      → queue (push_front y (push_front x l)) ≡ queue l ++ x ∷ y ∷ []
  two_pushed x y l =
      queue-push_front y (push_front x l)
      ∙ ap (λ q. q ++ y ∷ []) (queue-push_front x l)
      ∙ append_assoc (queue l) (x ∷ []) (y ∷ [])

  push_binlog-queue :
      (b : Binlog) (tags : Map Text) (l : SampleList F)
      → queue (push_binlog b (copy tags) l)
        ≡ queue l
          ++ binlog_sample (codes "binlog_size_bytes") (uint64 b.size) tags
            ∷ binlog_sample (codes "binlog_file_count") (uint64 b.count) tags
            ∷ (if b.count == 0 then [] else number_samples (file_extension b.filename) tags)
  unfolding push_binlog push_sample
  push_binlog-queue b tags l =
      let x = binlog_sample (codes "binlog_size_bytes") (uint64 b.size) tags in
      let y = binlog_sample (codes "binlog_file_count") (uint64 b.count) tags in
      elim (Bool-cases (b.count == 0)) [
        | inl none_there ↦ rw none_there (two_pushed x y l)
        | inr some_there ↦ rw some_there (
            push_file_number-queue (file_extension b.filename) tags (push_front y (push_front x l))
            ∙ ap (λ q. q ++ number_samples (file_extension b.filename) tags) (two_pushed x y l)
            ∙ append_assoc (queue l) (x ∷ y ∷ []) _)
      ]

  -- With binary logging on, and rows of two or three columns that can all be scanned, the handler
  -- pushes the sum of the file sizes and the number of files, both modulo 2 ^ 64, in this order;
  -- and behind them, if that number is not 0, the extension of the last file's name, if it is a
  -- number.
  gather_binlog_lem :
      (log_bin columns : ℕ) (files : List (Text × ℕ)) (tags : Map Text) (l : SampleList F)
      → log_bin ≢ 0
      → (columns == 2) || (columns == 3) ≡ true
      → let size = sizes files % 2 ^ 64 in
        let count = length files % 2 ^ 64 in
        queue (
          gather_binlog false (some log_bin) (some (map (λ f. some f) files)) (some columns) tags l)
        ≡ queue l
          ++ binlog_sample (codes "binlog_size_bytes") (uint64 size) tags
            ∷ binlog_sample (codes "binlog_file_count") (uint64 count) tags
            ∷ (if count == 0 then [] else number_samples (file_extension (last_name [] files)) tags)
  unfolding gather_binlog
  gather_binlog_lem log_bin columns files tags l on two_or_three =
      let (b, ran, size, count, name, small) = binlog_rows_lem columns files no_logs two_or_three in
      let (small_size, small_count) = small (omega arith) (omega arith) in
      let exact_size : b.size ≡ sizes files % 2 ^ 64 = omega (arith, size, small_size) in
      let exact_count : b.count ≡ length files % 2 ^ 64 = omega (arith, count, small_count) in
      let off : (log_bin == 0) ≡ false = ground (arith, ==_iff log_bin 0) in
      rw (off, gather_binlog)
        (rw ran (push_binlog-queue b tags l ∙ rw (exact_size, exact_count, name)))
