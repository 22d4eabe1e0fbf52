-- ===== src/Mysql/Binlog.antt =====
-- internal/handlers/mysql/binlog.go: the number of the binary logs, their size, and the number of
-- the last one.
use kubemonitor.Common.{
  ℕ, ◌+◌, ◌%◌, ◌^◌, Bool, true, false, ◌||◌, Option, none, some, List, [], ◌∷◌, ◌==◌, if◌then◌else◌,
  Text, codes, split, Map,
}
use kubemonitor.Value.{Floats, uint64, float64}
use kubemonitor.Sample.{SampleList, push_sample, copy}
use kubemonitor.Mysql.{input_name}

-- The variables of the loop over the rows.
pub record Binlog : Type 0 where
  pub size : ℕ
  pub count : ℕ
  pub filename : Text
  pub filesize : ℕ

abbrev pub no_logs : Binlog
no_logs = record { size = 0; count = 0; filename = []; filesize = 0 }

-- `size += filesize` and `count++`, in 64 bits.
unfoldable pub add_file : Text → ℕ → Binlog → Binlog
add_file filename filesize b = record {
  size = (b.size + filesize) % 2 ^ 64;
  count = (b.count + 1) % 2 ^ 64;
  filename = filename;
  filesize = filesize;
}

-- A row with its file name and size; `none` is one that cannot be scanned. Where the number of
-- columns is neither 2 nor 3, the row is not read, and the old variables are counted.
unfoldable pub binlog_rows : ℕ → List (Option (Text × ℕ)) → Binlog → Option Binlog
unfolding add_file
binlog_rows columns [] b = some b
binlog_rows columns (row ∷ rows) b =
    if (columns == 2) || (columns == 3)
    then elim row [ none ↦ none | some (f, n) ↦ binlog_rows columns rows (add_file f n b) ]
    else binlog_rows columns rows (add_file b.filename b.filesize b)

-- `strings.Split(filename, ".")[1]`.
unfoldable pub file_extension : Text → Option Text
file_extension filename = elim (split filename b'.') [ f ∷ n ∷ rest ↦ some n | _ ↦ none ]

module _ {F : Type 0} ⦃fl : Floats F⦄ where
  unfoldable pub push_file_number : Option Text → Map Text → SampleList F → SampleList F
  push_file_number none tags slist = slist
  push_file_number (some n) tags slist = elim (fl.parse_float n) [
    | none ↦ slist
    | some value ↦
        push_sample input_name (codes "binlog_file_number") (float64 value) (tags ∷ []) slist
  ]

  unfoldable pub push_binlog : Binlog → Map Text → SampleList F → SampleList F
  unfolding file_extension push_file_number
  push_binlog b tags slist =
      let pushed =
        push_sample input_name (codes "binlog_file_count") (uint64 b.count) (tags ∷ [])
          (push_sample input_name (codes "binlog_size_bytes") (uint64 b.size) (tags ∷ []) slist) in
      if b.count == 0 then pushed else push_file_number (file_extension b.filename) tags pushed

  -- The flag is `DisablebinLogs`; then the answers: `log_bin`, the rows, and their columns.
  unfoldable pub gather_binlog :
      Bool
      → Option ℕ
      → Option (List (Option (Text × ℕ)))
      → Option ℕ
      → Map Text
      → SampleList F
      → SampleList F
  gather_binlog true log_bin rows columns tags slist = slist
  gather_binlog false none rows columns tags slist = slist
  gather_binlog false (some log_bin) none columns tags slist = slist
  gather_binlog false (some log_bin) (some rows) none tags slist = slist
  gather_binlog false (some log_bin) (some rows) (some columns) tags slist =
      if log_bin == 0 then slist else elim (binlog_rows columns rows no_logs) [
        | none ↦ slist
        | some b ↦ push_binlog b (copy tags) slist
      ]
