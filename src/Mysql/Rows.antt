-- ===== src/Mysql/Rows.antt =====
-- What the queries of internal/handlers/mysql share: the answers of the server, and samples. The
-- database driver is not part of the program; `none` is an error.
use kubemonitor.Common.{
  ℕ, Bool, Option, none, some, List, [], ◌∷◌, Text, codes, one_of, text_eq, to_lower, if◌then◌else◌,
  Map,
}
use kubemonitor.Common.Int.{ℤ, pos}
use kubemonitor.Value.{Floats, Value}
use kubemonitor.Sample.{SampleList, push_sample}
use kubemonitor.Mysql.{input_name}
use kubemonitor.Mysql.Processlist.{Row}

-- The rows of a query, each scanned; `none` is one that cannot be.
abbrev pub Rows : Type 0 → Type 0
Rows A = Option (List (Option A))

pub record TableRow : Type 0 where
  pub schema : Text
  pub table : Text
  pub index_size : ℤ
  pub data_size : ℤ

-- The answer of a query whose columns are not known: the names, and the rows.
pub record Columns : Type 0 where
  pub names : Option (List Text)
  pub rows : List (Option (List Text))

-- The server: whether it can be opened and answers a ping, and its answers by the text of a query.
pub record Db : Type 0 where
  pub opens : Text → Bool
  pub ping : Bool
  pub pairs : Text → Rows (Text × Text)
  pub triple : Text → Rows (Text × Text × Text)
  pub sizes : Text → Rows (Text × ℤ)
  pub tables : Text → Rows TableRow
  pub threads : Text → Rows Row
  pub log_bin : Option ℕ
  pub binlogs : Rows (Text × ℕ)
  pub binlog_columns : Option ℕ
  pub columns : Text → Option Columns

-- `time.Parse(layout, s)` and `Unix()` of its result: the zone of a name is that of the host.
pub record Times : Type 0 where
  pub parse_unix : Text → Text → Option ℤ

module _ {F : Type 0} where
  -- `slist.PushFront(types.NewSample(inputName, metric, value, tags, labels))`.
  unfoldable pub push_labelled : Text → Value F → Map Text → Map Text → SampleList F → SampleList F
  push_labelled metric value tags labels slist =
      push_sample input_name metric value (tags ∷ labels ∷ []) slist

  -- The same without labels of its own.
  unfoldable pub push_plain : Text → Value F → Map Text → SampleList F → SampleList F
  push_plain metric value tags slist = push_sample input_name metric value (tags ∷ []) slist

module _ {F : Type 0} ⦃fl : Floats F⦄ where
  unfoldable pub parse_time : Times → Text → Option F
  parse_time times s = elim (times.parse_unix (codes "Jan 02 15:04:05 2006 MST") s) [
    | some t ↦ some (fl.of_int t)
    | none ↦ elim (times.parse_unix (codes "2006-01-02 15:04:05") s) [
      | some t ↦ some (fl.of_int t)
      | none ↦ fl.parse_float s
    ]
  ]

  -- `parseStatus`: the words first, of which one case of the code gives the 1 and the other the 0.
  unfoldable pub parse_status : Times → Text → Option F
  unfolding parse_time to_lower
  parse_status times s =
      let word = to_lower s in
      if one_of (codes "yes" ∷ codes "on" ∷ []) word
      then some (fl.of_int (pos 1))
      else if one_of (codes "no" ∷ codes "off" ∷ codes "disabled" ∷ []) word
      then some (fl.of_int (pos 0))
      else if text_eq word (codes "connecting")
      then some (fl.of_int (pos 0))
      else if text_eq word (codes "primary")
      then some (fl.of_int (pos 1))
      else if one_of (codes "non-primary" ∷ codes "disconnected" ∷ []) word
      then some (fl.of_int (pos 0))
      else parse_time times s
