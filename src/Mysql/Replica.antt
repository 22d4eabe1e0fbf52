-- ===== src/Mysql/Replica.antt =====
-- internal/handlers/mysql/slave_status.go: the status of a replica.
use kubemonitor.Common.{
  Option, none, some, List, [], ◌∷◌, ◌++◌, ◌==◌, if◌then◌else◌, length, Text, codes, text_eq,
  to_lower, Map, lookup,
}
use kubemonitor.Value.{Floats, float64}
use kubemonitor.Sample.{SampleList}
use kubemonitor.Mysql.Config.{Instance}
use kubemonitor.Mysql.Rows.{Columns, Db, Times, push_labelled, parse_status}

abbrev pub slave_status_queries : List Text
slave_status_queries = codes "SHOW ALL SLAVES STATUS" ∷ codes "SHOW SLAVE STATUS" ∷ []

abbrev pub slave_status_query_suffixes : List Text
slave_status_query_suffixes = codes " NONBLOCKING" ∷ codes " NOLOCK" ∷ [] ∷ []

-- The inner loop of `querySlaveStatus`.
unfoldable pub query_suffixes : (Text → Option Columns) → Text → List Text → Option Columns
query_suffixes query text [] = none
query_suffixes query text (suffix ∷ suffixes) = elim (query (text ++ suffix)) [
  | some rows ↦ some rows
  | none ↦ query_suffixes query text suffixes
]

-- The outer loop.
unfoldable pub query_each : (Text → Option Columns) → List Text → Option Columns
unfolding query_suffixes
query_each query [] = none
query_each query (text ∷ texts) = elim (query text) [
  | some rows ↦ some rows
  | none ↦ elim (query_suffixes query text slave_status_query_suffixes) [
    | some rows ↦ some rows
    | none ↦ query_each query texts
  ]
]

unfoldable pub query_slave_status : Db → Option Columns
unfolding query_each
query_slave_status db = query_each db.columns slave_status_queries

-- `columnValue`, with the loop of `columnIndex`: the first column of the name.
unfoldable pub column_value : List Text → List Text → Text → Text
column_value [] cells name = []
column_value (col ∷ cols) [] name = []
column_value (col ∷ cols) (cell ∷ cells) name =
    if text_eq col name then cell else column_value cols cells name

-- `default` where neither server names a channel.
unfoldable pub channel_name : List Text → List Text → Text
unfolding column_value
channel_name cols cells =
    let connection = column_value cols cells (codes "Connection_name") in
    let channel =
      if length connection == 0
      then column_value cols cells (codes "Channel_Name")
      else connection in
    if length channel == 0 then codes "default" else channel

unfoldable pub slave_labels : List Text → List Text → Map Text
unfolding channel_name
slave_labels cols cells =
    (codes "master_host", column_value cols cells (codes "Master_Host"))
    ∷ (codes "master_uuid", column_value cols cells (codes "Master_UUID"))
    ∷ (codes "channel_name", channel_name cols cells)
    ∷ []

module _ {F : Type 0} ⦃fl : Floats F⦄ where
  unfoldable pub push_column : Text → Option F → Map Text → Map Text → SampleList F → SampleList F
  push_column key none tags labels slist = slist
  push_column key (some value) tags labels slist =
      push_labelled (codes "slave_status_" ++ key) (float64 value) tags labels slist

  -- The columns of a row, each with its cell: a scanned row has a cell for each column.
  unfoldable pub push_columns :
      Times
      → Map {0} Unit
      → List Text
      → List Text
      → Map Text
      → Map Text
      → SampleList F
      → SampleList F
  unfolding push_column
  push_columns times valid [] cells tags labels slist = slist
  push_columns times valid (col ∷ cols) [] tags labels slist = slist
  push_columns times valid (col ∷ cols) (cell ∷ cells) tags labels slist =
      let key = to_lower col in
      elim (lookup key valid) [
        | none ↦ push_columns times valid cols cells tags labels slist
        | some u ↦
            push_columns times valid cols cells tags labels
              (push_column key (parse_status times cell) tags labels slist)
      ]

  -- A row that cannot be scanned is passed over.
  unfoldable pub push_slaves :
      Times
      → Map {0} Unit
      → List Text
      → List (Option (List Text))
      → Map Text
      → SampleList F
      → SampleList F
  unfolding push_columns slave_labels
  push_slaves times valid cols [] tags slist = slist
  push_slaves times valid cols (none ∷ rows) tags slist =
      push_slaves times valid cols rows tags slist
  push_slaves times valid cols (some cells ∷ rows) tags slist =
      push_slaves times valid cols rows tags
        (push_columns times valid cols cells tags (slave_labels cols cells) slist)

  unfoldable pub slave_status :
      Times → Map {0} Unit → Option Columns → Map Text → SampleList F → SampleList F
  unfolding push_slaves
  slave_status times valid none tags slist = slist
  slave_status times valid (some answer) tags slist = elim answer.names [
    | none ↦ slist
    | some cols ↦ push_slaves times valid cols answer.rows tags slist
  ]

  unfoldable pub gather_slave_status :
      Times → Instance → Db → Map Text → SampleList F → SampleList F
  unfolding slave_status query_slave_status
  gather_slave_status times ins db tags slist =
      if ins.gather_slave_status
      then slave_status times ins.valid_metrics (query_slave_status db) tags slist
      else slist
