-- ===== src/Mysql/Sizes.antt =====
-- internal/handlers/mysql/schema_size.go, table_size.go and processlist_by_user.go: a loop over
-- rows each, which a row that cannot be scanned ends.
use kubemonitor.Common.{Bool, true, false, Option, none, some, List, [], ◌∷◌, Text, codes, Map}
use kubemonitor.Common.Int.{ℤ}
use kubemonitor.Value.{int64}
use kubemonitor.Sample.{SampleList, copy}
use kubemonitor.Mysql.Config.{Instance}
use kubemonitor.Mysql.Rows.{Rows, TableRow, Db, push_labelled}

abbrev pub sql_query_schema_size : Text
sql_query_schema_size =
    codes
      "\nSELECT   table_schema, IFNULL(SUM(data_length+index_length),0) AS total_bytes\nFROM     information_schema.tables\nGROUP BY table_schema"

abbrev pub sql_query_table_size : Text
sql_query_table_size =
    codes
      "\nSELECT   table_schema, table_name,\n         IFNULL(index_length,0) AS index_size_bytes,\n         IFNULL(data_length,0) AS data_size_bytes\nFROM     information_schema.tables\nWHERE    table_schema not in ('mysql', 'performance_schema', 'information_schema')"

abbrev pub sql_query_system_table_size : Text
sql_query_system_table_size =
    codes
      "\nSELECT   table_schema, table_name,\n         IFNULL(index_length,0) AS index_size_bytes,\n         IFNULL(data_length,0) AS data_size_bytes\nFROM     information_schema.tables\nWHERE    table_schema in ('mysql', 'performance_schema', 'information_schema')"

abbrev pub sql_info_schema_processlist_by_user : Text
sql_info_schema_processlist_by_user =
    codes "SELECT user, sum(1) AS connections FROM INFORMATION_SCHEMA.PROCESSLIST GROUP BY user"

module _ {F : Type 0} where
  -- The loop of the three files, with the body of each.
  unfoldable pub push_rows {ℓ} :
      {A : Type ℓ}
      → (A → SampleList F → SampleList F)
      → List (Option A)
      → SampleList F
      → SampleList F
  push_rows push [] slist = slist
  push_rows push (none ∷ rows) slist = slist
  push_rows push (some row ∷ rows) slist = push_rows push rows (push row slist)

  -- The answer of a query, if it is asked for and there is one.
  unfoldable pub push_answer :
      {A : Type 0} → Bool → Rows A → (A → SampleList F → SampleList F) → SampleList F → SampleList F
  unfolding push_rows
  push_answer false rows push slist = slist
  push_answer true none push slist = slist
  push_answer true (some rows) push slist = push_rows push rows slist

  unfoldable pub push_schema : Map Text → Text × ℤ → SampleList F → SampleList F
  push_schema labels (schema, size) slist =
      push_labelled (codes "schema_size_bytes") (int64 size) labels ((codes "schema", schema) ∷ [])
        slist

  unfoldable pub gather_schema_size : Instance → Db → Map Text → SampleList F → SampleList F
  unfolding push_answer push_schema
  gather_schema_size ins db tags slist =
      push_answer ins.gather_schema_size (db.sizes sql_query_schema_size) (push_schema (copy tags))
        slist

  unfoldable pub push_table : Map Text → TableRow → SampleList F → SampleList F
  push_table labels row slist =
      let own = (codes "schema", row.schema) ∷ (codes "table", row.table) ∷ [] in
      push_labelled (codes "table_size_data_bytes") (int64 row.data_size) labels own
        (push_labelled (codes "table_size_index_bytes") (int64 row.index_size) labels own slist)

  unfoldable pub gather_table_size : Instance → Db → Map Text → Bool → SampleList F → SampleList F
  unfolding push_answer push_table
  gather_table_size ins db tags true slist =
      push_answer ins.gather_system_table_size (db.tables sql_query_system_table_size)
        (push_table (copy tags)) slist
  gather_table_size ins db tags false slist =
      push_answer ins.gather_table_size (db.tables sql_query_table_size) (push_table (copy tags))
        slist

  unfoldable pub push_user : Map Text → Text × ℤ → SampleList F → SampleList F
  push_user labels (user, connections) slist =
      push_labelled (codes "processlist_processes_by_user") (int64 connections) labels
        ((codes "user", user) ∷ []) slist

  unfoldable pub gather_processlist_by_user : Instance → Db → Map Text → SampleList F → SampleList F
  unfolding push_answer push_user
  gather_processlist_by_user ins db tags slist =
      push_answer ins.gather_processlist_process_by_user
        (db.sizes sql_info_schema_processlist_by_user) (push_user (copy tags)) slist
