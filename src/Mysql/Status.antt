-- ===== src/Mysql/Status.antt =====
-- internal/handlers/mysql/global_status.go: the status variables of the server.
use kubemonitor.Common.{
  Option, none, some, List, [], ◌∷◌, ◌++◌, ◌==◌, if◌then◌else◌, any, length, drop, Text, codes,
  text_eq, one_of, has_prefix, to_lower, split, Map, lookup, insert,
}
use kubemonitor.Common.Int.{pos}
use kubemonitor.Value.{Floats, float64, int}
use kubemonitor.Sample.{SampleList, copy}
use kubemonitor.Mysql.Config.{Instance}
use kubemonitor.Mysql.Rows.{Rows, Db, Times, push_labelled, push_plain, parse_status}

abbrev pub sql_global_status : Text
sql_global_status = codes "SHOW /*!50002 GLOBAL */ STATUS"

-- `(.*)$` behind a group and its `_`: without a line break.
abbrev pub rest_of_line : Text → Text → Option (Text × Text)
rest_of_line group s = if any (λ c. c == 10) s then none else some (group, s)

-- One alternative of `globalStatusRE`.
unfoldable pub match_group : Text → Text → Option (Text × Text)
match_group group key =
    let head = group ++ b'_' ∷ [] in
    if has_prefix key head then rest_of_line group (drop (length head) key) else none

-- The alternatives in turn.
unfoldable pub match_groups : List Text → Text → Option (Text × Text)
match_groups [] key = none
match_groups (group ∷ groups) key = elim (match_group group key) [
  | some m ↦ some m
  | none ↦ match_groups groups key
]

-- `globalStatusRE.FindStringSubmatch(key)`.
unfoldable pub status_match : Text → Option (Text × Text)
unfolding match_groups
status_match key =
    match_groups
      (codes "com"
        ∷ codes "handler"
        ∷ codes "connection_errors"
        ∷ codes "innodb_buffer_pool_pages"
        ∷ codes "innodb_rows"
        ∷ codes "performance_schema"
        ∷ [])
      key

abbrev pub page_states : List Text
page_states =
    codes "data" ∷ codes "free" ∷ codes "misc" ∷ codes "old" ∷ codes "total" ∷ codes "dirty" ∷ []

-- The variables of the loops over the rows.
pub record Scan (F : Type 0) : Type 0 where
  pub texts : Map Text
  pub cache : Map F
  pub slist : SampleList F

-- `textItems[key]`.
unfoldable pub text_item : Text → Map Text → Text
text_item key texts = elim (lookup key texts) [ some v ↦ v | none ↦ [] ]

abbrev pub status_texts : Map Text
status_texts =
    (codes "wsrep_local_state_uuid", [])
    ∷ (codes "wsrep_cluster_state_uuid", [])
    ∷ (codes "wsrep_provider_version", [])
    ∷ (codes "wsrep_evs_repl_latency", [])
    ∷ []

abbrev pub latency_names : List Text
latency_names =
    codes "min_seconds"
    ∷ codes "avg_seconds"
    ∷ codes "max_seconds"
    ∷ codes "stdev"
    ∷ codes "sample_size"
    ∷ []

module _ {F : Type 0} where
  -- A sample with what stands behind the group as its label.
  unfoldable pub push_under : Text → Text → Text → F → Map Text → SampleList F → SampleList F
  push_under metric label rest value tags slist =
      push_labelled metric (float64 value) tags ((label, rest) ∷ []) slist

  -- The `switch` over the group.
  unfoldable pub push_group : Text → Text → F → Map Text → SampleList F → SampleList F
  unfolding push_under
  push_group group rest value tags slist =
      if text_eq group (codes "com")
      then push_under (codes "global_status_commands_total") (codes "command") rest value tags slist
      else if text_eq group (codes "handler")
      then push_under (codes "global_status_handlers_total") (codes "handler") rest value tags slist
      else if text_eq group (codes "connection_errors")
      then push_under (codes "global_status_connection_errors_total") (codes "error") rest value
          tags slist
      else if text_eq group (codes "innodb_buffer_pool_pages")
      then if one_of page_states rest
        then push_plain (codes "global_status_buffer_pool_pages_" ++ rest) (float64 value) tags
            slist
        else push_under (codes "global_status_buffer_pool_page_changes_total") (codes "operation")
            rest value tags slist
      else if text_eq group (codes "innodb_rows")
      then push_under (codes "global_status_innodb_row_ops_total") (codes "operation") rest value
          tags slist
      else if text_eq group (codes "performance_schema")
      then push_under (codes "global_status_performance_schema_lost_total")
          (codes "instrumentation") rest value tags slist
      else slist

  unfoldable pub push_status : Text → F → Map Text → SampleList F → SampleList F
  unfolding push_group
  push_status key value tags slist = elim (status_match key) [
    | none ↦ push_plain (codes "global_status_" ++ key) (float64 value) tags slist
    | some (group, rest) ↦ push_group group rest value tags slist
  ]

  -- A number goes into the cache, and it is pushed if its name is valid.
  unfoldable pub note_number :
      (Text → F → SampleList F → SampleList F) → Map {0} Unit → Text → Option F → Scan F → Scan F
  note_number push valid key none st = st
  note_number push valid key (some value) st = elim (lookup key valid) [
    | none ↦ record st { cache = insert key value st.cache }
    | some u ↦ record st { cache = insert key value st.cache; slist = push key value st.slist }
  ]

-- The body of the loop over the rows: `push` is what is done with a valid number.
module _ {F : Type 0} ⦃fl : Floats F⦄ (times : Times)
    (push : Text → F → SampleList F → SampleList F) (valid : Map {0} Unit) where
  unfoldable pub scan_row : Text × Text → Scan F → Scan F
  unfolding note_number
  scan_row (name, val) st =
      let key = to_lower name in
      elim (lookup key st.texts) [
        | some t ↦ record st { texts = insert key val st.texts }
        | none ↦ note_number push valid key (parse_status times val) st
      ]

  -- A row that cannot be scanned is passed over.
  unfoldable pub scan_rows : List (Option (Text × Text)) → Scan F → Scan F
  unfolding scan_row
  scan_rows [] st = st
  scan_rows (none ∷ rows) st = scan_rows rows st
  scan_rows (some row ∷ rows) st = scan_rows rows (scan_row row st)

module _ {F : Type 0} ⦃fl : Floats F⦄ where
  -- The numbers of as many texts as there are names, or nothing.
  unfoldable pub latencies : List Text → List Text → Option (Map F)
  latencies [] [] = some []
  latencies [] (v ∷ values) = none
  latencies (name ∷ names) [] = none
  latencies (name ∷ names) (v ∷ values) = elim (fl.parse_float v) [
    | none ↦ none
    | some value ↦ elim (latencies names values) [
      | none ↦ none
      | some more ↦ some ((name, value) ∷ more)
    ]
  ]

  unfoldable pub push_latencies : Map F → Map Text → SampleList F → SampleList F
  push_latencies [] tags slist = slist
  push_latencies ((name, value) ∷ more) tags slist =
      push_latencies more tags
        (push_plain (codes "galera_evs_repl_latency_" ++ name) (float64 value) tags slist)

  -- Nothing, if a text is no number, or their count is not that of the names.
  unfoldable pub push_parsed : Option (Map F) → Map Text → SampleList F → SampleList F
  unfolding push_latencies
  push_parsed none tags slist = slist
  push_parsed (some values) tags slist = push_latencies values tags slist

  -- The samples behind the loop.
  unfoldable pub push_galera_status : Map Text → Map Text → SampleList F → SampleList F
  push_galera_status texts tags slist =
      let uuid = text_item (codes "wsrep_local_state_uuid") texts in
      if length uuid == 0
      then slist
      else push_labelled (codes "galera_status_info") (int (pos 1)) tags
          ((codes "wsrep_local_state_uuid", uuid)
            ∷ (codes "wsrep_cluster_state_uuid", text_item (codes "wsrep_cluster_state_uuid") texts)
            ∷ (codes "wsrep_provider_version", text_item (codes "wsrep_provider_version") texts)
            ∷ [])
          slist

  unfoldable pub push_evs : Map Text → Map Text → SampleList F → SampleList F
  unfolding latencies push_parsed
  push_evs texts tags slist =
      let latency = text_item (codes "wsrep_evs_repl_latency") texts in
      if length latency == 0
      then slist
      else push_parsed (latencies latency_names (split latency b'/')) tags slist

  -- What the rows leave: the cache and the list.
  unfoldable pub global_status :
      Times
      → Map {0} Unit
      → Rows (Text × Text)
      → Map Text
      → Map F
      → SampleList F
      → Map F × SampleList F
  unfolding scan_rows push_status push_galera_status push_evs
  global_status times valid none tags cache slist = (cache, slist)
  global_status times valid (some rows) tags cache slist =
      let st =
        scan_rows times (λ key value l. push_status key value tags l) valid rows
          (record { texts = status_texts; cache = cache; slist = slist }) in
      (st.cache, push_evs st.texts tags (push_galera_status st.texts tags st.slist))

  unfoldable pub gather_global_status :
      Times → Instance → Db → Map Text → Map F → SampleList F → Map F × SampleList F
  unfolding global_status
  gather_global_status times ins db tags cache slist =
      if ins.disable_global_status
      then (cache, slist)
      else global_status times ins.valid_metrics (db.pairs sql_global_status) (copy tags) cache
          slist
