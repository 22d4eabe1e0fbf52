-- ===== src/Clickhouse/Tables.antt =====
-- The tables that the ClickHouse handler reads, and the samples of their rows.
use kubemonitor.Common.{
  ℕ, Bool, true, false, Option, none, some, List, [], ◌∷◌, ◌++◌, ltb, if◌then◌else◌, Text, codes,
  Map, lookup,
}
use kubemonitor.Strconv.Decimal.{print_uint}
use kubemonitor.Value.{Value, float64}
use kubemonitor.Sample.{SampleList}
use kubemonitor.Writer.{Outcome, ok, failed}
use kubemonitor.Stringx.{snake_case}
use kubemonitor.Clickhouse.{Instance, Connect, make_default_tags, unmarshal_ch_uint64}
use kubemonitor.Clickhouse.Queries.{
  system_events_sql, system_metrics_sql, system_async_metrics_sql, system_parts_sql,
  system_zookeeper_exists_sql, system_zookeeper_root_nodes_sql, system_replication_exists_sql,
  system_replication_num_tries_sql, system_detached_parts_sql, system_dictionaries_sql,
  system_mutation_sql, system_disks_sql, system_processes_sql, system_text_log_exists_sql,
  system_text_log_sql,
}
use kubemonitor.Clickhouse.Requests.{Net, MetricRow, exec_query}
use kubemonitor.Clickhouse.Rows.{
  push, push_rows, push_parts, push_disk, push_dictionary, push_process, push_message, push_tries,
  push_root_nodes, push_detached, push_mutations, Scraped,
}

-- The first row is there and above 0.
abbrev pub first_positive : List ℕ → Bool
first_positive [] = false
first_positive (n ∷ rows) = ltb 0 n

abbrev pub with_url : {U F : Type 0} → U → Outcome × SampleList F → Scraped U F
with_url u (o, slist) = (o, u, slist)

module _ {U F : Type 0} where
  -- A query whose rows are pushed.
  unfoldable pub query_push :
      {A : Type 0}
      → (List A → SampleList F → Outcome × SampleList F)
      → Option (List A) × U
      → SampleList F
      → Scraped U F
  query_push body (none, u) slist = (failed, u, slist)
  query_push body (some rows, u) slist = with_url u (body rows slist)

  -- A first query asks whether the table is there; the second one is sent if it is.
  unfoldable pub if_there :
      (U → SampleList F → Scraped U F) → Option (List ℕ) × U → SampleList F → Scraped U F
  if_there go (none, u) slist = (failed, u, slist)
  if_there go (some rows, u) slist = if first_positive rows then go u slist else (ok, u, slist)

-- `commonMetrics` and `commonMetricsIsFloat`.
abbrev pub common_metrics : Map Text
common_metrics =
    (codes "events", system_events_sql)
    ∷ (codes "metrics", system_metrics_sql)
    ∷ (codes "asynchronous_metrics", system_async_metrics_sql)
    ∷ []

abbrev pub common_metrics_is_float : Map Bool
common_metrics_is_float =
    (codes "events", false) ∷ (codes "metrics", false) ∷ (codes "asynchronous_metrics", true) ∷ []

abbrev pub sql_of : Option Text → Text
sql_of (some sql) = sql
sql_of none = []

abbrev pub is_float_of : Option Bool → Bool
is_float_of (some b) = b
is_float_of none = false

module _ {U B F : Type 0} (net : Net U B F) where
  unfoldable pub tables : Instance → Connect U → SampleList F → Scraped U F
  unfolding query_push
  tables ins conn slist =
      query_push (λ parts l. (ok, push_parts (make_default_tags conn) parts l))
        (exec_query net ins (net.decode.parts unmarshal_ch_uint64) system_parts_sql conn.url) slist

  unfoldable pub disks : Instance → Connect U → SampleList F → Scraped U F
  unfolding query_push
  disks ins conn slist =
      query_push (λ rows l. (ok, push_rows (push_disk (make_default_tags conn)) rows l))
        (exec_query net ins (net.decode.disks unmarshal_ch_uint64) system_disks_sql conn.url) slist

  unfoldable pub dictionaries : Instance → Connect U → SampleList F → Scraped U F
  unfolding query_push
  dictionaries ins conn slist =
      query_push (λ rows l. (ok, push_rows (push_dictionary (make_default_tags conn)) rows l))
        (exec_query net ins (net.decode.dictionaries unmarshal_ch_uint64) system_dictionaries_sql
          conn.url)
        slist

  unfoldable pub mutations : Instance → Connect U → SampleList F → Scraped U F
  unfolding query_push
  mutations ins conn slist =
      query_push (λ rows l. (ok, push_mutations (make_default_tags conn) rows l))
        (exec_query net ins (net.decode.mutations unmarshal_ch_uint64) system_mutation_sql conn.url)
        slist

  unfoldable pub processes : Instance → Connect U → SampleList F → Scraped U F
  unfolding query_push
  processes ins conn slist =
      query_push (λ rows l. (ok, push_rows (push_process (make_default_tags conn)) rows l))
        (exec_query net ins net.decode.processes system_processes_sql conn.url) slist

  unfoldable pub detached_parts : Instance → Connect U → SampleList F → Scraped U F
  unfolding query_push
  detached_parts ins conn slist =
      query_push (λ rows l. (ok, push_detached (make_default_tags conn) rows l))
        (exec_query net ins (net.decode.counts unmarshal_ch_uint64 (codes "detached_parts"))
          system_detached_parts_sql conn.url)
        slist

  unfoldable pub zookeeper : Instance → Connect U → SampleList F → Scraped U F
  unfolding query_push if_there
  zookeeper ins conn slist =
      if_there
        (λ u l.
          query_push (push_root_nodes (make_default_tags conn))
            (exec_query net ins (net.decode.counts unmarshal_ch_uint64 (codes "zk_root_nodes"))
              system_zookeeper_root_nodes_sql u)
            l)
        (exec_query net ins (net.decode.counts unmarshal_ch_uint64 (codes "zk_exists"))
          system_zookeeper_exists_sql conn.url)
        slist

  unfoldable pub replication_queue : Instance → Connect U → SampleList F → Scraped U F
  unfolding query_push if_there
  replication_queue ins conn slist =
      if_there
        (λ u l.
          query_push (push_tries (make_default_tags conn))
            (exec_query net ins (net.decode.tries unmarshal_ch_uint64)
              system_replication_num_tries_sql u)
            l)
        (exec_query net ins
          (net.decode.counts unmarshal_ch_uint64 (codes "replication_queue_exists"))
          system_replication_exists_sql conn.url)
        slist

  unfoldable pub text_log : Instance → Connect U → SampleList F → Scraped U F
  unfolding query_push if_there
  text_log ins conn slist =
      if_there
        (λ u l.
          query_push (λ rows l'. (ok, push_rows (push_message (make_default_tags conn)) rows l'))
            (exec_query net ins (net.decode.messages unmarshal_ch_uint64) system_text_log_sql u) l)
        (exec_query net ins (net.decode.counts unmarshal_ch_uint64 (codes "text_log_exists"))
          system_text_log_exists_sql conn.url)
        slist

  -- `makeDefaultTags`, the query, and a sample for each row; the name is in snake case.
  unfoldable pub push_metric :
      {V : Type 0} → (V → Value F) → Text → Map Text → MetricRow V → SampleList F → SampleList F
  push_metric value metric tags row slist =
      push (codes "clickhouse_" ++ metric) (snake_case net.unicode row.metric) (value row.value)
        tags slist

  -- `commonMetrics`: a value is read as a float or as a number of the type `chUInt64`.
  unfoldable pub common_metrics_of : Instance → Connect U → Text → SampleList F → Scraped U F
  unfolding query_push
  common_metrics_of ins conn metric slist =
      let tags = make_default_tags conn in
      let query = sql_of (lookup metric common_metrics) in
      if is_float_of (lookup metric common_metrics_is_float)
      then query_push (λ rows l. (ok, push_rows (push_metric float64 metric tags) rows l))
          (exec_query net ins net.decode.float_metrics query conn.url) slist
      else query_push
          (λ rows l.
            (ok, push_rows (push_metric (λ n. Value.other (print_uint n)) metric tags) rows l))
          (exec_query net ins (net.decode.int_metrics unmarshal_ch_uint64) query conn.url) slist
