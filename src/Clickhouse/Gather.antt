-- ===== src/Clickhouse/Gather.antt =====
-- `Gather` of the ClickHouse handler: the servers, and the round of each connection.
use kubemonitor.Common.{
  Bool, true, false, Option, none, some, List, [], ◌∷◌, ◌++◌, map, ◌==◌, if◌then◌else◌, any, Text,
  codes, text_eq,
}
use kubemonitor.Common.Int.{pos}
use kubemonitor.Value.{Floats}
use kubemonitor.Sample.{SampleList}
use kubemonitor.Writer.{Outcome, ok, failed, panicked}
use kubemonitor.Clickhouse.{Instance, Connect, cluster_include_exclude_filter}
use kubemonitor.Clickhouse.Requests.{Net, Urls, ShardRow, exec_query}
use kubemonitor.Clickhouse.Rows.{Scraped}
use kubemonitor.Clickhouse.Tables.{
  tables, zookeeper, replication_queue, detached_parts, dictionaries, mutations, disks, processes,
  text_log, common_metrics, common_metrics_of,
}
use kubemonitor.Clickhouse.Custom.{CustomStep, asked, run_custom}

-- `net.JoinHostPort`.
unfoldable pub join_host_port : Text → Text → Text
join_host_port host port =
    if any (λ c. c == b':') host then b'[' ∷ host ++ codes "]:" ++ port else host ++ b':' ∷ port

abbrev pub clusters_sql : Text
clusters_sql = codes "SELECT cluster, shard_num, host_name FROM system.clusters "

module _ {U : Type 0} where
  unfoldable pub exists : Text → List (Connect U) → Bool
  exists host [] = false
  exists host (c ∷ connects) = if text_eq c.hostname host then true else exists host connects

  -- The shards whose host is not there yet.
  unfoldable pub add_shards : Urls U → U → List ShardRow → List (Connect U) → List (Connect U)
  unfolding exists join_host_port
  add_shards urls u [] connects = connects
  add_shards urls u (row ∷ rows) connects =
      if exists row.host_name connects
      then add_shards urls u rows connects
      else add_shards urls u rows (
          connects
          ++ record {
            cluster = row.cluster;
            shard_num = row.shard_num;
            hostname = row.host_name;
            url = urls.host_url (urls.scheme u) (join_host_port row.host_name (urls.port u));
          }
            ∷ [])

-- No answer adds none.
unfoldable pub add_answer :
    {U : Type 0} → Urls U → U → Option (List ShardRow) → List (Connect U) → List (Connect U)
unfolding add_shards
add_answer urls u none connects = connects
add_answer urls u (some rows) connects = add_shards urls u rows connects

-- The functions of a round may change the URL of the connection.
abbrev pub Function : Type 0 → Type 0 → Type 0
Function U F = Connect U → SampleList F → Scraped U F

module _ {U F : Type 0} where
  -- An error is logged only.
  unfoldable pub and_next : Scraped U F → (U → SampleList F → Scraped U F) → Scraped U F
  and_next (ok, u, l) go = go u l
  and_next (failed, u, l) go = go u l
  and_next (panicked, u, l) go = (panicked, u, l)

  unfoldable pub run_functions : List (Function U F) → Connect U → SampleList F → Scraped U F
  unfolding and_next
  run_functions [] conn slist = (ok, conn.url, slist)
  run_functions (f ∷ functions) conn slist =
      and_next (f conn slist) (λ u l. run_functions functions (record conn { url = u }) l)

module _ {U B F : Type 0} ⦃fl : Floats F⦄ (net : Net U B F) where
  -- `metricsFuncs`, and then the keys of `commonMetrics`.
  abbrev pub metrics_funcs : Instance → List (Function U F)
  metrics_funcs ins =
      tables net ins
      ∷ zookeeper net ins
      ∷ replication_queue net ins
      ∷ detached_parts net ins
      ∷ dictionaries net ins
      ∷ mutations net ins
      ∷ disks net ins
      ∷ processes net ins
      ∷ text_log net ins
      ∷ map (λ (m : Text × Text). λ conn slist. common_metrics_of net ins conn m.0 slist)
          common_metrics

  -- The loop over the servers: a URL that does not parse ends it with an error, and a server that
  -- does not tell its shards is passed over.
  unfoldable pub discover : Instance → List Text → List (Connect U) → Option (List (Connect U))
  unfolding add_answer
  discover ins [] connects = some connects
  discover ins (server ∷ servers) connects = elim (net.urls.parse server) [
    | none ↦ none
    | some u ↦ discover ins servers (
        if ins.auto_discovery
        then add_answer net.urls u
            (exec_query net ins net.decode.shards
              (clusters_sql ++ cluster_include_exclude_filter ins) u).0
            connects
        else connects
          ++ record { cluster = []; shard_num = pos 0; hostname = net.urls.hostname u; url = u }
            ∷ [])
  ]

  -- The custom queries, behind the functions.
  unfoldable pub round_end :
      Instance → List CustomStep → Connect U → Scraped U F → Outcome × SampleList F
  round_end ins steps conn (ok, u, l) = (ok, run_custom net ins conn (asked net steps u) l)
  round_end ins steps conn (failed, u, l) = (ok, run_custom net ins conn (asked net steps u) l)
  round_end ins steps conn (panicked, u, l) = (panicked, l)

  -- The round of a connection, with the steps of its custom queries in the order they are made.
  unfoldable pub gather_connect :
      Instance → List CustomStep → Connect U → SampleList F → Outcome × SampleList F
  unfolding run_functions round_end
  gather_connect ins steps conn slist =
      round_end ins steps conn (run_functions (metrics_funcs ins) conn slist)

  unfoldable pub next_connect :
      Outcome × SampleList F → (SampleList F → Outcome × SampleList F) → Outcome × SampleList F
  next_connect (ok, l) go = go l
  next_connect (failed, l) go = (failed, l)
  next_connect (panicked, l) go = (panicked, l)

  unfoldable pub gather_connects :
      Instance
      → (Connect U → List CustomStep)
      → List (Connect U)
      → SampleList F
      → Outcome × SampleList F
  unfolding gather_connect next_connect
  gather_connects ins order [] slist = (ok, slist)
  gather_connects ins order (conn ∷ connects) slist =
      next_connect (gather_connect ins (order conn) conn slist) (gather_connects ins order connects)

  unfoldable pub gather :
      Instance → (Connect U → List CustomStep) → SampleList F → Outcome × SampleList F
  unfolding discover gather_connects
  gather ins order slist = elim (discover ins ins.servers []) [
    | none ↦ (failed, slist)
    | some connects ↦ gather_connects ins order connects slist
  ]
