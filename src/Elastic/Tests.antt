-- ===== src/Elastic/Tests.antt =====
-- The handler of Elasticsearch on a small server, and the theorems at concrete inputs.
use kubemonitor.Common.{
  ℕ, ◌≡◌, inl, refl, true, false, none, some, List, [], ◌∷◌, ◌++◌, map, reverse, arith, take, All,
  Text, codes, text_eq, split_byte, Map, lookup, insert, Distinct,
}
use mathlib.Core.List.{Perm}
use mathlib.Core.List.Permᴰ
use kubemonitor.Common.Int.{ℤ, pos, negsuc}
use kubemonitor.Value.{float64}
use kubemonitor.SafeList.{new_safe_list}
use kubemonitor.SafeList.Fifo.{queue}
use kubemonitor.Sample.{Sample, SampleList}
use kubemonitor.Writer.{ok, failed, panicked}
use kubemonitor.Filter.{matches, filtersingle, Glob}
use kubemonitor.Jsonx.{flatten_json, full_flatten_json, Json, object, number, null, member, end}
use kubemonitor.Gathering.{for_each, push_flattened, then_do, pushed_samples}
use kubemonitor.Goroutines.{in_turn, flatten, collect, count}
use kubemonitor.Elastic.{Instance, NodeStat, ClusterHealth, node_stats_url, is_master}
use kubemonitor.Elastic.Requests.{
  Server, gather_node_id, get_cat_master, gather_json_data, get_body,
}
use kubemonitor.Elastic.Stats.{
  gather_node_stats, gather_cluster_health, gather_cluster_stats, gather_node, gather_node_part,
  gather_cluster_part, health_pushes, map_health_status_to_code,
}
use kubemonitor.Elastic.Selection.{all_indices, match_of, tracked, names_of, categorize_indices}
use kubemonitor.Elastic.Indices.{
  gather_tracked, gather_single_index_stats, gather_indices_stats, gather_individual_indices_stats,
  map_shard_status_to_code,
}
use kubemonitor.Elastic.Sorting.{Ascending, sort_strings, text_le}
use kubemonitor.Elastic.Gather.{
  send_waits, error_room, learn_all, may_gather, info_goroutine, Action, Trace, IsTrace,
  round_outcome, info_goroutines, stats_goroutines, gather_server, info_round, informed, gather,
}
use kubemonitor.Elastic.Latest.{tracked_lem}
use kubemonitor.Elastic.Buckets.{of_category, IsCategory, categorize_indices_lem}
use kubemonitor.Elastic.Rounds.{up_sample, info_round-up, gather-ok, is_up}
use kubemonitor.Elastic.Ends.{is_failed, is_panicked}
use kubemonitor.Elastic.Errors.{send_waits-error_room, errors_race}
use kubemonitor.Elastic.Labelled.{IsOf}
use kubemonitor.Elastic.Addressed.{gather_server-IsOf}
use kubemonitor.Toy.{int_floats}

abbrev doc : Json ℤ
doc = object (member (codes "docs") (object (member (codes "count") (number (pos 5)) end)) end)

abbrev node : NodeStat ℤ
node = record {
  host = codes "h";
  name = codes "n";
  roles = [];
  attributes = [];
  indices = doc;
  os = null;
  process = null;
  jvm = null;
  thread_pool = null;
  fs = null;
  transport = null;
  http = null;
  breakers = null;
}

abbrev health : ClusterHealth ℤ
health = record {
  active_primary_shards = pos 1;
  active_shards = pos 1;
  active_shards_percent_as_number = pos 100;
  cluster_name = codes "c";
  delayed_unassigned_shards = pos 0;
  initializing_shards = pos 0;
  number_of_data_nodes = pos 1;
  number_of_in_flight_fetch = pos 0;
  number_of_nodes = pos 1;
  number_of_pending_tasks = pos 0;
  relocating_shards = pos 0;
  status = codes "Green";
  task_max_waiting_in_queue_millis = pos 0;
  timed_out = false;
  unassigned_shards = pos 0;
  indices = [];
}

-- It answers every request; the one node is the master.
abbrev server : Server ℕ ℤ
server = record {
  url_is_valid = λ url. true;
  send = λ r. some (record { status_code = 200; body = 0 });
  read_all = λ b. some (codes "id 127.0.0.1 n");
  decode_nodes =
      λ b. some (record { cluster_name = codes "c"; nodes = (codes "id", some node) ∷ [] });
  decode_health = λ b. some health;
  decode_cluster = λ b. some (record {
    node_name = codes "n";
    cluster_name = codes "c";
    status = codes "green";
    indices = doc;
    nodes = null;
  });
  decode_indices = λ b. some (record {
    shards = (codes "total", float64 (pos 2)) ∷ [];
    all = (codes "total", doc) ∷ [];
    indices = (codes "logs-1", record { primaries = doc; total = doc; shards = [] }) ∷ [];
  });
  range_matchers = λ address name m. m;
}

-- It answers every request with an error.
abbrev dead : Server ℕ ℤ
dead = record server { send = λ r. some (record { status_code = 503; body = 0 }) }

abbrev blank : Instance
blank = record {
  local = false;
  servers = codes "http://a" ∷ codes "http://b" ∷ [];
  http_timeout = pos 0;
  cluster_health = true;
  cluster_health_level = codes "indices";
  cluster_stats = true;
  indices_include = codes "logs-1" ∷ [];
  indices_level = codes "shards";
  node_stats = [];
  username = [];
  password = [];
  num_most_recent_indices = pos 0;
  client = none;
  index_matchers = (codes "logs-1", filtersingle (codes "logs-1")) ∷ [];
  server_info = [];
}

abbrev none_yet : SampleList ℤ
none_yet = new_safe_list

-- All goroutines one behind the other, before the `select`.
abbrev trace_of : List (List (Action ℤ)) → Trace ℤ
trace_of gs = record { before = []; after = flatten gs }

abbrev infos : Trace ℤ
infos = trace_of (info_goroutines server blank)

abbrev stats : Trace ℤ
stats = trace_of (stats_goroutines server (informed blank infos))

codes_test :
    (map_health_status_to_code (codes "Green") ≡ pos 1)
    × (map_health_status_to_code (codes "x") ≡ pos 0)
    × (map_shard_status_to_code (codes "started") ≡ pos 3)
    × (node_stats_url blank (codes "http://a") ≡ codes "http://a/_nodes/stats")
unfolding map_health_status_to_code map_shard_status_to_code node_stats_url text_eq
codes_test = (refl, refl, refl, refl)

tracked_test :
    tracked (pos 2) (codes "b" ∷ codes "a" ∷ codes "c" ∷ [])
    ≡ some (codes "c") ∷ some (codes "b") ∷ []
unfolding tracked sort_strings text_le
tracked_test = refl

info_round-up_example :
    (ups : List (Sample ℤ)) × Perm ups (map (up_sample server blank) blank.servers)
    × (queue (info_round blank infos none_yet).2 ≡ queue none_yet ++ map (λ s. some s) ups)
info_round-up_example =
    info_round-up server blank infos none_yet refl (in_turn (info_goroutines server blank))

servers_up : All (λ s. is_up server blank s ≡ true) blank.servers
unfolding gather_node_id get_cat_master gather_json_data get_body
servers_up = (refl, (refl, tt))

servers_fine : All (λ s. (gather_server server (informed blank infos) s).0 ≡ ok) blank.servers
unfolding gather_server gather_node_stats gather_cluster_health gather_cluster_stats
    gather_indices_stats gather_json_data get_body informed may_gather
    gather_individual_indices_stats then_do for_each gather_node gather_node_part push_flattened
    flatten_json full_flatten_json health_pushes gather_cluster_part categorize_indices tracked
    gather_single_index_stats lookup insert text_eq match_of matches learn_all is_master all_indices
    gather_tracked flatten info_goroutine gather_node_id get_cat_master split_byte
servers_fine = (refl, (refl, tt))

gather-ok_example :
    (ups more : List (Sample ℤ)) × ((gather blank infos stats none_yet).0 ≡ ok)
    × Perm ups (map (up_sample server blank) blank.servers)
    × Perm more (
        collect
          (λ s. pushed_samples (gather_server server (informed blank infos) s).1)
          blank.servers)
    × (queue (gather blank infos stats none_yet).2
        ≡ (queue none_yet ++ map (λ s. some s) ups) ++ map (λ s. some s) more)
gather-ok_example =
    gather-ok server blank infos stats none_yet refl (in_turn (info_goroutines server blank))
      servers_up (in_turn (stats_goroutines server (informed blank infos))) servers_fine

send_waits-error_room_example :
    send_waits (error_room blank) 0 (flatten (info_goroutines dead blank)) ≡ false
send_waits-error_room_example =
    send_waits-error_room dead blank (trace_of (info_goroutines dead blank))
      (inl (in_turn (info_goroutines dead blank)))

dead_servers :
    (count (λ s. is_panicked (gather_server dead blank s).0) blank.servers ≡ 0)
    × (count (λ s. is_failed (gather_server dead blank s).0) blank.servers ≡ 2)
unfolding gather_server gather_node_stats gather_json_data get_body then_do
dead_servers = (refl, refl)

errors_race_example :
    (lost : Trace ℤ) × (seen : Trace ℤ) × (late : Trace ℤ) × (IsTrace
        (stats_goroutines dead blank)
        lost
      × (round_outcome lost ≡ ok))
    × (IsTrace (stats_goroutines dead blank) seen × (round_outcome seen ≡ failed))
    × IsTrace (stats_goroutines dead blank) late
    × (round_outcome late ≡ panicked)
errors_race_example = errors_race dead blank dead_servers.0 (omega (arith, dead_servers.1))

abbrev three : List Text
three = codes "logs-02" ∷ codes "logs-10" ∷ codes "logs-01" ∷ []

tracked_lem_example :
    (sorted : List Text) × Ascending sorted
    × Perm sorted three
    × (tracked (pos 2) three ≡ map (λ x. some x) (take 2 (reverse sorted)))
    × (tracked (pos 0) three ≡ map (λ x. some x) (reverse three))
    × (tracked (negsuc 1) three ≡ map (λ x. some x) (reverse three))
tracked_lem_example = tracked_lem 1 three

abbrev found : Map ℕ
found = (codes "logs-1", 1) ∷ (codes "other", 2) ∷ []

categorize_indices_lem_example :
    (category : Text → Text) × ((name : Text) → IsCategory blank name (category name))
    × Distinct (categorize_indices blank (λ name m. reverse m) found)
    × ((k : Text)
        → names_of (lookup k (categorize_indices blank (λ name m. reverse m) found))
          ≡ of_category category k (codes "logs-1" ∷ codes "other" ∷ []))
categorize_indices_lem_example =
    categorize_indices_lem blank (λ name m. reverse m) found
      (λ name. Permᴰ.refl blank.index_matchers)

abbrev no_glob : Glob
no_glob = λ pattern. none

gather_server-IsOf_example :
    All (IsOf (codes "http://a")) (pushed_samples (gather_server server blank (codes "http://a")).1)
gather_server-IsOf_example = gather_server-IsOf server blank (codes "http://a")
