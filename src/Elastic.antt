-- ===== src/Elastic.antt =====
-- internal/handlers/elasticsearch/elasticsearch.go: the handler of Elasticsearch, its data and its
-- configuration.
pub mod Requests
pub mod Stats
pub mod Sorting
pub mod Selection
pub mod Indices
pub mod Gather
pub mod Latest
pub mod Pushed
pub mod Rounds
pub mod Ends
pub mod Errors
pub mod Shards
pub mod Setup
pub mod Labelled
pub mod Addressed
pub mod Tests
pub mod Buckets
use kubemonitor.Common.{
  Bool, Option, none, some, List, [], ◌∷◌, ◌++◌, ◌==◌, if◌then◌else◌, Text, codes, text_eq, join,
  Map, lookup, insert, length,
}
use kubemonitor.Common.Int.{ℤ, pos, ltb_ℤ}
use kubemonitor.Value.{Floats, Value}
use kubemonitor.Writer.{Outcome, ok, failed}
use kubemonitor.Factory.{ConfigMap, get, parse_slice, parse_bool_key, parse_int_key}
use kubemonitor.Filter.{Glob, Filter, compile}
use kubemonitor.Jsonx.{Json}

abbrev pub input_name : Text
input_name = codes "elasticsearch"

abbrev pub stats_path : Text
stats_path = codes "/_nodes/stats"

abbrev pub stats_path_local : Text
stats_path_local = codes "/_nodes/_local/stats"

-- The answers of the server, as `encoding/json` decodes them. A map is in the order of its range.
pub record NodeStat (F : Type 0) : Type 0 where
  pub host : Text
  pub name : Text
  pub roles : List Text
  pub attributes : Map Text
  pub indices : Json F
  pub os : Json F
  pub process : Json F
  pub jvm : Json F
  pub thread_pool : Json F
  pub fs : Json F
  pub transport : Json F
  pub http : Json F
  pub breakers : Json F

pub record IndexHealth : Type 0 where
  pub active_primary_shards : ℤ
  pub active_shards : ℤ
  pub initializing_shards : ℤ
  pub number_of_replicas : ℤ
  pub number_of_shards : ℤ
  pub relocating_shards : ℤ
  pub status : Text
  pub unassigned_shards : ℤ

pub record ClusterHealth (F : Type 0) : Type 0 where
  pub active_primary_shards : ℤ
  pub active_shards : ℤ
  pub active_shards_percent_as_number : F
  pub cluster_name : Text
  pub delayed_unassigned_shards : ℤ
  pub initializing_shards : ℤ
  pub number_of_data_nodes : ℤ
  pub number_of_in_flight_fetch : ℤ
  pub number_of_nodes : ℤ
  pub number_of_pending_tasks : ℤ
  pub relocating_shards : ℤ
  pub status : Text
  pub task_max_waiting_in_queue_millis : ℤ
  pub timed_out : Bool
  pub unassigned_shards : ℤ
  pub indices : Map IndexHealth

pub record ClusterStats (F : Type 0) : Type 0 where
  pub node_name : Text
  pub cluster_name : Text
  pub status : Text
  pub indices : Json F
  pub nodes : Json F

pub record IndexStat (F : Type 0) : Type 0 where
  pub primaries : Json F
  pub total : Json F
  pub shards : Map (List (Json F))

-- `none` is a nil pointer, from a JSON null.
pub record NodesStats (F : Type 0) : Type 0 where
  pub cluster_name : Text
  pub nodes : Map (Option (NodeStat F))

pub record IndicesStats (F : Type 0) : Type 0 where
  pub shards : Map (Value F)
  pub all : Map (Json F)
  pub indices : Map (IndexStat F)

pub record ServerInfo : Type 0 where
  pub node_id : Text
  pub master_id : Text

unfoldable pub is_master : ServerInfo → Bool
is_master i = text_eq i.node_id i.master_id

-- `http.Client`: what `createHTTPClient` sets.
pub record HttpClient : Type 0 where
  pub response_header_timeout : ℤ
  pub timeout : ℤ

pub record Instance : Type 0 where
  pub local : Bool
  pub servers : List Text
  pub http_timeout : ℤ
  pub cluster_health : Bool
  pub cluster_health_level : Text
  pub cluster_stats : Bool
  pub indices_include : List Text
  pub indices_level : Text
  pub node_stats : List Text
  pub username : Text
  pub password : Text
  pub num_most_recent_indices : ℤ
  pub client : Option HttpClient
  pub index_matchers : Map Filter
  pub server_info : Map ServerInfo

unfoldable pub create_http_client : Instance → HttpClient
create_http_client ins = record {
  response_header_timeout = ins.http_timeout;
  timeout = ins.http_timeout;
}

-- One name never compiles to a nil filter.
unfoldable pub compile_index : Glob → Text → Option Filter
compile_index glob name = elim (compile glob (name ∷ [])) [
  | none ↦ none
  | some none ↦ none
  | some (some f) ↦ some f
]

-- The loop of `compileIndexMatchers`: a name that is there is not compiled again.
unfoldable pub compile_matchers : Glob → List Text → Map Filter → Option (Map Filter)
compile_matchers glob [] matchers = some matchers
compile_matchers glob (name ∷ names) matchers = elim (lookup name matchers) [
  | some f ↦ compile_matchers glob names matchers
  | none ↦ elim (compile_index glob name) [
    | none ↦ none
    | some f ↦ compile_matchers glob names (insert name f matchers)
  ]
]

unfoldable pub compile_index_matchers : Glob → Instance → Option (Map Filter)
unfolding compile_matchers
compile_index_matchers glob ins = compile_matchers glob ins.indices_include []

-- What `Init` sets before it compiles.
unfoldable pub configured : {F : Type 0} → Floats F → ConfigMap → Instance → Instance
configured fl config ins =
    let level = get config (codes "cluster_health_level") in
    record ins {
      local = parse_bool_key config (codes "local");
      servers = parse_slice config (codes "servers");
      cluster_health = parse_bool_key config (codes "cluster_health");
      cluster_health_level = if length level == 0 then codes "indices" else level;
      cluster_stats = parse_bool_key config (codes "cluster_stats");
      indices_include = parse_slice config (codes "indices_include");
      indices_level = get config (codes "indices_level");
      node_stats = parse_slice config (codes "node_stats");
      username = get config (codes "username");
      password = get config (codes "password");
      num_most_recent_indices = parse_int_key fl config (codes "num_most_recent_indices");
      http_timeout = if ltb_ℤ (pos 0) ins.http_timeout then ins.http_timeout else pos 10000000000;
    }

-- `Init`: the client is made once the matchers compile.
unfoldable pub init : {F : Type 0} → Floats F → Glob → ConfigMap → Instance → Outcome × Instance
unfolding configured
init fl glob config ins =
    let set = configured fl config ins in
    elim (compile_index_matchers glob set) [
      | none ↦ (failed, set)
      | some matchers ↦
          (ok, record set { index_matchers = matchers; client = some (create_http_client set) })
    ]

unfoldable pub node_stats_url : Instance → Text → Text
node_stats_url ins base_url =
    let url = base_url ++ (if ins.local then stats_path_local else stats_path) in
    elim ins.node_stats [ [] ↦ url | x ∷ xs ↦ url ++ b'/' ∷ join (x ∷ xs) (b',' ∷ []) ]
