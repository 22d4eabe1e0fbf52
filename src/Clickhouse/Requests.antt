-- ===== src/Clickhouse/Requests.antt =====
-- The queries of the ClickHouse handler.
use kubemonitor.Common.{
  ℕ, Bool, Option, none, some, List, [], ◌++◌, ltb, ◌==◌, if◌then◌else◌, length, Text, codes,
}
use kubemonitor.Common.Int.{ℤ}
use kubemonitor.Http.{Header, header_add}
use kubemonitor.Stringx.{Unicode}
use kubemonitor.Clickhouse.{Instance}

-- `url.URL`: what `url.Parse` gives, the parts that are read, a URL of a scheme and a host with
-- its port, `q.Set("query", s)` with `RawQuery`, and `String`.
pub record Urls (U : Type 0) : Type 0 where
  pub parse : Text → Option U
  pub hostname : U → Text
  pub scheme : U → Text
  pub port : U → Text
  pub host_url : Text → Text → U
  pub set_query : Text → U → U
  pub to_text : U → Text

pub record GetRequest : Type 0 where
  pub url : Text
  pub header : Header

pub record Response (B : Type 0) : Type 0 where
  pub status_code : ℕ
  pub body : B

-- `Client.Do`, and whether the rest of a body can be read. `none` is an error.
pub record Server (B : Type 0) : Type 0 where
  pub send : GetRequest → Option (Response B)
  pub drained : B → Bool

-- The answers, each a row of the query's table.
pub record MetricRow (V : Type 0) : Type 0 where
  pub metric : Text
  pub value : V

pub record TriesRow : Type 0 where
  pub num_tries_replicas : ℕ
  pub too_many_tries_replicas : ℕ

pub record DictionaryRow : Type 0 where
  pub origin : Text
  pub bytes_allocated : ℕ
  pub status : Text

pub record MutationRow : Type 0 where
  pub failed : ℕ
  pub running : ℕ
  pub completed : ℕ

pub record DiskRow : Type 0 where
  pub name : Text
  pub path : Text
  pub free_percent : ℕ
  pub keep_free_percent : ℕ

pub record ProcessRow (F : Type 0) : Type 0 where
  pub query_type : Text
  pub percentile_50 : F
  pub percentile_90 : F
  pub longest_running : F

pub record MessageRow : Type 0 where
  pub level : Text
  pub messages_last_10_min : ℕ

pub record PartRow : Type 0 where
  pub database : Text
  pub table : Text
  pub bytes : ℕ
  pub parts : ℕ
  pub rows : ℕ

pub record ShardRow : Type 0 where
  pub cluster : Text
  pub shard_num : ℤ
  pub host_name : Text

-- `encoding/json`: the rows of the field `data` of an answer, at each type that the code decodes
-- into; `count` is a row of one number, by the name of its column. A number of 64 bits is read by
-- `UnmarshalJSON` of the code, which is the first argument. `none` is an error. `raw` are the rows
-- as they stand, for `gjson.Get(row, field).String()`.
pub record Decoders (B F : Type 0) : Type 0 where
  pub counts : (Text → Option ℕ) → Text → B → Option (List ℕ)
  pub int_metrics : (Text → Option ℕ) → B → Option (List (MetricRow ℕ))
  pub float_metrics : B → Option (List (MetricRow F))
  pub tries : (Text → Option ℕ) → B → Option (List TriesRow)
  pub dictionaries : (Text → Option ℕ) → B → Option (List DictionaryRow)
  pub mutations : (Text → Option ℕ) → B → Option (List MutationRow)
  pub disks : (Text → Option ℕ) → B → Option (List DiskRow)
  pub processes : B → Option (List (ProcessRow F))
  pub messages : (Text → Option ℕ) → B → Option (List MessageRow)
  pub parts : (Text → Option ℕ) → B → Option (List PartRow)
  pub shards : B → Option (List ShardRow)
  pub raw : B → Option (List Text)
  pub get : Text → Text → Text

-- All that is not code of the handler, with the tables of package unicode.
pub record Net (U B F : Type 0) : Type 0 where
  pub urls : Urls U
  pub server : Server B
  pub decode : Decoders B F
  pub unicode : Unicode

unfoldable pub get_request : Instance → Text → GetRequest
get_request ins url = record {
  url = url;
  header =
      let user =
        if length ins.username == 0
        then []
        else header_add (codes "X-ClickHouse-User") ins.username [] in
      if length ins.password == 0
      then user
      else header_add (codes "X-ClickHouse-Key") ins.password user;
}

module _ {U B F : Type 0} (net : Net U B F) where
  -- The URL with the query in it, which the code writes into the connection's URL.
  abbrev pub asking : Text → U → U
  asking query address = net.urls.set_query (query ++ codes " FORMAT JSON") address

  -- A body, of an answer of a status below 300, to the request at a URL.
  unfoldable pub get_body : Instance → U → Option B
  get_body ins address = elim (net.server.send (get_request ins (net.urls.to_text address))) [
    | none ↦ none
    | some r ↦ if ltb r.status_code 300 then some r.body else none
  ]

  unfoldable pub decode_all : {A : Type 0} → (B → Option A) → Option B → Option A
  decode_all decode none = none
  decode_all decode (some body) = elim (decode body) [
    | none ↦ none
    | some rows ↦ if net.server.drained body then some rows else none
  ]

  -- `execQuery`, with the decoder at the type of `i`, and the URL as it is left.
  unfoldable pub exec_query : {A : Type 0} → Instance → (B → Option A) → Text → U → Option A × U
  unfolding get_body decode_all
  exec_query ins decode query address =
      (decode_all decode (get_body ins (asking query address)), asking query address)
