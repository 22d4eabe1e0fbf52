-- ===== src/Elastic/Requests.antt =====
-- The requests of the Elasticsearch handler, and what their answers give.
use kubemonitor.Common.{
  Bool, not, ◌||◌, Option, none, some, [], ◌∷◌, ◌==◌, ℕ, if◌then◌else◌, Text, codes, split_byte,
  length, Map,
}
use kubemonitor.Http.{Header, header_set, basic_auth}
use kubemonitor.Filter.{Filter}
use kubemonitor.Elastic.{Instance, NodesStats, ClusterHealth, ClusterStats, IndicesStats}

pub record GetRequest : Type 0 where
  pub url : Text
  pub header : Header

pub record Response (B : Type 0) : Type 0 where
  pub status_code : ℕ
  pub body : B

-- Other packages: the check of the URL by `http.NewRequest`, `Client.Do`, `io.ReadAll`, and the
-- decoder of `encoding/json` at each type that the code decodes into. `none` is an error; `B`
-- stands for the bodies of answers.
pub record Server (B F : Type 0) : Type 0 where
  pub url_is_valid : Text → Bool
  pub send : GetRequest → Option (Response B)
  pub read_all : B → Option Text
  pub decode_nodes : B → Option (NodesStats F)
  pub decode_health : B → Option (ClusterHealth F)
  pub decode_cluster : B → Option (ClusterStats F)
  pub decode_indices : B → Option (IndicesStats F)
  -- The order of the range over the matchers, for a server and one of its indices: Go takes a new
  -- one for every range.
  pub range_matchers : Text → Text → Map Filter → Map Filter

unfoldable pub get_request : Instance → Text → GetRequest
get_request ins url = record {
  url = url;
  header =
      if not (length ins.username == 0) || not (length ins.password == 0)
      then header_set (codes "Authorization") (basic_auth ins.username ins.password) []
      else [];
}

module _ {B F : Type 0} (server : Server B F) where
  -- The body of an answer of status 200.
  unfoldable pub get_body : Instance → Text → Option B
  get_body ins url =
      if server.url_is_valid url
      then elim (server.send (get_request ins url)) [
        | none ↦ none
        | some r ↦ if r.status_code == 200 then some r.body else none
      ]
      else none

  -- `gatherJSONData`, with the decoder at the type of `v`.
  unfoldable pub gather_json_data : {A : Type 0} → (B → Option A) → Instance → Text → Option A
  unfolding get_body
  gather_json_data decode ins url = elim (get_body ins url) [
    | none ↦ none
    | some body ↦ decode body
  ]

  -- The answer up to its first space.
  unfoldable pub get_cat_master : Instance → Text → Option Text
  unfolding get_body
  get_cat_master ins url = elim (get_body ins url) [
    | none ↦ none
    | some body ↦ elim (server.read_all body) [
      | none ↦ none
      | some response ↦ some (split_byte b' ' response).0
    ]
  ]

  -- The first node in the order of the range.
  unfoldable pub gather_node_id : Instance → Text → Option Text
  unfolding gather_json_data
  gather_node_id ins url = elim (gather_json_data server.decode_nodes ins url) [
    | none ↦ none
    | some stats ↦ elim stats.nodes [ [] ↦ some [] | n ∷ nodes ↦ some n.0 ]
  ]
