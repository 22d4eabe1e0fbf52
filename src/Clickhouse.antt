-- ===== src/Clickhouse.antt =====
-- internal/handlers/clickhouse/clickhouse.go: the handler of ClickHouse, its configuration, the
-- filter on clusters, and names.
pub mod Queries
pub mod Requests
pub mod Rows
pub mod Tables
pub mod Custom
pub mod Gather
pub mod Literals
pub mod Discovery
pub mod Rounds
pub mod Silence
pub mod Names
pub mod Clusters
pub mod Tests
use kubemonitor.Common.{
  ℕ, Bool, ◌&&◌, Option, some, List, [], ◌∷◌, ◌++◌, map, ◌==◌, if◌then◌else◌, length, Text, codes,
  trim_prefix, trim_suffix, to_lower, replace_bytes, join, Map,
}
use kubemonitor.Common.Int.{ℤ, pos, eq_ℤ}
use kubemonitor.Strconv.Decimal.{parse_uint, itoa}
use kubemonitor.Writer.{Outcome, ok}
use kubemonitor.Factory.{ConfigMap, get, parse_slice, parse_bool_key}

abbrev pub input_name : Text
input_name = codes "clickhouse"

-- `defaultTimeout`, in nanoseconds.
abbrev pub default_timeout : ℤ
default_timeout = pos 5000000000

pub record MetricConfig : Type 0 where
  pub mesurement : Text
  pub label_fields : List Text
  pub metric_fields : List Text
  pub field_to_append : Text
  pub timeout : ℤ
  pub request : Text
  pub ignore_zero_result : Bool

-- The client is its timeout.
pub record Instance : Type 0 where
  pub username : Text
  pub password : Text
  pub servers : List Text
  pub auto_discovery : Bool
  pub cluster_include : List Text
  pub cluster_exclude : List Text
  pub timeout : ℤ
  pub metrics : List MetricConfig
  pub http_client : Option ℤ

-- The fields that JSON fills, and the URL that the code adds. `U` stands for `url.URL`.
pub record Connect (U : Type 0) : Type 0 where
  pub cluster : Text
  pub shard_num : ℤ
  pub hostname : Text
  pub url : U

-- `Init` never fails.
unfoldable pub init : ConfigMap → Instance → Outcome × Instance
init config ins = (
  ok,
  record ins {
    servers = parse_slice config (codes "servers");
    username = get config (codes "username");
    password = get config (codes "password");
    auto_discovery = parse_bool_key config (codes "auto_discovery");
    cluster_include = parse_slice config (codes "cluster_include");
    cluster_exclude = parse_slice config (codes "cluster_exclude");
    http_client = some (if eq_ℤ ins.timeout (pos 0) then default_timeout else ins.timeout);
  },
)

-- The replacer of `escape`: a backslash and a quote each get a backslash in front.
unfoldable pub escape_bytes : Text → Text
escape_bytes [] = []
escape_bytes (c ∷ s) =
    if c == b'\\'
    then b'\\' ∷ b'\\' ∷ escape_bytes s
    else if c == b'\''
    then b'\\' ∷ b'\'' ∷ escape_bytes s
    else c ∷ escape_bytes s

unfoldable pub escape : Text → Text
unfolding escape_bytes
escape s = b'\'' ∷ escape_bytes s ++ b'\'' ∷ []

-- `fmt.Sprintf("cluster %s (%s)", expr, strings.Join(in, ", "))`.
unfoldable pub make_filter : Text → List Text → Text
unfolding escape
make_filter expr args =
    codes "cluster " ++ expr ++ codes " (" ++ join (map escape args) (codes ", ") ++ codes ")"

-- An empty list gives no filter.
unfoldable pub filter_of : Text → List Text → Text
filter_of expr [] = []
filter_of expr (x ∷ xs) = make_filter expr (x ∷ xs)

-- The filters are empty where their lists are.
unfoldable pub join_filters : Text → Text → Text
join_filters [] [] = codes "WHERE "
join_filters [] (e ∷ exclude) = codes "WHERE " ++ e ∷ exclude
join_filters (i ∷ include) [] = codes "WHERE " ++ i ∷ include
join_filters (i ∷ include) (e ∷ exclude) =
    codes "WHERE " ++ (i ∷ include) ++ codes " OR " ++ e ∷ exclude

unfoldable pub cluster_include_exclude_filter : Instance → Text
unfolding filter_of join_filters
cluster_include_exclude_filter ins =
    if (length ins.cluster_include == 0) && (length ins.cluster_exclude == 0)
    then []
    else join_filters (filter_of (codes "IN") ins.cluster_include)
        (filter_of (codes "NOT IN") ins.cluster_exclude)

module _ {U : Type 0} where
  -- `makeDefaultTags`.
  unfoldable pub make_default_tags : Connect U → Map Text
  make_default_tags conn =
      (codes "source", conn.hostname)
        ∷ (if length conn.cluster == 0 then [] else (codes "cluster", conn.cluster) ∷ [])
      ++ (if eq_ℤ conn.shard_num (pos 0) then [] else (codes "shard_num", itoa conn.shard_num) ∷ [])

-- The seven replacements of `cleanName`, one behind the other.
unfoldable pub clean_name : Text → Text
clean_name s =
    let s1 = replace_bytes (λ c. c == 32) (b'_' ∷ []) s in
    let s2 = replace_bytes (λ c. c == b'(') [] s1 in
    let s3 = replace_bytes (λ c. c == b')') [] s2 in
    let s4 = replace_bytes (λ c. c == b'/') [] s3 in
    let s5 = replace_bytes (λ c. c == b'*') [] s4 in
    to_lower (replace_bytes (λ c. c == b'%') (codes "percent") s5)

-- `UnmarshalJSON` of `chUInt64`: quotes around the number are dropped.
unfoldable pub unmarshal_ch_uint64 : Text → Option ℕ
unmarshal_ch_uint64 b = parse_uint (trim_suffix (trim_prefix b (b'"' ∷ [])) (b'"' ∷ []))
