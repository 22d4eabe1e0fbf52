-- ===== src/Clickhouse/Tests.antt =====
-- The handler of ClickHouse on a small server, and the theorems at concrete inputs.
use kubemonitor.Common.{
  ℕ, ◌≡◌, ◌≢◌, ◌↔◌, All, refl, true, false, none, some, List, [], ◌∷◌, ◌++◌, arith, ◌==◌,
  if◌then◌else◌, OnSome, length, Text, codes, text_eq, lower_byte, to_lower, split, replace_bytes,
  join, lookup, is_some,
}
use kubemonitor.Common.Int.{ℤ, pos}
use kubemonitor.SafeList.{new_safe_list}
use kubemonitor.Sample.{SampleList}
use kubemonitor.Writer.{ok, panicked}
use kubemonitor.Strconv.Decimal.{print_uint}
use kubemonitor.Factory.{ConfigMap, parse_slice, get}
use kubemonitor.Goroutines.{Interleave}
use kubemonitor.Clickhouse.{
  init, filter_of, join_filters, Instance, MetricConfig, Connect, make_filter, escape, clean_name,
  unmarshal_ch_uint64, cluster_include_exclude_filter,
}
use kubemonitor.Clickhouse.Requests.{Net, Urls}
use kubemonitor.Clickhouse.Custom.{CustomStep, sets, asks, asked, custom_goroutines}
use kubemonitor.Clickhouse.Gather.{discover, gather}
use kubemonitor.Clickhouse.Literals.{read_literal, read_literal-escape, unmarshal-print_uint}
use kubemonitor.Clickhouse.Discovery.{OneEach, discover-OneEach}
use kubemonitor.Clickhouse.Rounds.{IsOwn, no_step, pair, custom_queries_race}
use kubemonitor.Clickhouse.Silence.{gather-silent}
use kubemonitor.Toy.{int_floats}

-- A URL is its host and the query in it.
abbrev urls : Urls (Text × Text)
urls = record {
  parse = λ s. if length s == 0 then none else some (s, []);
  hostname = λ u. u.0;
  scheme = λ u. codes "http";
  port = λ u. codes "8123";
  host_url = λ scheme host. (host, []);
  set_query = λ query u. (u.0, query);
  to_text = λ u. u.0 ++ u.1;
}

-- No request is answered.
abbrev net : Net (Text × Text) ℕ ℤ
net = record {
  urls = urls;
  server = record { send = λ r. none; drained = λ b. true };
  decode = record {
    counts = λ read column b. none;
    int_metrics = λ read b. none;
    float_metrics = λ b. none;
    tries = λ read b. none;
    dictionaries = λ read b. none;
    mutations = λ read b. none;
    disks = λ read b. none;
    processes = λ b. none;
    messages = λ read b. none;
    parts = λ read b. none;
    shards = λ b. some (
        record { cluster = codes "c"; shard_num = pos 1; host_name = codes "h" }
        ∷ record { cluster = codes "c"; shard_num = pos 2; host_name = codes "h" }
        ∷ []);
    raw = λ b. none;
    get = λ row field. [];
  };
  unicode = record { is_upper = λ c. false; is_lower = λ c. false; to_lower = λ c. c };
}

-- Every request is answered.
abbrev live_net : Net (Text × Text) ℕ ℤ
live_net = record net {
  server = record {
    send = λ r. some (record { status_code = 200; body = 0 });
    drained = λ b. true;
  };
}

abbrev ins : Instance
ins = record {
  username = codes "u";
  password = [];
  servers = codes "a" ∷ codes "b" ∷ [];
  auto_discovery = true;
  cluster_include = codes "it's" ∷ [];
  cluster_exclude = [];
  timeout = pos 0;
  metrics = [];
  http_client = none;
}

abbrev conf : Text → MetricConfig
conf query = record {
  mesurement = codes "m";
  label_fields = [];
  metric_fields = [];
  field_to_append = [];
  timeout = pos 0;
  request = query;
  ignore_zero_result = false;
}

abbrev no_samples : SampleList ℤ
no_samples = new_safe_list

filter_test : cluster_include_exclude_filter ins ≡ codes "WHERE cluster IN ('it\\'s')"
unfolding cluster_include_exclude_filter make_filter escape join
filter_test = refl

-- Only `cluster_include` is configured.
abbrev included : ConfigMap
included = (codes "cluster_include", codes "c") ∷ []

included_test :
    cluster_include_exclude_filter (init included ins).1
    ≡ codes "WHERE cluster IN ('c') OR cluster NOT IN ('')"
unfolding init cluster_include_exclude_filter filter_of join_filters make_filter escape join
    parse_slice split lookup get text_eq
included_test = refl

names_test : clean_name (codes "CPU (100%)/s") ≡ codes "cpu_100percents"
unfolding clean_name replace_bytes to_lower lower_byte
names_test = refl

read_literal-escape_example :
    read_literal (escape (codes "a'b\\") ++ codes ", 'c'") ≡ some (codes "a'b\\", codes ", 'c'")
read_literal-escape_example = read_literal-escape (codes "a'b\\") (codes ", 'c'")

unmarshal-print_uint_example :
    (unmarshal_ch_uint64 (print_uint 4096) ≡ some 4096)
    × (unmarshal_ch_uint64 (b'"' ∷ print_uint 4096 ++ b'"' ∷ []) ≡ some 4096)
unmarshal-print_uint_example = unmarshal-print_uint 4096 (omega arith)

discover-OneEach_example : OnSome OneEach (discover live_net ins ins.servers [])
discover-OneEach_example = discover-OneEach live_net ins refl

abbrev one_url : Text × Text
one_url = (codes "h", [])

custom_queries_race_example :
    All (IsOwn net) (asked net (sets (conf (codes "x")) ∷ asks (conf (codes "x")) ∷ []) one_url)
    × (racy : List CustomStep) × Interleave
        (custom_goroutines (record ins { metrics = conf (codes "x") ∷ conf (codes "y") ∷ [] }))
        racy
    × (others : List (MetricConfig × (Text × Text))) × (asked net racy one_url
        ≡ (conf (codes "x"), (codes "h", codes "y FORMAT JSON"))
          ∷ (conf (codes "y"), (codes "h", codes "y FORMAT JSON"))
          ∷ others)
custom_queries_race_example =
    custom_queries_race net ins (conf (codes "x")) (conf (codes "y")) [] one_url
      (pair (conf (codes "x")) no_step)

abbrev no_steps : Connect (Text × Text) → List CustomStep
no_steps conn = []

gather-silent_example :
    ((gather net ins no_steps no_samples).1 ≡ no_samples)
    × ((gather net ins no_steps no_samples).0 ≢ panicked)
    × (((gather net ins no_steps no_samples).0 ≡ ok)
        ↔ All (λ server. is_some (urls.parse server) ≡ true) ins.servers)
gather-silent_example = gather-silent net ins (λ r. refl) no_steps no_samples
