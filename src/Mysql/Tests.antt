-- ===== src/Mysql/Tests.antt =====
-- Runs on a server.
use kubemonitor.Common.{
  ◌≡◌, refl, true, false, none, some, List, [], ◌∷◌, map, if◌then◌else◌, Text, codes, ◌++◌, Option,
  All, text_eq, has_prefix, has_suffix, to_lower, lookup,
}
use kubemonitor.Common.Int.{ℤ, pos}
use kubemonitor.Toy.{int_floats}
use kubemonitor.SafeList.{new_safe_list}
use kubemonitor.SafeList.Fifo.{queue}
use kubemonitor.Sample.{Sample, SampleList}
use kubemonitor.Mysql.Processlist.{Row}
use kubemonitor.Strconv.{parse_int}
use kubemonitor.Writer.{ok}
use kubemonitor.Factory.{ConfigMap, get}
use kubemonitor.Mysql.Config.{Instance, Dsn, raw_dsn, init}
use kubemonitor.Mysql.Setup.{IsConfigured, init-IsConfigured}
use kubemonitor.Mysql.Rows.{Db, Times, parse_status, parse_time}
use kubemonitor.Mysql.Status.{sql_global_status, gather_global_status}
use kubemonitor.Mysql.Variables.{sql_global_variables, gather_global_variables}
use kubemonitor.Mysql.Innodb.{gather_engine_innodb_status_compute}
use kubemonitor.Mysql.Gather.{is_up, gather}
use kubemonitor.Mysql.Pushed.{IsMysql}
use kubemonitor.Mysql.Whole.{up_sample, use_sample, gather-around}
use kubemonitor.Mysql.Pools.{pool_samples, compute-said}

abbrev threads : List Row
threads =
    record { command = codes "Sleep"; state = []; count = 3 }
    ∷ record { command = codes "Query"; state = codes "User sleep"; count = 1 }
    ∷ record { command = codes "Query"; state = codes "init_command"; count = 2 }
    ∷ []

abbrev no_samples : SampleList ℤ
no_samples = new_safe_list

-- A driver whose names are their texts, none of which has a timeout of its own.
abbrev driver : Dsn (Text × ℤ)
driver = record {
  parse = λ s. some (s, pos 0);
  timeout = λ conf. conf.1;
  with_timeout = λ t conf. (conf.0, t);
  format = λ conf. conf.0;
}

abbrev configured : ConfigMap
configured =
    (codes "address", codes "db:3306")
    ∷ (codes "timeout_seconds", codes "0")
    ∷ (codes "extra_innodb_metrics", codes "true")
    ∷ []

abbrev blank : Instance
blank = record {
  address = [];
  username = [];
  password = [];
  parameters = [];
  timeout_seconds = pos 0;
  extra_status_metrics = false;
  extra_innodb_metrics = false;
  gather_processlist_process_by_state = false;
  gather_processlist_process_by_user = false;
  gather_schema_size = true;
  gather_table_size = false;
  gather_system_table_size = false;
  gather_slave_status = false;
  disable_global_status = false;
  disable_global_variables = false;
  disable_innodb_status = false;
  disable_extra_innodb_status = false;
  disable_binlogs = true;
  valid_metrics = [];
  dsn = [];
}

init-IsConfigured_example :
    ((init driver configured blank).0 ≡ ok)
    × IsConfigured driver configured
        (pos 0)
        (codes ":@tcp(db:3306)/?", pos 0)
        (init driver configured blank).1
unfolding get lookup text_eq parse_int raw_dsn has_suffix has_prefix
init-IsConfigured_example =
    let (says, sets) = init-IsConfigured driver configured blank in
    (
      says.1 (pos 0, (codes ":@tcp(db:3306)/?", pos 0), (refl, refl, refl)),
      sets (pos 0) (codes ":@tcp(db:3306)/?", pos 0) (refl, refl, refl),
    )

abbrev statuses : List (Option (Text × Text))
statuses =
    some (codes "Innodb_buffer_pool_pages_total", codes "100")
    ∷ none
    ∷ some (codes "Innodb_buffer_pool_pages_free", codes "40")
    ∷ some (codes "Com_select", codes "7")
    ∷ []

abbrev variables : List (Option (Text × Text))
variables =
    some (codes "innodb_page_size", codes "16384") ∷ some (codes "version", codes "8.0") ∷ []

abbrev db : Db
db = record {
  opens = λ dsn. true;
  ping = true;
  pairs = λ sql.
      if text_eq sql sql_global_status
      then some statuses
      else if text_eq sql sql_global_variables
      then some variables
      else none;
  triple = λ sql. none;
  sizes = λ sql. some (some (codes "shop", pos 4096) ∷ []);
  tables = λ sql. none;
  threads = λ sql. none;
  log_bin = none;
  binlogs = none;
  binlog_columns = none;
  columns = λ sql. none;
}

abbrev times : Times
times = record { parse_unix = λ layout s. none }

gather-around_example :
    let r = gather times (pos 1) blank db no_samples in
    (r.0 ≡ ok)
    × (more : List (Sample ℤ)) × (queue r.1
        ≡ some (up_sample [] true) ∷ map (λ s. some s) more ++ some (use_sample [] (pos 1)) ∷ [])
    × All (IsMysql []) more
    × (true ≡ false → more ≡ [])
unfolding is_up
gather-around_example = gather-around times (pos 1) blank db no_samples

compute-said_example :
    let (cache, l1) = gather_global_status times blank db [] [] no_samples in
    let cache' = (gather_global_variables times blank db [] cache l1).0 in
    queue (gather_engine_innodb_status_compute blank [] cache' no_samples)
    ≡ pool_samples [] false (pos 100) (pos 40) (pos 0) (pos 0) (pos 16384)
unfolding text_eq to_lower parse_status parse_time parse_int
compute-said_example =
    compute-said times blank db [] statuses variables no_samples no_samples refl refl refl refl
