-- ===== src/Mysql/Gather.antt =====
-- internal/handlers/mysql/mysql.go: `Gather`.
use kubemonitor.Common.{Bool, false, true, ◌&&◌, [], ◌∷◌, if◌then◌else◌, Text, codes, Map}
use kubemonitor.Common.Int.{pos}
use kubemonitor.Value.{Floats, float64, int}
use kubemonitor.Sample.{SampleList}
use kubemonitor.Writer.{Outcome, ok, failed}
use kubemonitor.Mysql.Config.{Instance}
use kubemonitor.Mysql.Rows.{Db, Times, push_plain}
use kubemonitor.Mysql.Status.{gather_global_status}
use kubemonitor.Mysql.Variables.{gather_global_variables}
use kubemonitor.Mysql.Innodb.{gather_engine_innodb_status, gather_engine_innodb_status_compute}
use kubemonitor.Mysql.Binlog.{gather_binlog}
use kubemonitor.Mysql.Processlist.{gather_processlist_by_state}
use kubemonitor.Mysql.Sizes.{gather_schema_size, gather_table_size, gather_processlist_by_user}
use kubemonitor.Mysql.Replica.{gather_slave_status}

abbrev pub sql_info_schema_processlist : Text
sql_info_schema_processlist =
    codes
      "\n        SELECT COALESCE(command,''),COALESCE(state,''),count(*)\n        FROM information_schema.processlist\n        WHERE ID != connection_id()\n        GROUP BY command,state\n        ORDER BY null"

-- Whether the server is there: it can be opened, and it answers.
unfoldable pub is_up : Instance → Db → Bool
is_up ins db = db.opens ins.dsn && db.ping

module _ {F : Type 0} where
  unfoldable pub push_up : Bool → Map Text → SampleList F → SampleList F
  push_up up tags slist = push_plain (codes "up") (int (if up then pos 1 else pos 0)) tags slist

  -- The deferred function: `seconds` is the time that the call took.
  unfoldable pub push_scrape_use : F → Map Text → SampleList F → SampleList F
  push_scrape_use seconds tags slist =
      push_plain (codes "scrape_use_seconds") (float64 seconds) tags slist

module _ {F : Type 0} ⦃fl : Floats F⦄ where
  -- The calls behind the status variables, which the cache comes from.
  unfoldable pub gather_rest :
      Times → Instance → Db → Map Text → Map F → SampleList F → SampleList F
  gather_rest times ins db tags cache slist =
      let innodb =
        gather_engine_innodb_status_compute ins tags cache
          (gather_engine_innodb_status ins db tags slist) in
      let binlog =
        gather_binlog ins.disable_binlogs db.log_bin db.binlogs db.binlog_columns tags innodb in
      let threads =
        gather_processlist_by_state ins.gather_processlist_process_by_state
          (db.threads sql_info_schema_processlist) tags binlog in
      let users = gather_processlist_by_user ins db tags threads in
      let schemas = gather_schema_size ins db tags users in
      let tables = gather_table_size ins db tags false schemas in
      let system = gather_table_size ins db tags true tables in
      gather_slave_status times ins db tags system

  -- The calls behind `up`.
  unfoldable pub gather_all : Times → Instance → Db → Map Text → SampleList F → SampleList F
  unfolding gather_rest
  gather_all times ins db tags slist =
      let (cache, status) = gather_global_status times ins db tags [] slist in
      let (cache', variables) = gather_global_variables times ins db tags cache status in
      gather_rest times ins db tags cache' variables

  -- `Gather`: the deferred function pushes last, however it ends.
  unfoldable pub gather : Times → F → Instance → Db → SampleList F → Outcome × SampleList F
  unfolding gather_all is_up push_up push_scrape_use
  gather times seconds ins db slist =
      let tags = (codes "address", ins.address) ∷ [] in
      if is_up ins db
      then (
        ok,
        push_scrape_use seconds tags (gather_all times ins db tags (push_up true tags slist)),
      )
      else (failed, push_scrape_use seconds tags (push_up false tags slist))
