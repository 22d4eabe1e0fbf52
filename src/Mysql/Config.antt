-- ===== src/Mysql/Config.antt =====
-- internal/handlers/mysql/mysql.go: the handler's configuration. The driver's data source names are
-- a parameter.
use kubemonitor.Common.{
  ◌^◌, Bool, Option, none, some, List, [], ◌∷◌, ◌++◌, ◌==◌, if◌then◌else◌, length, Text, codes,
  text_eq, has_suffix, Map, insert,
}
use kubemonitor.Common.Int.{ℤ, pos, ◌*ℤ◌, eq_ℤ}
use kubemonitor.Strconv.{parse_int}
use kubemonitor.Writer.{Outcome, ok, failed}
use kubemonitor.Conv.{wrap64}
use kubemonitor.Factory.{ConfigMap, get}
use kubemonitor.Mysql.Names.{
  status_vars, variables_vars, innodb_vars, binlog_vars, optional_status_vars, optional_innodb_vars,
  galera_vars, performance_vars, schema_vars, table_vars, replica_vars, group_replication_vars,
  synthetic_vars,
}

pub record Instance : Type 0 where
  pub address : Text
  pub username : Text
  pub password : Text
  pub parameters : Text
  pub timeout_seconds : ℤ
  pub extra_status_metrics : Bool
  pub extra_innodb_metrics : Bool
  pub gather_processlist_process_by_state : Bool
  pub gather_processlist_process_by_user : Bool
  pub gather_schema_size : Bool
  pub gather_table_size : Bool
  pub gather_system_table_size : Bool
  pub gather_slave_status : Bool
  pub disable_global_status : Bool
  pub disable_global_variables : Bool
  pub disable_innodb_status : Bool
  pub disable_extra_innodb_status : Bool
  pub disable_binlogs : Bool
  pub valid_metrics : Map {0} Unit
  pub dsn : Text

-- `ParseDSN` of the driver, the timeout of its result in nanoseconds, and `FormatDSN`.
pub record Dsn (C : Type 0) : Type 0 where
  pub parse : Text → Option C
  pub timeout : C → ℤ
  pub with_timeout : ℤ → C → C
  pub format : C → Text

-- `for key := range names { validMetrics[key] = struct{}{} }`.
unfoldable pub add_names : List Text → Map {0} Unit → Map {0} Unit
unfolding insert
add_names [] m = m
add_names (name ∷ names) m = add_names names (insert name tt m)

-- The eleven maps that are always added.
abbrev pub always : List Text
always =
    status_vars ++ variables_vars ++ innodb_vars ++ binlog_vars ++ galera_vars ++ performance_vars
    ++ schema_vars ++ table_vars ++ replica_vars ++ group_replication_vars ++ synthetic_vars

unfoldable pub init_valid_metrics : Instance → Instance
unfolding add_names
init_valid_metrics ins =
    let known = add_names always [] in
    let with_status =
      if ins.extra_status_metrics then add_names optional_status_vars known else known in
    record ins {
      valid_metrics =
          if ins.extra_innodb_metrics
          then add_names optional_innodb_vars with_status
          else with_status;
    }

-- `config[key] == "true"`.
abbrev pub is_on : ConfigMap → Text → Bool
is_on config key = text_eq (get config key) (codes "true")

-- The fields that are set in front of the timeout.
abbrev pub with_account : ConfigMap → Instance → Instance
with_account config ins = record ins {
  address = get config (codes "address");
  username = get config (codes "username");
  password = get config (codes "password");
  parameters = get config (codes "parameters");
}

-- The timeout, and the flags behind it.
abbrev pub with_flags : ConfigMap → ℤ → Instance → Instance
with_flags config timeout ins = record ins {
  timeout_seconds = timeout;
  extra_status_metrics = is_on config (codes "extra_status_metrics");
  extra_innodb_metrics = is_on config (codes "extra_innodb_metrics");
  gather_processlist_process_by_state =
      is_on config (codes "gather_processlist_processes_by_state");
  gather_processlist_process_by_user = is_on config (codes "gather_processlist_processes_by_user");
  gather_schema_size = is_on config (codes "gather_schema_size");
  gather_table_size = is_on config (codes "gather_table_size");
  gather_system_table_size = is_on config (codes "gather_system_table_size");
  gather_slave_status = is_on config (codes "gather_slave_status");
  disable_global_status = is_on config (codes "disable_global_status");
  disable_global_variables = is_on config (codes "disable_global_variables");
  disable_innodb_status = is_on config (codes "disable_innodb_status");
  disable_extra_innodb_status = is_on config (codes "disable_extra_innodb_status");
  disable_binlogs = is_on config (codes "disable_binlogs");
}

unfoldable pub raw_dsn : Instance → Text
unfolding has_suffix
raw_dsn ins =
    ins.username
    ++ b':' ∷ ins.password
    ++ b'@' ∷ (if has_suffix ins.address (codes ".sock") then codes "unix" else codes "tcp")
    ++ b'(' ∷ ins.address
    ++ codes ")/?"
    ++ ins.parameters

-- The default of 3 seconds, if neither the name nor the field has a timeout.
unfoldable pub with_timeout : {C : Type 0} → Dsn C → C → Instance → Instance
unfolding wrap64 ◌*ℤ◌
with_timeout driver conf ins =
    if eq_ℤ (driver.timeout conf) (pos 0)
    then (let seconds = if eq_ℤ ins.timeout_seconds (pos 0) then pos 3 else ins.timeout_seconds in
        record ins {
          timeout_seconds = seconds;
          dsn = driver.format (driver.with_timeout (wrap64 (pos (10 ^ 9) *ℤ seconds)) conf);
        })
    else record ins { dsn = driver.format conf }

module _ {C : Type 0} (driver : Dsn C) where
  -- `Init` behind `ParseDSN`, whose result is given.
  unfoldable pub init_named : Instance → Option C → Outcome × Instance
  unfolding with_timeout init_valid_metrics
  init_named ins none = (failed, ins)
  init_named ins (some conf) = (ok, init_valid_metrics (with_timeout driver conf ins))

  -- `Init` behind the flags.
  unfoldable pub init_flagged : Instance → Outcome × Instance
  unfolding raw_dsn init_named
  init_flagged ins =
      if length ins.address == 0
      then (failed, ins)
      else init_named (record ins { dsn = raw_dsn ins }) (driver.parse (raw_dsn ins))

  -- `Init` behind the timeout.
  unfoldable pub init_timed : ConfigMap → Instance → Option ℤ → Outcome × Instance
  unfolding init_flagged
  init_timed config ins none = (failed, ins)
  init_timed config ins (some seconds) = init_flagged (with_flags config seconds ins)

  -- `Init`, with what it leaves of the object also where it fails.
  unfoldable pub init : ConfigMap → Instance → Outcome × Instance
  unfolding init_timed
  init config ins =
      init_timed config (with_account config ins) (parse_int (get config (codes "timeout_seconds")))
