-- ===== src/Mysql/Processlist.antt =====
-- internal/handlers/mysql/processlist.go: the threads of the server, counted by state.
use kubemonitor.Common.{
  ℕ, ◌+◌, ◌%◌, ◌^◌, Bool, true, false, ◌&&◌, Option, none, some, List, [], ◌∷◌, map, ◌==◌,
  if◌then◌else◌, length, Text, codes, text_eq, one_of, contains, to_lower, replace_bytes, Map,
  lookup, insert,
}
use kubemonitor.Value.{uint32}
use kubemonitor.Sample.{SampleList, push_sample, copy}
use kubemonitor.Mysql.{input_name}

-- The keys of `generalThreadStates`, whose values are all 0.
abbrev pub general_thread_states : List Text
general_thread_states =
    codes "after create"
    ∷ codes "altering table"
    ∷ codes "analyzing"
    ∷ codes "checking permissions"
    ∷ codes "checking table"
    ∷ codes "cleaning up"
    ∷ codes "closing tables"
    ∷ codes "converting heap to myisam"
    ∷ codes "copying to tmp table"
    ∷ codes "creating sort index"
    ∷ codes "creating table"
    ∷ codes "creating tmp table"
    ∷ codes "deleting"
    ∷ codes "executing"
    ∷ codes "execution of init_command"
    ∷ codes "end"
    ∷ codes "freeing items"
    ∷ codes "flushing tables"
    ∷ codes "fulltext initialization"
    ∷ codes "idle"
    ∷ codes "init"
    ∷ codes "killed"
    ∷ codes "waiting for lock"
    ∷ codes "logging slow query"
    ∷ codes "login"
    ∷ codes "manage keys"
    ∷ codes "opening tables"
    ∷ codes "optimizing"
    ∷ codes "preparing"
    ∷ codes "reading from net"
    ∷ codes "removing duplicates"
    ∷ codes "removing tmp table"
    ∷ codes "reopen tables"
    ∷ codes "repair by sorting"
    ∷ codes "repair done"
    ∷ codes "repair with keycache"
    ∷ codes "replication master"
    ∷ codes "rolling back"
    ∷ codes "searching rows for update"
    ∷ codes "sending data"
    ∷ codes "sorting for group"
    ∷ codes "sorting for order"
    ∷ codes "sorting index"
    ∷ codes "sorting result"
    ∷ codes "statistics"
    ∷ codes "updating"
    ∷ codes "waiting for tables"
    ∷ codes "waiting for table flush"
    ∷ codes "waiting on cond"
    ∷ codes "writing to net"
    ∷ codes "other"
    ∷ []

abbrev pub state_status_mappings : Map Text
state_status_mappings =
    (codes "user sleep", codes "idle")
    ∷ (codes "creating index", codes "altering table")
    ∷ (codes "committing alter table to storage engine", codes "altering table")
    ∷ (codes "discard or import tablespace", codes "altering table")
    ∷ (codes "rename", codes "altering table")
    ∷ (codes "setup", codes "altering table")
    ∷ (codes "renaming result table", codes "altering table")
    ∷ (codes "preparing for alter table", codes "altering table")
    ∷ (codes "copying to group table", codes "copying to tmp table")
    ∷ (codes "copy to tmp table", codes "copying to tmp table")
    ∷ (codes "query end", codes "end")
    ∷ (codes "update", codes "updating")
    ∷ (codes "updating main table", codes "updating")
    ∷ (codes "updating reference tables", codes "updating")
    ∷ (codes "system lock", codes "waiting for lock")
    ∷ (codes "user lock", codes "waiting for lock")
    ∷ (codes "table lock", codes "waiting for lock")
    ∷ (codes "deleting from main table", codes "deleting")
    ∷ (codes "deleting from reference tables", codes "deleting")
    ∷ []

-- `strings.Replace(strings.ToLower(s), "_", " ", -1)`, of ASCII.
unfoldable pub spaced : Text → Text
spaced s = replace_bytes (λ c. c == b'_') (32 ∷ []) (to_lower s)

-- The part of `findThreadState` behind the two maps.
unfoldable pub other_state : Text → Text → Text
other_state command state =
    if contains state (codes "waiting for") && contains state (codes "lock")
    then codes "waiting for lock"
    else if text_eq command (codes "sleep") && length state == 0
    then codes "idle"
    else if text_eq command (codes "query")
    then codes "executing"
    else if text_eq command (codes "binlog dump")
    then codes "replication master"
    else codes "other"

unfoldable pub find_thread_state : Text → Text → Text
find_thread_state raw_command raw_state =
    let state = spaced raw_state in
    if one_of general_thread_states state
    then state
    else elim (lookup state state_status_mappings) [
      | some mapped ↦ mapped
      | none ↦ other_state (spaced raw_command) state
    ]

pub record Row : Type 0 where
  pub command : Text
  pub state : Text
  pub count : ℕ

abbrev pub initial_counts : Map ℕ
initial_counts = map (λ s. (s, 0)) general_thread_states

-- `stateCounts[foundState] += count`, in 32 bits.
unfoldable pub add_count : Text → ℕ → Map ℕ → Map ℕ
add_count s count counts =
    insert s ((elim (lookup s counts) [ some n ↦ n | none ↦ 0 ] + count) % 2 ^ 32) counts

-- `none` is a row that cannot be scanned: nothing is pushed then.
unfoldable pub count_rows : List (Option Row) → Map ℕ → Option (Map ℕ)
count_rows [] counts = some counts
count_rows (none ∷ rows) counts = none
count_rows (some r ∷ rows) counts =
    count_rows rows (add_count (find_thread_state r.command r.state) r.count counts)

module _ {F : Type 0} where
  unfoldable pub push_states : Map ℕ → Map Text → SampleList F → SampleList F
  push_states [] labels slist = slist
  push_states ((s, c) ∷ counts) labels slist = push_states counts labels (
      push_sample input_name (codes "processlist_processes_by_state") (uint32 c)
        (labels ∷ ((codes "state", s) ∷ []) ∷ []) slist)

  -- The flag is `GatherProcessListProcessByState`; the rows are `none` where the query fails.
  unfoldable pub gather_processlist_by_state :
      Bool → Option (List (Option Row)) → Map Text → SampleList F → SampleList F
  gather_processlist_by_state false rows tags slist = slist
  gather_processlist_by_state true none tags slist = slist
  gather_processlist_by_state true (some rows) tags slist = elim (count_rows rows initial_counts) [
    | none ↦ slist
    | some counts ↦ push_states counts (copy tags) slist
  ]
