-- ===== src/Mysql/Counts.antt =====
-- The counts of the threads by state.
use kubemonitor.Common.{
  ℕ, ◌+◌, ◌%◌, ◌^◌, ◌≡◌, Bool, ◌&&◌, contains, length, ◌==◌, lower_byte, Option, none, some, List,
  [], ◌∷◌, ◌++◌, map, if◌then◌else◌, Text, codes, text_eq, one_of, Map, lookup,
}
use kubemonitor.Value.{uint32}
use kubemonitor.Sample.{Sample, new_sample, copy}
use kubemonitor.Mysql.{input_name}
use kubemonitor.Mysql.Processlist.{general_thread_states, state_status_mappings, Row}
use kubemonitor.Mysql.States.{is_known}

-- In small letters, with each `_` a space.
abbrev pub plain : Text → Text
plain = map (λ c. if c == b'_' then 32 else lower_byte c)

-- The rules for a state that is in neither table.
abbrev pub other_rules : Text → Text → List (Bool × Text)
other_rules command state =
    (
      contains state (codes "waiting for") && contains state (codes "lock"),
      codes "waiting for lock",
    )
    ∷ (text_eq command (codes "sleep") && length state == 0, codes "idle")
    ∷ (text_eq command (codes "query"), codes "executing")
    ∷ (text_eq command (codes "binlog dump"), codes "replication master")
    ∷ []

-- The rules for a command and a state, in the order in which they apply.
abbrev pub rules : Text → Text → List (Bool × Text)
rules command state =
    (one_of general_thread_states state, state)
      ∷ map (λ (m : Text × Text). (text_eq m.0 state, m.1)) state_status_mappings
    ++ other_rules command state

abbrev pub first_rule : List (Bool × Text) → Text
first_rule [] = codes "other"
first_rule ((applies, state) ∷ more) = if applies then state else first_rule more

-- The state under which a thread belongs.
abbrev pub expected : Text → Text → Text
expected command state = first_rule (rules (plain command) (plain state))

-- The threads of the rows that belong under `s`.
abbrev pub total : Text → List Row → ℕ
total s [] = 0
total s (r ∷ rows) = (if text_eq (expected r.command r.state) s then r.count else 0) + total s rows

-- The map says `n s` for each known state, in 32 bits, and nothing for any other.
abbrev pub Says : (Text → ℕ) → Map ℕ → Type 0
Says n counts = (s : Text) → lookup s counts ≡ (if is_known s then some (n s % 2 ^ 32) else none)

module _ {F : Type 0} where
  -- The sample of one state.
  abbrev pub state_sample : Map Text → Text × ℕ → Option (Sample F)
  state_sample tags (s, c) = some (
      new_sample input_name (codes "processlist_processes_by_state") (uint32 c)
        (copy tags ∷ ((codes "state", s) ∷ []) ∷ []))
