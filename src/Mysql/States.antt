-- ===== src/Mysql/States.antt =====
-- Which states the threads are counted under.
use kubemonitor.Common.{
  ◌≡◌, ◌≢◌, inl, inr, refl, ap, Bool, true, false, not, ◌&&◌, some, [], ◌∷◌, arith, ◌==◌,
  Bool-cases, Option-cases, length, any, Text, codes, text_eq, text_eq_iff, one_of, contains,
  to_lower, replace_bytes, Map, lookup,
}
use kubemonitor.Mysql.Processlist.{
  general_thread_states, state_status_mappings, spaced, other_state, find_thread_state,
}

unfoldable pub is_known : Text → Bool
is_known s = one_of general_thread_states s

abbrev pub init_command : Text
init_command = codes "execution of init_command"

unfoldable is_other : Text → Bool
is_other s = not (text_eq init_command s)

-- Every value of the map passes the test.
all_values : (Text → Bool) → Map Text → Bool
all_values p [] = true
all_values p ((k, v) ∷ m) = p v && all_values p m

lookup-all_values :
    (p : Text → Bool) (k v : Text) (m : Map Text)
    → all_values p m ≡ true
    → lookup k m ≡ some v
    → p v ≡ true
unfolding all_values lookup
lookup-all_values p k v [] h e = cc
lookup-all_values p k v ((j, w) ∷ m) h e = ground (arith, lookup-all_values p k v m)

other_state-passes :
    (p : Text → Bool) (command state : Text)
    → p (codes "waiting for lock") ≡ true
    → p (codes "idle") ≡ true
    → p (codes "executing") ≡ true
    → p (codes "replication master") ≡ true
    → p (codes "other") ≡ true
    → p (other_state command state) ≡ true
unfolding other_state
other_state-passes p command state a b c d e =
    elim (Bool-cases (contains state (codes "waiting for") && contains state (codes "lock"))) [
      | inl x ↦ rw (x, other_state) a
      | inr x ↦ elim (Bool-cases (text_eq command (codes "sleep") && length state == 0)) [
        | inl y ↦ rw (x, y, other_state) b
        | inr y ↦ elim (Bool-cases (text_eq command (codes "query"))) [
          | inl z ↦ rw (x, y, z, other_state) c
          | inr z ↦ elim (Bool-cases (text_eq command (codes "binlog dump"))) [
            | inl w ↦ rw (x, y, z, w, other_state) d
            | inr w ↦ rw (x, y, z, w, other_state) e
          ]
        ]
      ]
    ]

-- A test that the known states pass, the mapped ones, and the five that are left, is passed by
-- every state that is found.
find_thread_state-passes :
    (p : Text → Bool) (command state : Text)
    → (one_of general_thread_states (spaced state) ≡ true → p (spaced state) ≡ true)
    → all_values p state_status_mappings ≡ true
    → p (codes "waiting for lock") ≡ true
    → p (codes "idle") ≡ true
    → p (codes "executing") ≡ true
    → p (codes "replication master") ≡ true
    → p (codes "other") ≡ true
    → p (find_thread_state command state) ≡ true
unfolding find_thread_state
find_thread_state-passes p command state known mapped a b c d e =
    elim (Bool-cases (one_of general_thread_states (spaced state))) [
      | inl x ↦ rw (x, find_thread_state) (known x)
      | inr x ↦ elim (Option-cases (lookup (spaced state) state_status_mappings)) [
        | inr (v, f) ↦
            rw (x, find_thread_state)
              (rw f (lookup-all_values p (spaced state) v state_status_mappings mapped f))
        | inl f ↦
            rw (x, find_thread_state)
              (rw f (other_state-passes p (spaced command) (spaced state) a b c d e))
      ]
    ]

-- The state that is found for a thread is one of the states that are counted.
pub find_thread_state_known :
    (command state : Text) → is_known (find_thread_state command state) ≡ true
unfolding is_known all_values text_eq
find_thread_state_known command state =
    find_thread_state-passes is_known command state (λ h. h) refl refl refl refl refl refl

has_underscore : Text → Bool
has_underscore s = any (λ c. c == b'_') s

spaced_plain : (s : Text) → has_underscore (replace_bytes (λ c. c == b'_') (32 ∷ []) s) ≡ false
unfolding has_underscore replace_bytes
spaced_plain [] = refl
spaced_plain (c ∷ s) = ground (arith, spaced_plain s)

ne_of_underscore : (s : Text) → has_underscore s ≡ false → text_eq init_command s ≡ false
unfolding has_underscore
ne_of_underscore s h = ground (arith, text_eq_iff init_command s)

-- No thread is ever counted under `execution of init_command`: each `_` of a state has become a
-- space by then.
find_thread_state-ne-init_command :
    (command state : Text) → find_thread_state command state ≢ init_command
unfolding is_other all_values text_eq spaced
find_thread_state-ne-init_command command state e = ground (
  arith,
  find_thread_state-passes is_other command state
      (λ h. ap not (ne_of_underscore (spaced state) (spaced_plain (to_lower state)))) refl refl refl
      refl refl refl,
  e,
  text_eq_iff init_command (find_thread_state command state),
)
