-- ===== src/Process.antt =====
-- pkg/process/process.go: from the samples of a handler to the samples that are written.
pub mod Laws
pub mod Tests
use kubemonitor.Common.{
  Option, none, some, List, [], ◌∷◌, ◌==◌, if◌then◌else◌, Text, codes, Map, lookup, insert, is_some,
}
use kubemonitor.SafeList.{new_safe_list, push_front, pop_back_all, safe_len}
use kubemonitor.Sample.{Sample, SampleList, Time, is_zero, global_labels}

-- `for k, v := range from { if _, has := to[k]; !has { to[k] = v } }`.
add_missing : Map Text → Map Text → Map Text
add_missing [] to = to
add_missing ((k, v) ∷ from) to =
    add_missing from (if is_some (lookup k to) then to else insert k v to)

-- `if val, has := labels["instance"]; has { labels["address"] = val }`.
set_address : Map Text → Map Text
set_address labels = elim (lookup (codes "instance") labels) [
  | some v ↦ insert (codes "address") v labels
  | none ↦ labels
]

module _ {F : Type 0} where
  -- One round of the loop. A nil map of additional labels ranges over nothing.
  unfoldable pub process_sample : Time → Map Text → Sample F → Sample F
  unfolding add_missing set_address global_labels is_zero
  process_sample now extra s = record s {
    timestamp = if is_zero s.timestamp then now else s.timestamp;
    labels = set_address (add_missing extra (add_missing global_labels s.labels));
  }

  process_loop : Time → Map Text → List (Option (Sample F)) → SampleList F → SampleList F
  process_loop now extra [] nlst = nlst
  process_loop now extra (none ∷ ss) nlst = process_loop now extra ss nlst
  process_loop now extra (some s ∷ ss) nlst =
      process_loop now extra ss (push_front (some (process_sample now extra s)) nlst)

  -- The new list, and the given one as it is left.
  unfoldable pub process : Time → Map Text → SampleList F → Option (SampleList F × SampleList F)
  unfolding process_loop safe_len
  process now extra slist =
      if safe_len slist == 0 then some (new_safe_list, slist) else elim (pop_back_all slist) [
        | some (ss, rest) ↦ some (process_loop now extra ss new_safe_list, rest)
        | none ↦ none
      ]
