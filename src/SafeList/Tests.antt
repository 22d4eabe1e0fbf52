-- ===== src/SafeList/Tests.antt =====
-- Runs of the lists.
use kubemonitor.Common.{ℕ, ◌≡◌, none, some, List, [], ◌∷◌, arith}
use kubemonitor.Common.Int.{pos, negsuc}
use kubemonitor.SafeList.{
  SafeList, SafeListLimited, new_safe_list, limited_push_front_n, new_safe_list_limited,
}
use kubemonitor.SafeList.Fifo.{queue}
use kubemonitor.SafeList.History.{
  Call, push, push_n, pop, pop_n, size, done, one, many, count, run, run-queue_run,
}
use kubemonitor.SafeList.Bounds.{IsBounded, Uses-IsBounded, here, next}
use kubemonitor.SafeList.Bounds

abbrev calls : List (Call ℕ)
calls = push 1 ∷ push_n (2 ∷ 3 ∷ []) ∷ pop ∷ size ∷ pop_n (pos 5) ∷ pop ∷ []

run-queue_run_example :
    (sl' : SafeList ℕ) × (run calls new_safe_list
      ≡ some (done ∷ done ∷ one (some 1) ∷ count 2 ∷ many (2 ∷ 3 ∷ []) ∷ one none ∷ [], sl'))
    × (queue sl' ≡ [])
run-queue_run_example = run-queue_run calls new_safe_list

-- A negative count panics where the list has an item, and not where it has none.
negative_test :
    (run {T = ℕ} (push 1 ∷ pop_n (negsuc 0) ∷ []) new_safe_list ≡ none)
    × ((sl : SafeList ℕ) × (run {T = ℕ} (pop_n (negsuc 0) ∷ []) new_safe_list
          ≡ some (many [] ∷ [], sl))
        × (queue sl ≡ []))
negative_test = (
  run-queue_run (push 1 ∷ pop_n (negsuc 0) ∷ []) new_safe_list,
  run-queue_run (pop_n (negsuc 0) ∷ []) new_safe_list,
)

-- A list of limit 2 with one item.
abbrev one_item : SafeListLimited ℕ
one_item = record { max_size = pos 2; sl = record { items = 9 ∷ [] } }

Uses-IsBounded_example :
    IsBounded 2 3 (limited_push_front_n (1 ∷ 2 ∷ 3 ∷ []) (new_safe_list_limited {T = ℕ} (pos 2))).1
Uses-IsBounded_example =
    Uses-IsBounded 2 3
      (next here (Bounds.push_n (1 ∷ 2 ∷ 3 ∷ []) (new_safe_list_limited (pos 2)) (omega arith)))
