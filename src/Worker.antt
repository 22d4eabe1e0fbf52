-- ===== src/Worker.antt =====
-- pkg/worker/worker.go: the tasks by name, each with a stop channel, and the loops that run until
-- their channel is closed. A channel is its number, in the order of `make`; `none` is the panic of
-- closing a closed channel.
pub mod Sound
pub mod Stopping
pub mod Tests
use kubemonitor.Common.{
  ℕ, suc, Bool, false, ◌||◌, Option, none, some, List, [], ◌∷◌, ◌==◌, if◌then◌else◌, Text, Map,
  lookup, insert, delete, is_some,
}
use kubemonitor.Writer.{Outcome, ok, failed}

-- `loops` are the goroutines `wait.Until(f, period, stopCh)` that `Run` has started, with the name
-- of their task and their channel; such a loop runs on until the channel is closed.
pub record Workers : Type 0 where
  pub tasks : Map ℕ
  pub closed : List ℕ
  pub made : ℕ
  pub loops : List (Text × ℕ)

abbrev pub new_worker : Workers
new_worker = record { tasks = []; closed = []; made = 0; loops = [] }

abbrev pub is_closed : ℕ → List ℕ → Bool
is_closed c [] = false
is_closed c (d ∷ closed) = (d == c) || is_closed c closed

-- `close(ch)`.
close : ℕ → Workers → Option Workers
close c w = if is_closed c w.closed then none else some (record w { closed = c ∷ w.closed })

unfoldable pub exist : Text → Workers → Bool
exist name w = is_some (lookup name w.tasks)

unfoldable pub add_worker_task : Text → Workers → Workers
add_worker_task name w = elim (lookup name w.tasks) [
  | some c ↦ w
  | none ↦ record w { tasks = insert name w.made w.tasks; made = suc w.made }
]

-- `Run`: the loop is started for the channel that the task has now.
unfoldable pub run : Text → Workers → Outcome × Workers
run name w = elim (lookup name w.tasks) [
  | none ↦ (failed, w)
  | some c ↦ (ok, record w { loops = (name, c) ∷ w.loops })
]

-- `close(taskObj.stopCh)` and `w.Tasks.Delete(name)`.
unfoldable pub close_task : Text → ℕ → Workers → Option Workers
unfolding close
close_task name c w = elim (close c w) [
  | none ↦ none
  | some w' ↦ some (record w' { tasks = delete name w'.tasks })
]

-- A task that is not there is only logged.
unfoldable pub stop : Text → Workers → Option Workers
unfolding close_task
stop name w = elim (lookup name w.tasks) [ none ↦ some w | some c ↦ close_task name c w ]

-- The range of `StopAll` over the tasks that there are at its start.
unfoldable pub stop_each : Map ℕ → Workers → Option Workers
stop_each [] w = some w
stop_each ((name, c) ∷ tasks) w = elim (close_task name c w) [
  | none ↦ none
  | some w' ↦ stop_each tasks w'
]

unfoldable pub stop_all : Workers → Option Workers
unfolding stop_each
stop_all w = stop_each w.tasks w
