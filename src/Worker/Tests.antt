-- ===== src/Worker/Tests.antt =====
-- Runs of the worker.
use kubemonitor.Common.{ℕ, ◌≡◌, true, none, some, List, [], ◌∷◌, Text, codes, lookup}
use kubemonitor.Worker.{Workers, new_worker, is_closed, add_worker_task, run, stop_all}
use kubemonitor.Worker.Sound.{
  IsSound, Runs, new_worker-IsSound, add_worker_task-IsSound, run-IsSound,
}
use kubemonitor.Worker.Stopping.{
  stop_all_lem, Call, adds, runs, stops, stops_all, steps, steps-IsSound,
}

abbrev db : Text
db = codes "db"

-- One task, which runs.
abbrev one_task : Workers
one_task = (run db (add_worker_task db new_worker)).1

one_task-IsSound : IsSound one_task
one_task-IsSound =
    run-IsSound db (add_worker_task db new_worker)
      (add_worker_task-IsSound db new_worker new_worker-IsSound)

stop_all_lem_example :
    (w' : Workers) × (stop_all one_task ≡ some w')
    × IsSound w'
    × ((n : Text) → lookup n w'.tasks ≡ none)
    × (w'.loops ≡ one_task.loops)
    × ((n : Text) (c : ℕ) → Runs n c w'.loops → is_closed c w'.closed ≡ true)
stop_all_lem_example = stop_all_lem one_task one_task-IsSound

abbrev calls : List Call
calls = adds db ∷ runs db ∷ adds (codes "kv") ∷ stops db ∷ stops db ∷ adds db ∷ stops_all ∷ []

steps-IsSound_example : (w : Workers) × (steps calls new_worker ≡ some w) × IsSound w
steps-IsSound_example = steps-IsSound calls
