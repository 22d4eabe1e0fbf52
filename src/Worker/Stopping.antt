-- ===== src/Worker/Stopping.antt =====
-- What `Stop` and `StopAll` leave running, and histories of calls.
use kubemonitor.Common.{
  ℕ, ◌≡◌, inl, inr, refl, true, Option, none, some, List, [], ◌∷◌, arith, if◌then◌else◌, ==_iff,
  Option-cases, Text, text_eq, text_eq_refl, text_eq_iff, Map, lookup, is_some, lookup-delete,
  Distinct,
}
use kubemonitor.Worker.{
  Workers, new_worker, is_closed, add_worker_task, run, stop, stop_each, stop_all,
}
use kubemonitor.Worker.Sound.{
  Runs, IsSound, new_worker-IsSound, add_worker_task-IsSound, run-IsSound, closed_task,
  close_task-some, closed_task-IsSound,
}

-- `Stop` in a sound state never panics and leaves the state sound: the task is gone and every loop
-- that was started for it has its channel closed; the other tasks, and the loops, are as before.
pub stop_lem :
    (name : Text) (w : Workers)
    → IsSound w
    → (w' : Workers) × (stop name w ≡ some w')
      × IsSound w'
      × ((n : Text) → lookup n w'.tasks ≡ (if text_eq name n then none else lookup n w.tasks))
      × ((c : ℕ) → Runs name c w'.loops → is_closed c w'.closed ≡ true)
      × (w'.loops ≡ w.loops)
unfolding stop
stop_lem name w s = elim (Option-cases (lookup name w.tasks)) [
  | inl e ↦ (
    w,
    rw (e, stop),
    s,
    λ n. ground (arith, text_eq_iff name n),
    λ c r. ground (arith, s.tended name c r),
    refl,
  )
  | inr (c, e) ↦ (
    closed_task name c w,
    rw (e, stop) (close_task-some name c w s e),
    closed_task-IsSound name c w s e,
    λ n. lookup-delete name n w.tasks,
    λ d r. ground (arith, s.tended name d r, ==_iff c d),
    refl,
  )
]

-- Every entry of the list is a task.
abbrev Listed : Map ℕ → Workers → Type 0
Listed [] w = Unit
Listed ((name, c) ∷ m) w = (lookup name w.tasks ≡ some c) × Listed m w

Listed-closed_task :
    (name : Text) (c : ℕ) (m : Map ℕ) (w : Workers)
    → lookup name m ≡ none
    → Distinct m
    → Listed m w
    → Listed m (closed_task name c w)
unfolding lookup
Listed-closed_task name c [] w e d l = tt
Listed-closed_task name c ((n, b) ∷ m) w e d l = (
  ground (arith, lookup-delete name n w.tasks, text_eq_iff name n, text_eq_iff n name),
  Listed-closed_task name c m w (ground arith) d.1 l.1,
)

Listed-lookup :
    (m : Map ℕ) (w : Workers)
    → Distinct m
    → ((n : Text) (c : ℕ) → lookup n m ≡ some c → lookup n w.tasks ≡ some c)
    → Listed m w
unfolding lookup
Listed-lookup [] w d h = tt
Listed-lookup ((n, c) ∷ m) w d h = (
  h n c (rw text_eq_refl),
  Listed-lookup m w d.1 (λ j b e. h j b (ground (arith, e, d.0, text_eq_iff n j))),
)

-- What is left where every task of the list has been closed.
stop_each_lem :
    (m : Map ℕ) (w : Workers)
    → IsSound w
    → Distinct m
    → Listed m w
    → (w' : Workers) × (stop_each m w ≡ some w')
      × IsSound w'
      × ((n : Text) → lookup n w'.tasks ≡ (if is_some (lookup n m) then none else lookup n w.tasks))
      × (w'.loops ≡ w.loops)
unfolding stop_each lookup
stop_each_lem [] w s d l = (w, refl, s, λ n. refl, refl)
stop_each_lem ((name, c) ∷ m) w s d l =
    let (last, ran, sound, left, loops) =
      stop_each_lem m (closed_task name c w) (closed_task-IsSound name c w s l.0) d.1
        (Listed-closed_task name c m w d.0 d.1 l.1) in
    (
      last,
      rw (close_task-some name c w s l.0, stop_each) ran,
      sound,
      λ n. ground (arith, left n, lookup-delete name n w.tasks),
      loops,
    )

-- `StopAll` in a sound state never panics, leaves no task and changes no loop, and the channel of
-- every loop that was ever started is closed.
pub stop_all_lem :
    (w : Workers)
    → IsSound w
    → (w' : Workers) × (stop_all w ≡ some w')
      × IsSound w'
      × ((n : Text) → lookup n w'.tasks ≡ none)
      × (w'.loops ≡ w.loops)
      × ((n : Text) (c : ℕ) → Runs n c w'.loops → is_closed c w'.closed ≡ true)
unfolding stop_all
stop_all_lem w s =
    let (last, ran, sound, left, loops) =
      stop_each_lem w.tasks w s s.distinct (Listed-lookup w.tasks w s.distinct (λ n c e. e)) in
    let gone : (n : Text) → lookup n last.tasks ≡ none = λ n. ground (arith, left n) in
    (last, ran, sound, gone, loops, λ n c r. ground (arith, gone n, sound.tended n c r))

-- The calls of the interface `Worker` that change its state.
pub data Call : Type 0 where
  adds runs stops : Text → Call
  stops_all : Call

unfoldable pub step : Call → Workers → Option Workers
step (adds name) w = some (add_worker_task name w)
step (runs name) w = some (run name w).1
step (stops name) w = stop name w
step stops_all w = stop_all w

unfoldable pub steps : List Call → Workers → Option Workers
unfolding step
steps [] w = some w
steps (c ∷ cs) w = elim (step c w) [ none ↦ none | some w' ↦ steps cs w' ]

step-IsSound :
    (c : Call) (w : Workers) → IsSound w → (w' : Workers) × (step c w ≡ some w') × IsSound w'
unfolding step
step-IsSound (adds name) w s = (add_worker_task name w, refl, add_worker_task-IsSound name w s)
step-IsSound (runs name) w s = ((run name w).1, refl, run-IsSound name w s)
step-IsSound (stops name) w s = let (w', e, sound, _, _, _) = stop_lem name w s in (w', e, sound)
step-IsSound stops_all w s = let (w', e, sound, _, _, _) = stop_all_lem w s in (w', e, sound)

steps_from :
    (cs : List Call) (w : Workers)
    → IsSound w
    → (w' : Workers) × (steps cs w ≡ some w') × IsSound w'
unfolding steps
steps_from [] w s = (w, refl, s)
steps_from (c ∷ cs) w s =
    let (mid, e, sound) = step-IsSound c w s in
    let (last, ran, final) = steps_from cs mid sound in (last, rw (e, steps) ran, final)

-- Whatever calls are made, one after another, from a new worker on: no channel is closed twice, and
-- the state stays sound: each task has an open channel of its own, and each loop is that of the
-- task of its name or has its channel closed.
pub steps-IsSound : (cs : List Call) → (w : Workers) × (steps cs new_worker ≡ some w) × IsSound w
steps-IsSound cs = steps_from cs new_worker new_worker-IsSound
