-- ===== src/Controller/Loops.antt =====
-- The loops of the worker whose channel is open: at most one for each name.
use kubemonitor.Common.{
  ℕ, suc, ◌+◌, ◌≡◌, inl, inr, refl, ap, subst, ◌∙◌, true, false, not, ◌&&◌, some, List, [], ◌∷◌,
  arith, if◌then◌else◌, ==_iff, Bool-cases, Option-cases, Text, text_eq, text_eq_refl, text_eq_iff,
  text_eq_sound, lookup, insert, is_some, lookup-insert, lookup-delete, lookup-insert_self,
}
use kubemonitor.Writer.{Outcome, ok}
use kubemonitor.Worker.{Workers, new_worker, is_closed, exist, add_worker_task, run, stop}
use kubemonitor.Worker.Sound.{
  Runs, IsSound, new_worker-IsSound, add_worker_task-IsSound, run-IsSound, closed_task,
  close_task-some, closed_task-IsSound,
}
use kubemonitor.Controller.{}

-- How many loops of a name have an open channel.
pub live_in : Text → List (Text × ℕ) → List ℕ → ℕ
live_in n [] closed = 0
live_in n ((m, c) ∷ loops) closed =
    (if text_eq m n && not (is_closed c closed) then 1 else 0) + live_in n loops closed

abbrev pub live : Text → Workers → ℕ
live n w = live_in n w.loops w.closed

live_in-none :
    (n : Text) (loops : List (Text × ℕ)) (closed : List ℕ)
    → ((c : ℕ) → Runs n c loops → is_closed c closed ≡ true)
    → live_in n loops closed ≡ 0
unfolding live_in
live_in-none n [] closed h = refl
live_in-none n ((m, c) ∷ loops) closed h =
    let rest = live_in-none n loops closed (λ d r. h d (inr r)) in
    elim (Bool-cases (text_eq m n)) [
      | inl same ↦ ground (arith, rest, same, h c (inl (text_eq_sound m n same, refl)))
      | inr other ↦ ground (arith, rest, other)
    ]

live_in-same :
    (n : Text) (loops : List (Text × ℕ)) (closed closed' : List ℕ)
    → ((c : ℕ) → Runs n c loops → is_closed c closed' ≡ is_closed c closed)
    → live_in n loops closed' ≡ live_in n loops closed
unfolding live_in
live_in-same n [] closed closed' h = refl
live_in-same n ((m, c) ∷ loops) closed closed' h =
    let rest = live_in-same n loops closed closed' (λ d r. h d (inr r)) in
    elim (Bool-cases (text_eq m n)) [
      | inl same ↦ ground (arith, rest, same, h c (inl (text_eq_sound m n same, refl)))
      | inr other ↦ ground (arith, rest, other)
    ]

-- A monitor has one live loop if it has a task, and none if it has not.
pub record IsTended (w : Workers) : Type 0 where
  pub sound : IsSound w
  pub one : (n : Text) → live n w ≡ (if exist n w then 1 else 0)

pub new_worker-IsTended : IsTended new_worker
unfolding exist live_in lookup
new_worker-IsTended = record { sound = new_worker-IsSound; one = λ n. refl }

closed_task-IsTended :
    (name : Text) (c : ℕ) (w : Workers)
    → lookup name w.tasks ≡ some c
    → IsTended w
    → IsTended (closed_task name c w)
unfolding exist
closed_task-IsTended name c w e t =
    let s' = closed_task-IsSound name c w t.sound e in
    record {
      sound = s';
      one = λ n. elim (Bool-cases (text_eq name n)) [
        | inl same ↦
            live_in-none n w.loops (c ∷ w.closed)
              (λ d r. ground (arith, s'.tended n d r, lookup-delete name n w.tasks, same))
            ∙ ground (arith, lookup-delete name n w.tasks, same)
        | inr other ↦
            live_in-same n w.loops w.closed (c ∷ w.closed) (λ d r. ground (
              arith,
              t.sound.tended n d r,
              t.sound.apart name n d,
              text_eq_iff name n,
              ==_iff c d,
              e,
              other,
            ))
            ∙ t.one n
            ∙ ground (arith, lookup-delete name n w.tasks, other)
      ];
    }

pub stop-IsTended :
    (name : Text) (w : Workers)
    → IsTended w
    → (w' : Workers) × (stop name w ≡ some w') × IsTended w' × (live name w' ≡ 0)
unfolding stop exist
stop-IsTended name w t = elim (Option-cases (lookup name w.tasks)) [
  | inl e ↦ (w, rw (e, stop), t, t.one name ∙ rw e)
  | inr (c, e) ↦
      let t' = closed_task-IsTended name c w e t in
      (
        closed_task name c w,
        rw (e, stop) (close_task-some name c w t.sound e),
        t',
        t'.one name ∙ ground (arith, lookup-delete name name w.tasks, text_eq_refl name),
      )
]

-- The workers behind `AddWorkerTask` and `Run` of a new name.
abbrev pub started : Text → Workers → Workers
started name w = record w {
  tasks = insert name w.made w.tasks;
  made = suc w.made;
  loops = (name, w.made) ∷ w.loops;
}

pub started_lem :
    (name : Text) (w : Workers)
    → exist name w ≡ false
    → run name (add_worker_task name w) ≡ (ok, started name w)
unfolding exist run add_worker_task
started_lem name w e = elim (Option-cases (lookup name w.tasks)) [
  | inr (c, f) ↦ absurd (cc (e, ap is_some f))
  | inl f ↦ rw (f, add_worker_task) (rw (run, lookup-insert_self name w.made w.tasks))
]

pub started-IsTended :
    (name : Text) (w : Workers)
    → exist name w ≡ false
    → IsTended w
    → IsTended (started name w) × (live name (started name w) ≡ 1)
unfolding exist live_in
started-IsTended name w e t =
    let one : (n : Text) → live n (started name w) ≡ (if exist n (started name w) then 1 else 0) =
      λ n. ground (
        arith,
        t.one n,
        e,
        t.sound.spent w.made,
        lookup-insert name n w.made w.tasks,
        text_eq_iff name n,
      ) in
    (
      record {
        sound =
            subst (λ (x : Outcome × Workers). IsSound x.1) (started_lem name w e)
              (run-IsSound name (add_worker_task name w) (add_worker_task-IsSound name w t.sound));
        one = one;
      },
      one name ∙ ground (arith, lookup-insert_self name w.made w.tasks),
    )
