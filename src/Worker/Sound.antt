-- ===== src/Worker/Sound.antt =====
-- The invariant of the tasks and their channels.
use kubemonitor.Common.{
  ℕ, ◌<◌, ◌≡◌, ◌⊎◌, inl, inr, ap, subst, ◌∙◌, true, false, some, List, [], ◌∷◌, arith, ==_iff,
  Option-cases, Text, text_eq_iff, lookup, delete, lookup-insert, lookup-delete, Distinct,
  insert-Distinct, delete-Distinct,
}
use kubemonitor.Worker.{Workers, new_worker, is_closed, add_worker_task, run, close_task}

-- A loop of the list.
abbrev pub Runs : Text → ℕ → List (Text × ℕ) → Type 0
Runs n c [] = ⊥
Runs n c ((m, d) ∷ loops) = ((m ≡ n) × (d ≡ c)) ⊎ Runs n c loops

pub record IsSound (w : Workers) : Type 0 where
  pub distinct : Distinct w.tasks
  -- A task's channel has been made and is open, and no other task has it.
  pub fresh : (n : Text) (c : ℕ) → lookup n w.tasks ≡ some c → c < w.made
  pub is_open : (n : Text) (c : ℕ) → lookup n w.tasks ≡ some c → is_closed c w.closed ≡ false
  pub apart : (n m : Text) (c : ℕ) → lookup n w.tasks ≡ some c → lookup m w.tasks ≡ some c → n ≡ m
  pub spent : (c : ℕ) → is_closed c w.closed ≡ true → c < w.made
  -- A loop is that of the task of its name, or its channel is closed.
  pub tended :
      (n : Text) (c : ℕ)
      → Runs n c w.loops
      → (lookup n w.tasks ≡ some c) ⊎ (is_closed c w.closed ≡ true)

pub new_worker-IsSound : IsSound new_worker
new_worker-IsSound = record {
  distinct = tt;
  fresh = λ n c e. absurd (nothing n c e);
  is_open = λ n c e. absurd (nothing n c e);
  apart = λ n m c e f. absurd (nothing n c e);
  spent = λ c e. cc;
  tended = λ n c r. absurd r;
}
  where
    nothing : (n : Text) (c : ℕ) → lookup {V = ℕ} n [] ≡ some c → ⊥
    nothing n c e = unfold lookup in cc e

pub add_worker_task-IsSound :
    (name : Text) (w : Workers) → IsSound w → IsSound (add_worker_task name w)
unfolding add_worker_task
add_worker_task-IsSound name w s = elim (Option-cases (lookup name w.tasks)) [
  | inr (c, e) ↦ rw (e, add_worker_task) s
  | inl e ↦
      let at = λ (n : Text). lookup-insert name n w.made w.tasks in
      rw (e, add_worker_task)
        (record {
          distinct = insert-Distinct name w.made w.tasks s.distinct;
          fresh = λ n c h. ground (arith, at n, s.fresh n c);
          is_open = λ n c h. ground (arith, at n, s.is_open n c, s.spent c);
          apart = λ n m c h k. ground (
            arith,
            at n,
            at m,
            text_eq_iff name n,
            text_eq_iff name m,
            s.fresh n c,
            s.fresh m c,
            s.apart n m c,
          );
          spent = λ c h. ground (arith, s.spent c h);
          tended = λ n c r. ground (arith, at n, text_eq_iff name n, s.tended n c r);
        })
]

pub run-IsSound : (name : Text) (w : Workers) → IsSound w → IsSound (run name w).1
unfolding run
run-IsSound name w s = elim (Option-cases (lookup name w.tasks)) [
  | inl e ↦ rw (e, run) s
  | inr (c, e) ↦
      rw (e, run)
        (record {
          distinct = s.distinct;
          fresh = s.fresh;
          is_open = s.is_open;
          apart = s.apart;
          spent = s.spent;
          tended = λ n d r. elim r [
            | inl (same, chan) ↦
                inl (subst (λ m. lookup m w.tasks ≡ some d) same (e ∙ ap some chan))
            | inr old ↦ s.tended n d old
          ];
        })
]

-- The workers behind the close of an open task.
abbrev pub closed_task : Text → ℕ → Workers → Workers
closed_task name c w = record w { closed = c ∷ w.closed; tasks = delete name w.tasks }

pub close_task-some :
    (name : Text) (c : ℕ) (w : Workers)
    → IsSound w
    → lookup name w.tasks ≡ some c
    → close_task name c w ≡ some (closed_task name c w)
unfolding close_task
close_task-some name c w s e = rw (s.is_open name c e, close_task)

pub closed_task-IsSound :
    (name : Text) (c : ℕ) (w : Workers)
    → IsSound w
    → lookup name w.tasks ≡ some c
    → IsSound (closed_task name c w)
closed_task-IsSound name c w s e =
    let at = λ (n : Text). lookup-delete name n w.tasks in
    record {
      distinct = delete-Distinct name w.tasks s.distinct;
      fresh = λ n d h. ground (arith, at n, s.fresh n d);
      is_open = λ n d h.
          ground (arith, at n, s.is_open n d, s.apart name n d, text_eq_iff name n, ==_iff c d);
      apart = λ n m d h k. ground (arith, at n, at m, s.apart n m d);
      spent = λ d h. ground (arith, s.spent d, s.fresh name c e);
      tended = λ n d r. ground (arith, at n, s.tended n d r, text_eq_iff name n);
    }
