-- ===== src/Controller/Reconciles.antt =====
-- What a reconciliation of a monitor does to the loops.
use kubemonitor.Common.{
  ℕ, ◌≡◌, ◌≢◌, inl, inr, refl, sym, subst, ◌∙◌, Bool, false, Option, none, some, List, [], ◌∷◌,
  arith, if◌then◌else◌, Bool-cases, All, Text, text_eq_iff, lookup-insert,
}
use kubemonitor.Writer.{Outcome, ok, failed, panicked}
use kubemonitor.Writers.{Writers}
use kubemonitor.Worker.{Workers, new_worker, exist, add_worker_task, run}
use kubemonitor.Worker.Sound.{}
use kubemonitor.Worker.Stopping.{stop_lem}
use kubemonitor.Factory.{Factory, init_config}
use kubemonitor.Controller.{
  Request, Fetched, found, not_found, broken, Monitor, Reconciler, start, start_configured,
  reconcile_monitor,
}
use kubemonitor.Controller.Loops.{
  live, IsTended, new_worker-IsTended, stop-IsTended, started_lem, started-IsTended,
}

-- `Get` answers with the object of the name that it is asked for.
abbrev pub IsHonest : Request → Fetched Monitor → Type 0
IsHonest req (found m) = m.name ≡ req.name
IsHonest req not_found = Unit
IsHonest req broken = Unit

-- How many loops the monitor has behind a reconciliation, from whether it had a task and from how
-- the reconciliation ended.
abbrev pub expected : Fetched Monitor → Bool → Outcome → ℕ
expected not_found had o = 0
expected broken had o = if had then 1 else 0
expected (found m) had ok = 1
expected (found m) had failed = if had then 1 else 0
expected (found m) had panicked = if had then 1 else 0

module _ {S C F : Type 0} where
  -- What a reconciliation of the name with the answer gives.
  abbrev pub Settles :
      Request → Fetched Monitor → Reconciler S C F → Outcome × Reconciler S C F → Type 0
  Settles req answer r (o, r') =
      IsTended r'.worker
      × (live req.name r'.worker ≡ expected answer (exist req.name r.worker) o)
      × ((n : Text) → n ≢ req.name → live n r'.worker ≡ live n r.worker)

  start-Settles :
      (req : Request) (m : Monitor) (r : Reconciler S C F) (i : Outcome × Factory S F)
      → IsTended r.worker
      → m.name ≡ req.name
      → exist req.name r.worker ≡ false
      → Settles req (found m) r (start_configured m r i)
  unfolding start_configured start
  start-Settles req m r (failed, f) t e idle = (t, t.one req.name, λ n ne. refl)
  start-Settles req m r (panicked, f) t e idle = (t, t.one req.name, λ n ne. refl)
  start-Settles req m r (ok, f) t e idle =
      let (t', one) = started-IsTended req.name r.worker idle t in
      subst
        (λ n. Settles req (found m) r (
          let (o, w) = run n (add_worker_task n r.worker) in
          (o, record r { factory = f; worker = w })))
        (sym e)
        (subst
          (λ (x : Outcome × Workers).
            Settles req (found m) r (x.0, record r { factory = f; worker = x.1 }))
          (sym (started_lem req.name r.worker idle))
          (
            t',
            one,
            λ n ne.
                t'.one n
                ∙ unfold exist in
                  ground (
                    arith,
                    lookup-insert req.name n r.worker.made r.worker.tasks,
                    text_eq_iff req.name n,
                    t.one n,
                  ),
          ))

  -- If each monitor that has a task has one live loop, and any other none, and `Get` answers with a
  -- monitor of the name that it is asked for, `Reconcile` never closes a channel twice. Behind it
  -- each monitor that has a task has one live loop, and any other has none. The loop of a monitor
  -- that is not found is stopped; one that is found has its one loop if the reconciliation
  -- succeeds, an existing loop is kept if it fails, and the loops of other monitors are as before.
  pub reconcile_monitor_lem :
      (req : Request) (answer : Fetched Monitor) (r : Reconciler S C F)
      → IsTended r.worker
      → IsHonest req answer
      → (o : Outcome) × (r' : Reconciler S C F) × (reconcile_monitor req answer r ≡ some (o, r'))
        × Settles req answer r (o, r')
  unfolding reconcile_monitor
  reconcile_monitor_lem req not_found r t h =
      let (w, e, t', none_left) = stop-IsTended req.name r.worker t in
      let (w2, e2, sound, left, closed, loops) = stop_lem req.name r.worker t.sound in
      (
        ok,
        record r { worker = w },
        rw (e, reconcile_monitor),
        (
          t',
          none_left,
          λ n ne.
              t'.one n
              ∙ unfold exist in ground (arith, t.one n, left n, text_eq_iff req.name n, e, e2),
        ),
      )
  reconcile_monitor_lem req broken r t h = (failed, r, refl, (t, t.one req.name, λ n ne. refl))
  reconcile_monitor_lem req (found m) r t h = elim (Bool-cases (exist req.name r.worker)) [
    | inl had ↦ (ok, r, rw (had, reconcile_monitor), (t, t.one req.name ∙ rw had, λ n ne. refl))
    | inr idle ↦
        let i = init_config m.model.name m.model.config r.factory in
        (
          (start_configured m r i).0,
          (start_configured m r i).1,
          rw (idle, reconcile_monitor),
          start-Settles req m r i t h idle,
        )
  ]

  -- Reconciliations, one after another, whatever they return.
  unfoldable pub reconcile_all :
      List (Request × Fetched Monitor) → Reconciler S C F → Option (Reconciler S C F)
  reconcile_all [] r = some r
  reconcile_all ((req, answer) ∷ more) r = elim (reconcile_monitor req answer r) [
    | none ↦ none
    | some (o, r') ↦ reconcile_all more r'
  ]

  reconcile_all_lem :
      (events : List (Request × Fetched Monitor)) (r : Reconciler S C F)
      → IsTended r.worker
      → All (λ e. IsHonest e.0 e.1) events
      → (r' : Reconciler S C F) × (reconcile_all events r ≡ some r') × IsTended r'.worker
  unfolding reconcile_all
  reconcile_all_lem [] r t h = (r, refl, t)
  reconcile_all_lem ((req, answer) ∷ more) r t h =
      let (o, mid, e, settled) = reconcile_monitor_lem req answer r t h.0 in
      let (last, ran, final) = reconcile_all_lem more mid settled.0 h.1 in
      (last, rw (e, reconcile_all) ran, final)

  -- Whatever reconciliations are made from a new worker on, one after another, if `Get` answers
  -- with monitors of the name that it is asked for: no channel is closed twice, and a monitor has
  -- one live loop if it has a task, and none if it has not.
  pub live-reconcile_all :
      (events : List (Request × Fetched Monitor)) (wm : Writers C F) (factory : Factory S F)
      → All (λ e. IsHonest e.0 e.1) events
      → (r : Reconciler S C F) × (reconcile_all events
            (record { worker = new_worker; wm = wm; factory = factory })
          ≡ some r)
        × ((n : Text) → live n r.worker ≡ (if exist n r.worker then 1 else 0))
  live-reconcile_all events wm factory h =
      let (r, e, t) = reconcile_all_lem events _ new_worker-IsTended h in (r, e, t.one)
