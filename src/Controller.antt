-- ===== src/Controller.antt =====
-- internal/controller: the reconcilers of the two resources, over the worker, the writers and the
-- registry of handlers, and the round that a monitor's loop runs. `Client.Get` is a parameter: a
-- reconciliation takes its answer. The write of a monitor's status to the cluster is not modelled.
pub mod Loops
pub mod Reconciles
pub mod Round
pub mod Endpoints
pub mod Tests
use kubemonitor.Common.{Option, none, some, List, [], if◌then◌else◌, Text, Map, insert}
use kubemonitor.Common.Int.{ℤ}
use kubemonitor.Value.{Floats}
use kubemonitor.SafeList.{pop_back_all}
use kubemonitor.Sample.{SampleList, Time}
use kubemonitor.Process.{process}
use kubemonitor.Writer.{WriterOption, Transport, Outcome, ok, failed, panicked}
use kubemonitor.Writers.{Writers, write_samples, register, de_register}
use kubemonitor.Counting.{SnapshotCall}
use kubemonitor.Worker.{Workers, exist, add_worker_task, run, stop}
use kubemonitor.Factory.{Factory, ConfigMap, init_config, gather, list}

-- `ctrl.Request`.
pub record Request : Type 0 where
  pub namespace : Text
  pub name : Text

-- The answer of `Client.Get`: the object, an error for which `IsNotFound` holds, or another error.
pub data Fetched (A : Type 0) : Type 0 where
  found : A → Fetched A
  not_found broken : Fetched A

pub record Model : Type 0 where
  pub name : Text
  pub config : ConfigMap

-- A `Monitor` with its specification.
pub record Monitor : Type 0 where
  pub name : Text
  pub model : Model
  pub period : ℤ
  pub labels : Map Text

-- `PrometheusPushSpec`.
pub record PrometheusPushSpec : Type 0 where
  pub url : Text
  pub basic_auth_user : Text
  pub basic_auth_pass : Text
  pub headers : List Text
  pub timeout : ℤ
  pub dial_timeout : ℤ
  pub max_idle_conns_per_host : ℤ

pub record Reconciler (S C F : Type 0) : Type 0 where
  pub worker : Workers
  pub wm : Writers C F
  pub factory : Factory S F

-- What the closure given to `RunAfterPatchStatus` has captured.
pub record Job : Type 0 where
  pub model_name : Text
  pub labels : Map Text

abbrev pub job_of : Monitor → Job
job_of m = record { model_name = m.model.name; labels = m.labels }

abbrev pub option_of : PrometheusPushSpec → WriterOption
option_of spec = record {
  url = spec.url;
  basic_auth_user = spec.basic_auth_user;
  basic_auth_pass = spec.basic_auth_pass;
  headers = spec.headers;
  timeout = spec.timeout;
  dial_timeout = spec.dial_timeout;
  max_idle_conns_per_host = spec.max_idle_conns_per_host;
}

-- A nil list is only logged.
unfoldable pub forward :
    {C F : Type 0}
    → ⦃fl : Floats F⦄ → Option (SampleList F)
    → Writers C F
    → Option (Writers C F × List SnapshotCall)
forward none ws = some (ws, [])
forward (some slist) ws = elim (pop_back_all slist) [
  | none ↦ none
  | some (arr, rest) ↦ write_samples arr ws
]

module _ {S C F : Type 0} where
  -- The part of `Reconcile` behind a successful `InitConfig`.
  unfoldable pub start : Monitor → Reconciler S C F → Outcome × Reconciler S C F
  start m r =
      let (o, w) = run m.name (add_worker_task m.name r.worker) in (o, record r { worker = w })

  unfoldable pub start_configured :
      Monitor → Reconciler S C F → Outcome × Factory S F → Outcome × Reconciler S C F
  start_configured m r (ok, f) = start m (record r { factory = f })
  start_configured m r (failed, f) = (failed, record r { factory = f })
  start_configured m r (panicked, f) = (panicked, record r { factory = f })

  -- `Reconcile` of a monitor; `none` is the panic of closing a closed channel.
  unfoldable pub reconcile_monitor :
      Request → Fetched Monitor → Reconciler S C F → Option (Outcome × Reconciler S C F)
  unfolding start_configured
  reconcile_monitor req not_found r = elim (stop req.name r.worker) [
    | none ↦ none
    | some w ↦ some (ok, record r { worker = w })
  ]
  reconcile_monitor req broken r = some (failed, r)
  reconcile_monitor req (found m) r =
      if exist req.name r.worker
      then some (ok, r)
      else some (start_configured m r (init_config m.model.name m.model.config r.factory))

  -- The list of `List` is the one that is registered, so what `Process` takes is gone from it.
  unfoldable pub send_list :
      ⦃fl : Floats F⦄
      → Time
      → Job
      → Reconciler S C F
      → SampleList F
      → Option (Outcome × Reconciler S C F × List SnapshotCall)
  send_list now job r l = elim (process now job.labels l) [
    | none ↦ none
    | some (nlst, rest) ↦ elim (forward (some nlst) r.wm) [
      | none ↦ none
      | some (ws, calls) ↦ some (
        ok,
        record r {
          wm = ws;
          factory = record (r.factory) {
            root_list = insert job.model_name rest r.factory.root_list;
          };
        },
        calls,
      )
    ]
  ]

  unfoldable pub send_gathered :
      ⦃fl : Floats F⦄
      → Time
      → Job
      → Reconciler S C F
      → Outcome × Factory S F
      → Option (Outcome × Reconciler S C F × List SnapshotCall)
  send_gathered now job r (panicked, f) = none
  send_gathered now job r (failed, f) = some (failed, record r { factory = f }, [])
  send_gathered now job r (ok, f) = elim (list job.model_name f) [
    | none ↦ some (failed, record r { factory = f }, [])
    | some l ↦ send_list now job (record r { factory = f }) l
  ]

  -- One call of the closure of `Reconcile`; `none` is a panic, which ends the program.
  unfoldable pub job_round :
      ⦃fl : Floats F⦄
      → Time
      → Job
      → Reconciler S C F
      → Option (Outcome × Reconciler S C F × List SnapshotCall)
  unfolding send_gathered
  job_round now job r = send_gathered now job r (gather job.model_name r.factory)

module _ {C F : Type 0} where
  -- `Reconcile` of a PrometheusPush.
  unfoldable pub reconcile_push :
      Transport C F → Request → Fetched PrometheusPushSpec → Writers C F → Outcome × Writers C F
  reconcile_push net req not_found ws = de_register req.name ws
  reconcile_push net req broken ws = (failed, ws)
  reconcile_push net req (found spec) ws = register net req.name (option_of spec) ws
