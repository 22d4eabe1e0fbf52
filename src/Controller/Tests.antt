-- ===== src/Controller/Tests.antt =====
-- Runs of the reconcilers.
use kubemonitor.Common.{
  ℕ, ◌≡◌, refl, some, List, [], ◌∷◌, if◌then◌else◌, Text, codes, text_eq, lookup, insert,
}
use kubemonitor.Common.Int.{ℤ, pos}
use kubemonitor.Value.{int}
use kubemonitor.SafeList.{new_safe_list}
use kubemonitor.SafeList.Fifo.{queue}
use kubemonitor.Sample.{SampleList, push_sample}
use kubemonitor.Writer.{Outcome, ok}
use kubemonitor.Writers.{Writers, new_writers}
use kubemonitor.Counting.{SnapshotCall}
use kubemonitor.Worker.{new_worker, exist}
use kubemonitor.Factory.{
  Handler, Registered, Factory, ConfigMap, new_handler_factory, register_handler, get_handler, list,
}
use kubemonitor.Controller.{
  Request, Fetched, found, not_found, broken, Monitor, PrometheusPushSpec, Reconciler, Job,
  job_round, reconcile_monitor,
}
use kubemonitor.Controller.Loops.{live, new_worker-IsTended}
use kubemonitor.Controller.Reconciles.{
  Settles, reconcile_all, reconcile_monitor_lem, live-reconcile_all,
}
use kubemonitor.Writers.Enqueue.{queued}
use kubemonitor.Controller.Round.{processed, job_round_lem}
use kubemonitor.Controller.Endpoints.{push_all, watch, push_all_lem}
use kubemonitor.Toy.{int_floats, toy_net}

abbrev redis : Text
redis = codes "redis"

abbrev pushed : SampleList ℤ → SampleList ℤ
pushed l = push_sample redis (codes "up") (int (pos 1)) [] l

abbrev toy_handler : Handler ConfigMap ℤ
toy_handler = record { name = redis; init = λ cfg s. (ok, cfg); gather = λ s l. (ok, s, pushed l) }

abbrev toy_factory : Factory ConfigMap ℤ
toy_factory = register_handler toy_handler [] new_handler_factory

abbrev empty_writers : Writers ℕ ℤ
empty_writers = new_writers (pos 10) (pos 2)

abbrev toy_reconciler : Reconciler ConfigMap ℕ ℤ
toy_reconciler = record { worker = new_worker; wm = empty_writers; factory = toy_factory }

abbrev req : Request
req = record { namespace = codes "default"; name = codes "cache" }

abbrev cache : Monitor
cache = record {
  name = codes "cache";
  model = record { name = redis; config = [] };
  period = pos 10;
  labels = (codes "env", codes "dev") ∷ [];
}

reconcile_monitor_lem_example :
    (o : Outcome) × (r' : Reconciler ConfigMap ℕ ℤ) × (reconcile_monitor req
        (found cache)
        toy_reconciler
      ≡ some (o, r'))
    × Settles req (found cache) toy_reconciler (o, r')
reconcile_monitor_lem_example =
    reconcile_monitor_lem req (found cache) toy_reconciler new_worker-IsTended refl

abbrev events : List (Request × Fetched Monitor)
events = (req, found cache) ∷ (req, found cache) ∷ (req, broken) ∷ (req, not_found) ∷ []

live-reconcile_all_example :
    (r : Reconciler ConfigMap ℕ ℤ) × (reconcile_all events toy_reconciler ≡ some r)
    × ((n : Text) → live n r.worker ≡ (if exist n r.worker then 1 else 0))
live-reconcile_all_example =
    live-reconcile_all events empty_writers toy_factory (refl, (refl, (tt, (tt, tt))))

abbrev job : Job
job = record { model_name = redis; labels = cache.labels }

abbrev registered : Registered ConfigMap ℤ
registered = record { handler = toy_handler; state = [] }

job_round_lem_example :
    (r' : Reconciler ConfigMap ℕ ℤ) × (calls : List SnapshotCall) × (job_round
        (pos 5)
        job
        toy_reconciler
      ≡ some (ok, r', calls))
    × (queue r'.wm.queue.sl ≡ queued (processed (pos 5) job (pushed new_safe_list)) empty_writers)
    × (r'.wm.writer_map ≡ empty_writers.writer_map)
    × (list redis r'.factory ≡ some new_safe_list)
    × (r'.worker ≡ new_worker)
unfolding get_handler list register_handler insert lookup text_eq
job_round_lem_example =
    job_round_lem (pos 5) job toy_reconciler {h = registered} new_safe_list refl refl refl

abbrev spec : PrometheusPushSpec
spec = record {
  url = codes "http://n9e";
  basic_auth_user = [];
  basic_auth_pass = [];
  headers = [];
  timeout = pos 5000;
  dial_timeout = pos 2500;
  max_idle_conns_per_host = pos 100;
}

abbrev push_events : List (Request × Fetched PrometheusPushSpec)
push_events = (req, found spec) ∷ (req, broken) ∷ []

push_all_lem_example :
    ((name : Text)
      → lookup name (push_all toy_net push_events empty_writers).writer_map
        ≡ watch toy_net name push_events (lookup name empty_writers.writer_map))
    × ((push_all toy_net push_events empty_writers).queue ≡ empty_writers.queue)
    × ((push_all toy_net push_events empty_writers).counters ≡ empty_writers.counters)
push_all_lem_example = push_all_lem toy_net push_events empty_writers
