-- ===== src/Controller/Round.antt =====
-- One round of a monitor's loop, from the handler to the queue of the writers.
use kubemonitor.Common.{◌≡◌, refl, ◌∙◌, some, List, map, map-map, insert, lookup-insert_self}
use kubemonitor.Value.{Floats}
use kubemonitor.SafeList.{new_safe_list}
use kubemonitor.SafeList.Fifo.{queue, pop_back_all_lem}
use kubemonitor.Sample.{Sample, SampleList, Time}
use kubemonitor.Process.{process_sample}
use kubemonitor.Process.Laws.{present, process_lem}
use kubemonitor.Writer.{ok}
use kubemonitor.Writers.{Writers}
use kubemonitor.Counting.{SnapshotCall}
use kubemonitor.Writers.Enqueue.{queued, write_some}
use kubemonitor.Factory.{Factory, Registered, gather, gather_into, list, get_handler}
use kubemonitor.Controller.{Job, Reconciler, forward, send_list, send_gathered, job_round}

module _ {C F : Type 0} ⦃fl : Floats F⦄ where
  forward_lem :
      (nlst : SampleList F) (samples : List (Sample F)) (ws : Writers C F)
      → queue nlst ≡ map (λ s. some s) samples
      → (ws' : Writers C F) × (calls : List SnapshotCall) × (forward (some nlst) ws
          ≡ some (ws', calls))
        × (queue ws'.queue.sl ≡ queued samples ws)
        × (ws'.writer_map ≡ ws.writer_map)
  unfolding forward
  forward_lem nlst samples ws e =
      let (ws', calls, run, items, same) = write_some samples ws in
      (ws', calls, rw (pop_back_all_lem nlst, forward) (rw e run), items, same)

-- The samples that a list holds, processed.
abbrev pub processed : {F : Type 0} → Time → Job → SampleList F → List (Sample F)
processed now job l = map (process_sample now job.labels) (present (queue l))

module _ {S C F : Type 0} ⦃fl : Floats F⦄ where
  send_list_lem :
      (now : Time) (job : Job) (r : Reconciler S C F) (l : SampleList F)
      → (r' : Reconciler S C F) × (calls : List SnapshotCall) × (send_list now job r l
          ≡ some (ok, r', calls))
        × (queue r'.wm.queue.sl ≡ queued (processed now job l) r.wm)
        × (r'.wm.writer_map ≡ r.wm.writer_map)
        × (list job.model_name r'.factory ≡ some new_safe_list)
        × (r'.worker ≡ r.worker)
  unfolding send_list list
  send_list_lem now job r l =
      let (nlst, ran, items) = process_lem now job.labels l in
      let (ws, calls, sent, after, same) =
        forward_lem nlst (processed now job l) r.wm (items ∙ map-map _ _ (present (queue l))) in
      (
        record r {
          wm = ws;
          factory = record (r.factory) {
            root_list = insert job.model_name new_safe_list r.factory.root_list;
          };
        },
        calls,
        rw (ran, send_list) (rw sent),
        after,
        same,
        lookup-insert_self job.model_name new_safe_list r.factory.root_list,
        refl,
      )

  -- A round in which the handler of the job's model gathers without an error: it never panics; it
  -- appends to the queue of the writers, unless that is at its limit, the series of what the list
  -- of the model then holds: the samples that are not nil and whose value is a number, each
  -- processed with the monitor's labels, the oldest first; it empties the list, at the limit of the
  -- queue too; and it changes neither the writers nor the tasks.
  pub job_round_lem :
      (now : Time) (job : Job) (r : Reconciler S C F) {h : Registered S F} (l : SampleList F)
      → get_handler job.model_name r.factory ≡ some h
      → list job.model_name r.factory ≡ some l
      → (h.handler.gather h.state l).0 ≡ ok
      → let gathered = (h.handler.gather h.state l).2 in
        (r' : Reconciler S C F) × (calls : List SnapshotCall) × (job_round now job r
          ≡ some (ok, r', calls))
        × (queue r'.wm.queue.sl ≡ queued (processed now job gathered) r.wm)
        × (r'.wm.writer_map ≡ r.wm.writer_map)
        × (list job.model_name r'.factory ≡ some new_safe_list)
        × (r'.worker ≡ r.worker)
  unfolding job_round send_gathered gather gather_into get_handler list
  job_round_lem now job r {h} l eh el succeeds =
      let (o, s, gathered) = h.handler.gather h.state l in
      let f : Factory S F = (gather_into job.model_name h (o, s, gathered) r.factory).1 in
      let (r', calls, ran, items, same, emptied, tasks) =
        send_list_lem now job (record r { factory = f }) gathered in
      (
        r',
        calls,
        rw (eh, gather)
            (rw (el, gather)
              (rw (succeeds, send_gathered)
                (rw (lookup-insert_self job.model_name gathered r.factory.root_list) ran))),
        items,
        same,
        emptied,
        tasks,
      )
