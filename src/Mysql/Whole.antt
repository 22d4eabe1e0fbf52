-- ===== src/Mysql/Whole.antt =====
-- What `Gather` of MySQL adds to the list, and how it ends.
use kubemonitor.Common.{
  ◌≡◌, inl, inr, refl, sym, ap, ◌∙◌, Bool, true, false, some, List, [], ◌∷◌, ◌++◌, map,
  append_assoc, append-nil, if◌then◌else◌, Bool-cases, All, Text, codes, Map,
}
use kubemonitor.Common.Int.{pos}
use kubemonitor.Value.{Floats, float64, int}
use kubemonitor.SafeList.Fifo.{queue, queue-push_front}
use kubemonitor.Sample.{Sample, SampleList, new_sample, push_sample}
use kubemonitor.Sample.Grown.{IsTagged, address-IsTagged, Grown-trans}
use kubemonitor.Writer.{ok, failed}
use kubemonitor.Mysql.{input_name}
use kubemonitor.Mysql.Config.{Instance}
use kubemonitor.Mysql.Rows.{Db, Times, push_plain}
use kubemonitor.Mysql.Status.{gather_global_status}
use kubemonitor.Mysql.Gather.{gather_rest, gather_all, is_up, push_up, push_scrape_use, gather}
use kubemonitor.Mysql.Pushed.{
  IsMysql, Grows, gather_schema_size-Grows, gather_table_size-Grows,
  gather_processlist_by_user-Grows, gather_processlist_by_state-Grows, gather_binlog-Grows,
}
use kubemonitor.Mysql.Scanned.{gather_global_status-Grows}
use kubemonitor.Mysql.Engine.{
  gather_global_variables-Grows, gather_engine_innodb_status-Grows,
  gather_engine_innodb_status_compute-Grows, gather_slave_status-Grows,
}

module _ {F : Type 0} where
  -- The sample `up` of a server, and the one of the time that a round took.
  abbrev pub up_sample : Text → Bool → Sample F
  up_sample addr up =
      new_sample input_name (codes "up") (int (if up then pos 1 else pos 0))
        (((codes "address", addr) ∷ []) ∷ [])

  abbrev pub use_sample : Text → F → Sample F
  use_sample addr seconds =
      new_sample input_name (codes "scrape_use_seconds") (float64 seconds)
        (((codes "address", addr) ∷ []) ∷ [])

  -- One sample in front of what a part adds, and one behind it.
  around :
      (addr : Text) (up : Bool) (seconds : F) (l l' : SampleList F)
      (g : Grows addr (push_up up ((codes "address", addr) ∷ []) l) l')
      → queue (push_scrape_use seconds ((codes "address", addr) ∷ []) l')
        ≡ queue l
          ++ some (up_sample addr up) ∷ map (λ s. some s) g.more
          ++ some (use_sample addr seconds) ∷ []
  unfolding push_up push_scrape_use push_plain push_sample
  around addr up seconds l l' g =
      queue-push_front (some (use_sample addr seconds)) l'
      ∙ ap (λ q. q ++ some (use_sample addr seconds) ∷ [])
          (g.added ∙ ap (λ q. q ++ map (λ s. some s) g.more) (queue-push_front _ l))
      ∙ ap (λ q. q ++ some (use_sample addr seconds) ∷ [])
          (append_assoc (queue l) (some (up_sample addr up) ∷ []) (map (λ s. some s) g.more))

module _ {F : Type 0} ⦃fl : Floats F⦄ where
  gather_rest-Grows :
      (addr : Text) (times : Times) (ins : Instance) (db : Db) (tags : Map Text) (cache : Map F)
      (l : SampleList F)
      → IsTagged addr tags
      → Grows addr l (gather_rest times ins db tags cache l)
  unfolding gather_rest
  gather_rest-Grows addr times ins db tags cache l t =
      let innodb =
        Grown-trans (IsMysql addr) (gather_engine_innodb_status-Grows addr ins db tags l t)
          (gather_engine_innodb_status_compute-Grows addr ins tags cache _ t) in
      Grown-trans _ innodb (
        Grown-trans _ (gather_binlog-Grows addr ins.disable_binlogs _ _ _ tags _ t) (
          Grown-trans _ (gather_processlist_by_state-Grows addr _ _ tags _ t) (
            Grown-trans _ (gather_processlist_by_user-Grows addr ins db tags _ t) (
              Grown-trans _ (gather_schema_size-Grows addr ins db tags _ t) (
                Grown-trans _ (gather_table_size-Grows addr ins db tags false _ t) (
                  Grown-trans _ (gather_table_size-Grows addr ins db tags true _ t)
                    (gather_slave_status-Grows addr times ins db tags _ t)))))))

  gather_all-Grows :
      (addr : Text) (times : Times) (ins : Instance) (db : Db) (tags : Map Text) (l : SampleList F)
      → IsTagged addr tags
      → Grows addr l (gather_all times ins db tags l)
  unfolding gather_all
  gather_all-Grows addr times ins db tags l t =
      let (cache, status) = gather_global_status times ins db tags [] l in
      Grown-trans _ (gather_global_status-Grows addr times ins db tags [] l t) (
        Grown-trans _ (gather_global_variables-Grows addr times ins db tags cache status t)
          (gather_rest-Grows addr times ins db tags _ _ t))

  -- `Gather` of MySQL returns nil if the server can be opened and answers, and an error if not; no
  -- failed query makes it fail. It adds the sample `up` first, 1 or 0 accordingly, and the time of
  -- the round last, and between them, only if the server is up, samples named `mysql_…` that all
  -- carry the address of the server, whatever the server answers.
  pub gather-around :
      (times : Times) (seconds : F) (ins : Instance) (db : Db) (l : SampleList F)
      → let r = gather times seconds ins db l in
        (r.0 ≡ (if is_up ins db then ok else failed))
        × (more : List (Sample F)) × (queue r.1
            ≡ queue l
              ++ some (up_sample ins.address (is_up ins db)) ∷ map (λ s. some s) more
              ++ some (use_sample ins.address seconds) ∷ [])
        × All (IsMysql ins.address) more
        × (is_up ins db ≡ false → more ≡ [])
  unfolding gather
  gather-around times seconds ins db l =
      let addr = ins.address in
      let tags : Map Text = (codes "address", addr) ∷ [] in
      elim (Bool-cases (is_up ins db)) [
        | inl up ↦
            let g =
              gather_all-Grows addr times ins db tags (push_up true tags l)
                (address-IsTagged addr) in
            rw (up, gather) (refl, g.more, around addr true seconds l _ g, g.all_are, λ e. cc)
        | inr down ↦
            let g : Grows addr (push_up false tags l) (push_up false tags l) = record {
              more = [];
              added = sym (append-nil _);
              all_are = tt;
            } in
            rw (down, gather) (refl, [], around addr false seconds l _ g, tt, λ e. refl)
      ]
