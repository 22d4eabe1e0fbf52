-- ===== src/Mysql/Scanned.antt =====
-- What the status variables add to the list.
use kubemonitor.Common.{
  ◌≡◌, inl, inr, refl, Bool, true, false, Option, none, some, List, [], ◌∷◌, ◌++◌, ◌==◌,
  if◌then◌else◌, length, Bool-cases, Option-cases, Text, codes, text_eq, to_lower, one_of, split,
  Map, lookup,
}
use kubemonitor.Common.Int.{pos}
use kubemonitor.Value.{Floats, float64, int}
use kubemonitor.Sample.{SampleList, copy}
use kubemonitor.Sample.Grown.{IsTagged, copy-IsTagged, Grown-refl, Grown-trans}
use kubemonitor.Mysql.Config.{Instance}
use kubemonitor.Mysql.Rows.{Rows, Db, Times, parse_status}
use kubemonitor.Mysql.Status.{
  status_match, page_states, Scan, text_item, status_texts, latency_names, push_under, push_group,
  push_status, note_number, scan_row, scan_rows, latencies, push_latencies, push_parsed,
  push_galera_status, push_evs, global_status, gather_global_status, sql_global_status,
}
use kubemonitor.Mysql.Pushed.{Grows, IsOwn, push_plain-Grows, push_labelled-Grows}

module _ {F : Type 0} where
  push_under-Grows :
      (addr metric label rest : Text) (v : F) (tags : Map Text) (l : SampleList F)
      → text_eq label (codes "address") ≡ false
      → IsTagged addr tags
      → Grows addr l (push_under metric label rest v tags l)
  unfolding push_under lookup
  push_under-Grows addr metric label rest v tags l ne t =
      push_labelled-Grows addr metric (float64 v) tags ((label, rest) ∷ []) l t
        ((refl, tt), rw ne refl)

  -- A test takes one of two ways, and both only add.
  pub either-Grows :
      (addr : Text) (b : Bool) (l x y : SampleList F)
      → Grows addr l x
      → Grows addr l y
      → Grows addr l (if b then x else y)
  either-Grows addr true l x y g h = g
  either-Grows addr false l x y g h = h

  push_group-Grows :
      (addr group rest : Text) (v : F) (tags : Map Text) (l : SampleList F)
      → IsTagged addr tags
      → Grows addr l (push_group group rest v tags l)
  unfolding push_group
  push_group-Grows addr group rest v tags l t =
      let under = λ (metric label : Text) (ne : text_eq label (codes "address") ≡ false).
        push_under-Grows addr metric label rest v tags l ne t in
      either-Grows addr (text_eq group (codes "com")) l _ _
        (under (codes "global_status_commands_total") (codes "command") (unfold text_eq in refl))
        (either-Grows addr (text_eq group (codes "handler")) l _ _
          (under (codes "global_status_handlers_total") (codes "handler") (unfold text_eq in refl))
          (either-Grows addr (text_eq group (codes "connection_errors")) l _ _
            (under (codes "global_status_connection_errors_total") (codes "error")
              (unfold text_eq in refl))
            (either-Grows addr (text_eq group (codes "innodb_buffer_pool_pages")) l _ _
              (either-Grows addr (one_of page_states rest) l _ _
                (push_plain-Grows addr (codes "global_status_buffer_pool_pages_" ++ rest)
                  (float64 v) tags l t)
                (under (codes "global_status_buffer_pool_page_changes_total") (codes "operation")
                  (unfold text_eq in refl)))
              (either-Grows addr (text_eq group (codes "innodb_rows")) l _ _
                (under (codes "global_status_innodb_row_ops_total") (codes "operation")
                  (unfold text_eq in refl))
                (either-Grows addr (text_eq group (codes "performance_schema")) l _ _
                  (under (codes "global_status_performance_schema_lost_total")
                    (codes "instrumentation") (unfold text_eq in refl))
                  (Grown-refl _ l))))))

  push_status-Grows :
      (addr key : Text) (v : F) (tags : Map Text) (l : SampleList F)
      → IsTagged addr tags
      → Grows addr l (push_status key v tags l)
  unfolding push_status
  push_status-Grows addr key v tags l t = elim (Option-cases (status_match key)) [
    | inl e ↦
        rw (e, push_status)
          (push_plain-Grows addr (codes "global_status_" ++ key) (float64 v) tags l t)
    | inr ((group, rest), e) ↦ rw (e, push_status) (push_group-Grows addr group rest v tags l t)
  ]

  note_number-Grows :
      (addr : Text) (push : Text → F → SampleList F → SampleList F) (valid : Map {0} Unit)
      (key : Text) (v : Option F) (st : Scan F)
      → ((key : Text) (v : F) (l : SampleList F) → Grows addr l (push key v l))
      → Grows addr st.slist (note_number push valid key v st).slist
  unfolding note_number
  note_number-Grows addr push valid key none st h = Grown-refl _ st.slist
  note_number-Grows addr push valid key (some v) st h = elim (Option-cases (lookup key valid)) [
    | inl e ↦ rw (e, note_number) (Grown-refl _ st.slist)
    | inr (u, e) ↦ rw (e, note_number) (h key v st.slist)
  ]

module _ {F : Type 0} ⦃fl : Floats F⦄ where
  scan_row-Grows :
      (addr : Text) (times : Times) (push : Text → F → SampleList F → SampleList F)
      (valid : Map {0} Unit) (row : Text × Text) (st : Scan F)
      → ((key : Text) (v : F) (l : SampleList F) → Grows addr l (push key v l))
      → Grows addr st.slist (scan_row times push valid row st).slist
  unfolding scan_row
  scan_row-Grows addr times push valid (name, val) st h =
      elim (Option-cases (lookup (to_lower name) st.texts)) [
        | inr (old, e) ↦ rw (e, scan_row) (Grown-refl _ st.slist)
        | inl e ↦
            rw (e, scan_row)
              (note_number-Grows addr push valid (to_lower name) (parse_status times val) st h)
      ]

  pub scan_rows-Grows :
      (addr : Text) (times : Times) (push : Text → F → SampleList F → SampleList F)
      (valid : Map {0} Unit) (rows : List (Option (Text × Text))) (st : Scan F)
      → ((key : Text) (v : F) (l : SampleList F) → Grows addr l (push key v l))
      → Grows addr st.slist (scan_rows times push valid rows st).slist
  unfolding scan_rows
  scan_rows-Grows addr times push valid [] st h = Grown-refl _ st.slist
  scan_rows-Grows addr times push valid (none ∷ rows) st h =
      scan_rows-Grows addr times push valid rows st h
  scan_rows-Grows addr times push valid (some row ∷ rows) st h =
      Grown-trans _ (scan_row-Grows addr times push valid row st h)
        (scan_rows-Grows addr times push valid rows _ h)

  push_latencies-Grows :
      (addr : Text) (values : Map F) (tags : Map Text) (l : SampleList F)
      → IsTagged addr tags
      → Grows addr l (push_latencies values tags l)
  unfolding push_latencies
  push_latencies-Grows addr [] tags l t = Grown-refl _ l
  push_latencies-Grows addr ((name, v) ∷ more) tags l t =
      Grown-trans _
        (push_plain-Grows addr (codes "galera_evs_repl_latency_" ++ name) (float64 v) tags l t)
        (push_latencies-Grows addr more tags _ t)

  push_parsed-Grows :
      (addr : Text) (values : Option (Map F)) (tags : Map Text) (l : SampleList F)
      → IsTagged addr tags
      → Grows addr l (push_parsed values tags l)
  unfolding push_parsed
  push_parsed-Grows addr none tags l t = Grown-refl _ l
  push_parsed-Grows addr (some values) tags l t = push_latencies-Grows addr values tags l t

  push_galera_status-Grows :
      (addr : Text) (texts tags : Map Text) (l : SampleList F)
      → IsTagged addr tags
      → Grows addr l (push_galera_status texts tags l)
  unfolding push_galera_status
  push_galera_status-Grows addr texts tags l t =
      let item : Text → Text × Text = λ key. (key, text_item key texts) in
      let own : IsOwn (
          item (codes "wsrep_local_state_uuid")
          ∷ item (codes "wsrep_cluster_state_uuid")
          ∷ item (codes "wsrep_provider_version")
          ∷ []) =
        unfold lookup text_eq in ((refl, (refl, (refl, tt))), refl) in
      either-Grows addr _ l _ _ (Grown-refl _ l)
        (push_labelled-Grows addr (codes "galera_status_info") (int (pos 1)) tags _ l t own)

  push_evs-Grows :
      (addr : Text) (texts tags : Map Text) (l : SampleList F)
      → IsTagged addr tags
      → Grows addr l (push_evs texts tags l)
  unfolding push_evs
  push_evs-Grows addr texts tags l t =
      let latency = text_item (codes "wsrep_evs_repl_latency") texts in
      either-Grows addr (length latency == 0) l _ _ (Grown-refl _ l)
        (push_parsed-Grows addr (latencies latency_names (split latency b'/')) tags l t)

  global_status-Grows :
      (addr : Text) (times : Times) (valid : Map {0} Unit) (rows : Rows (Text × Text))
      (tags : Map Text) (cache : Map F) (l : SampleList F)
      → IsTagged addr tags
      → Grows addr l (global_status times valid rows tags cache l).1
  unfolding global_status
  global_status-Grows addr times valid none tags cache l t = Grown-refl _ l
  global_status-Grows addr times valid (some rows) tags cache l t =
      let first : Scan F = record { texts = status_texts; cache = cache; slist = l } in
      let scanned =
        scan_rows-Grows addr times (λ key value l. push_status key value tags l) valid rows first
          (λ key v l. push_status-Grows addr key v tags l t) in
      Grown-trans _ scanned
        (Grown-trans _ (push_galera_status-Grows addr _ tags _ t) (push_evs-Grows addr _ tags _ t))

  pub gather_global_status-Grows :
      (addr : Text) (times : Times) (ins : Instance) (db : Db) (tags : Map Text) (cache : Map F)
      (l : SampleList F)
      → IsTagged addr tags
      → Grows addr l (gather_global_status times ins db tags cache l).1
  unfolding gather_global_status copy
  gather_global_status-Grows addr times ins db tags cache l t =
      elim (Bool-cases ins.disable_global_status) [
        | inl e ↦ rw (e, gather_global_status) (Grown-refl _ l)
        | inr e ↦
            rw (e, gather_global_status)
              (global_status-Grows addr times ins.valid_metrics (db.pairs sql_global_status) _ cache
                l (copy-IsTagged addr tags t))
      ]
