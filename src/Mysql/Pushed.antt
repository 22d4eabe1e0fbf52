-- ===== src/Mysql/Pushed.antt =====
-- What the parts of the handler of MySQL add to the list: samples of MySQL that carry the address.
use kubemonitor.Common.{
  ℕ, ◌≡◌, inl, inr, refl, ◌∙◌, Bool, true, false, Option, none, some, List, [], ◌∷◌, ◌==◌,
  Bool-cases, Option-cases, Text, codes, text_eq, has_prefix, Map, lookup, Distinct,
}
use kubemonitor.Common.Int.{ℤ}
use kubemonitor.Value.{Floats, Value, float64, int64, uint32}
use kubemonitor.Sample.{Sample, SampleList, new_sample, push_sample, copy}
use kubemonitor.Sample.Names.{new_sample-labels}
use kubemonitor.Sample.Grown.{
  address, IsTagged, copy-IsTagged, Grown, Grown-refl, Grown-trans, push-Grown,
}
use kubemonitor.Mysql.{input_name}
use kubemonitor.Mysql.Config.{Instance}
use kubemonitor.Mysql.Rows.{Rows, Db, TableRow, push_labelled, push_plain}
use kubemonitor.Mysql.Sizes.{
  sql_query_schema_size, sql_query_table_size, sql_query_system_table_size,
  sql_info_schema_processlist_by_user, push_rows, push_answer, push_schema, gather_schema_size,
  push_table, gather_table_size, push_user, gather_processlist_by_user,
}
use kubemonitor.Mysql.Binlog.{
  Binlog, no_logs, binlog_rows, file_extension, push_file_number, push_binlog, gather_binlog,
}
use kubemonitor.Mysql.Processlist.{
  Row, initial_counts, count_rows, push_states, gather_processlist_by_state,
}

-- Labels of a sample's own, which leave the address alone.
abbrev pub IsOwn : Map Text → Type 0
IsOwn labels = Distinct labels × (lookup address labels ≡ none)

module _ {F : Type 0} where
  -- A sample of MySQL, with the address of the server among its labels.
  abbrev pub IsMysql : Text → Sample F → Type 0
  IsMysql addr s =
      (has_prefix s.metric (codes "mysql_") ≡ true)
      × (lookup (codes "address") s.labels ≡ some addr)

  abbrev pub Grows : Text → SampleList F → SampleList F → Type 0
  Grows addr l l' = Grown (IsMysql addr) l l'

  pub push_plain-Grows :
      (addr metric : Text) (v : Value F) (tags : Map Text) (l : SampleList F)
      → IsTagged addr tags
      → Grows addr l (push_plain metric v tags l)
  unfolding push_plain push_sample
  push_plain-Grows addr metric v tags l (d, h) =
      push-Grown (IsMysql addr) (new_sample input_name metric v (tags ∷ [])) l (
        unfold new_sample has_prefix in refl,
        (new_sample-labels input_name metric v (tags ∷ []) (d, tt)).1 address ∙ rw h,
      )

  pub push_labelled-Grows :
      (addr metric : Text) (v : Value F) (tags labels : Map Text) (l : SampleList F)
      → IsTagged addr tags
      → IsOwn labels
      → Grows addr l (push_labelled metric v tags labels l)
  unfolding push_labelled push_sample
  push_labelled-Grows addr metric v tags labels l (d, h) (own, n) =
      push-Grown (IsMysql addr) (new_sample input_name metric v (tags ∷ labels ∷ [])) l (
        unfold new_sample has_prefix in refl,
        (new_sample-labels input_name metric v (tags ∷ labels ∷ []) (d, (own, tt))).1 address
            ∙ rw (n, h),
      )

  push_rows-Grows :
      {A : Type 0} (addr : Text) (push : A → SampleList F → SampleList F) (rows : List (Option A))
      (l : SampleList F)
      → ((row : A) (l : SampleList F) → Grows addr l (push row l))
      → Grows addr l (push_rows push rows l)
  unfolding push_rows
  push_rows-Grows addr push [] l h = Grown-refl _ l
  push_rows-Grows addr push (none ∷ rows) l h = Grown-refl _ l
  push_rows-Grows addr push (some row ∷ rows) l h =
      Grown-trans _ (h row l) (push_rows-Grows addr push rows (push row l) h)

  push_answer-Grows :
      {A : Type 0} (addr : Text) (asked : Bool) (rows : Rows A)
      (push : A → SampleList F → SampleList F) (l : SampleList F)
      → ((row : A) (l : SampleList F) → Grows addr l (push row l))
      → Grows addr l (push_answer asked rows push l)
  unfolding push_answer
  push_answer-Grows addr false rows push l h = Grown-refl _ l
  push_answer-Grows addr true none push l h = Grown-refl _ l
  push_answer-Grows addr true (some rows) push l h = push_rows-Grows addr push rows l h

  push_schema-Grows :
      (addr : Text) (tags : Map Text) (row : Text × ℤ) (l : SampleList F)
      → IsTagged addr tags
      → Grows addr l (push_schema tags row l)
  unfolding push_schema
  push_schema-Grows addr tags (schema, size) l t =
      push_labelled-Grows addr (codes "schema_size_bytes") (int64 size) tags
        ((codes "schema", schema) ∷ []) l t (unfold lookup text_eq in ((refl, tt), refl))

  pub gather_schema_size-Grows :
      (addr : Text) (ins : Instance) (db : Db) (tags : Map Text) (l : SampleList F)
      → IsTagged addr tags
      → Grows addr l (gather_schema_size ins db tags l)
  unfolding gather_schema_size copy
  gather_schema_size-Grows addr ins db tags l t =
      push_answer-Grows addr ins.gather_schema_size (db.sizes sql_query_schema_size) _ l
        (λ row l. push_schema-Grows addr _ row l (copy-IsTagged addr tags t))

  push_user-Grows :
      (addr : Text) (tags : Map Text) (row : Text × ℤ) (l : SampleList F)
      → IsTagged addr tags
      → Grows addr l (push_user tags row l)
  unfolding push_user
  push_user-Grows addr tags (user, connections) l t =
      push_labelled-Grows addr (codes "processlist_processes_by_user") (int64 connections) tags
        ((codes "user", user) ∷ []) l t (unfold lookup text_eq in ((refl, tt), refl))

  pub gather_processlist_by_user-Grows :
      (addr : Text) (ins : Instance) (db : Db) (tags : Map Text) (l : SampleList F)
      → IsTagged addr tags
      → Grows addr l (gather_processlist_by_user ins db tags l)
  unfolding gather_processlist_by_user copy
  gather_processlist_by_user-Grows addr ins db tags l t =
      push_answer-Grows addr ins.gather_processlist_process_by_user
        (db.sizes sql_info_schema_processlist_by_user) _ l
        (λ row l. push_user-Grows addr _ row l (copy-IsTagged addr tags t))

  push_table-Grows :
      (addr : Text) (tags : Map Text) (row : TableRow) (l : SampleList F)
      → IsTagged addr tags
      → Grows addr l (push_table tags row l)
  unfolding push_table
  push_table-Grows addr tags row l t =
      let own : IsOwn ((codes "schema", row.schema) ∷ (codes "table", row.table) ∷ []) =
        unfold lookup text_eq in ((refl, (refl, tt)), refl) in
      Grown-trans _ (push_labelled-Grows addr (codes "table_size_index_bytes") _ tags _ l t own)
        (push_labelled-Grows addr (codes "table_size_data_bytes") _ tags _ _ t own)

  pub gather_table_size-Grows :
      (addr : Text) (ins : Instance) (db : Db) (tags : Map Text) (system : Bool) (l : SampleList F)
      → IsTagged addr tags
      → Grows addr l (gather_table_size ins db tags system l)
  unfolding gather_table_size copy
  gather_table_size-Grows addr ins db tags true l t =
      push_answer-Grows addr ins.gather_system_table_size (db.tables sql_query_system_table_size) _
        l (λ row l. push_table-Grows addr _ row l (copy-IsTagged addr tags t))
  gather_table_size-Grows addr ins db tags false l t =
      push_answer-Grows addr ins.gather_table_size (db.tables sql_query_table_size) _ l
        (λ row l. push_table-Grows addr _ row l (copy-IsTagged addr tags t))

  push_states-Grows :
      (addr : Text) (counts : Map ℕ) (tags : Map Text) (l : SampleList F)
      → IsTagged addr tags
      → Grows addr l (push_states counts tags l)
  unfolding push_states push_labelled
  push_states-Grows addr [] tags l t = Grown-refl _ l
  push_states-Grows addr ((s, c) ∷ counts) tags l t =
      let pushed =
        push_labelled-Grows addr (codes "processlist_processes_by_state") (uint32 c) tags
          ((codes "state", s) ∷ []) l t (unfold lookup text_eq in ((refl, tt), refl)) in
      Grown-trans _ pushed (push_states-Grows addr counts tags _ t)

  pub gather_processlist_by_state-Grows :
      (addr : Text) (asked : Bool) (rows : Option (List (Option Row))) (tags : Map Text)
      (l : SampleList F)
      → IsTagged addr tags
      → Grows addr l (gather_processlist_by_state asked rows tags l)
  unfolding gather_processlist_by_state copy
  gather_processlist_by_state-Grows addr false rows tags l t = Grown-refl _ l
  gather_processlist_by_state-Grows addr true none tags l t = Grown-refl _ l
  gather_processlist_by_state-Grows addr true (some rows) tags l t =
      elim (Option-cases (count_rows rows initial_counts)) [
        | inl e ↦ rw (e, gather_processlist_by_state) (Grown-refl _ l)
        | inr (counts, e) ↦
            rw (e, gather_processlist_by_state)
              (push_states-Grows addr counts _ l (copy-IsTagged addr tags t))
      ]

module _ {F : Type 0} ⦃fl : Floats F⦄ where
  push_file_number-Grows :
      (addr : Text) (n : Option Text) (tags : Map Text) (l : SampleList F)
      → IsTagged addr tags
      → Grows addr l (push_file_number n tags l)
  unfolding push_file_number
  push_file_number-Grows addr none tags l t = Grown-refl _ l
  push_file_number-Grows addr (some n) tags l t = elim (Option-cases (fl.parse_float n)) [
    | inl e ↦ rw (e, push_file_number) (Grown-refl _ l)
    | inr (v, e) ↦
        rw (e, push_file_number)
          (unfold push_plain in
            push_plain-Grows addr (codes "binlog_file_number") (float64 v) tags l t)
  ]

  push_binlog-Grows :
      (addr : Text) (b : Binlog) (tags : Map Text) (l : SampleList F)
      → IsTagged addr tags
      → Grows addr l (push_binlog b tags l)
  unfolding push_binlog
  push_binlog-Grows addr b tags l t =
      let two =
        Grown-trans (IsMysql addr)
          (push_plain-Grows addr (codes "binlog_size_bytes") (Value.uint64 b.size) tags l t)
          (push_plain-Grows addr (codes "binlog_file_count") (Value.uint64 b.count) tags _ t) in
      elim (Bool-cases (b.count == 0)) [
        | inl e ↦ rw (e, push_binlog) (unfold push_plain in two)
        | inr e ↦
            rw (e, push_binlog)
              (unfold push_plain in
                Grown-trans (IsMysql addr) two
                  (push_file_number-Grows addr (file_extension b.filename) tags _ t))
      ]

  pub gather_binlog-Grows :
      (addr : Text) (off : Bool) (log_bin : Option ℕ) (rows : Rows (Text × ℕ)) (columns : Option ℕ)
      (tags : Map Text) (l : SampleList F)
      → IsTagged addr tags
      → Grows addr l (gather_binlog off log_bin rows columns tags l)
  unfolding gather_binlog copy
  gather_binlog-Grows addr true log_bin rows columns tags l t = Grown-refl _ l
  gather_binlog-Grows addr false none rows columns tags l t = Grown-refl _ l
  gather_binlog-Grows addr false (some n) none columns tags l t = Grown-refl _ l
  gather_binlog-Grows addr false (some n) (some rows) none tags l t = Grown-refl _ l
  gather_binlog-Grows addr false (some n) (some rows) (some columns) tags l t =
      elim (Bool-cases (n == 0)) [
        | inl e ↦ rw (e, gather_binlog) (Grown-refl _ l)
        | inr e ↦ elim (Option-cases (binlog_rows columns rows no_logs)) [
          | inl f ↦ rw (e, gather_binlog) (rw f (Grown-refl _ l))
          | inr (b, f) ↦
              rw (e, gather_binlog)
                (rw f (push_binlog-Grows addr b _ l (copy-IsTagged addr tags t)))
        ]
      ]
