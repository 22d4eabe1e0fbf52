-- ===== src/Mysql/Engine.antt =====
-- What the variables, InnoDB and the replica add to the list.
use kubemonitor.Common.{
  inl, inr, refl, not, ◌||◌, Option, none, some, List, [], ◌∷◌, ◌++◌, ◌==◌, if◌then◌else◌, length,
  Bool-cases, Option-cases, Text, codes, text_eq, to_lower, split, Map, lookup,
}
use kubemonitor.Common.Int.{pos}
use kubemonitor.Value.{Floats, float64, int}
use kubemonitor.Sample.{SampleList, copy}
use kubemonitor.Sample.Grown.{IsTagged, copy-IsTagged, Grown-refl, Grown-trans}
use kubemonitor.Mysql.Config.{Instance}
use kubemonitor.Mysql.Rows.{Rows, Columns, Db, Times, parse_status, push_plain}
use kubemonitor.Mysql.Status.{Scan, text_item}
use kubemonitor.Mysql.Variables.{
  variable_texts, parse_wsrep_provider_options, push_version, push_galera_variables, push_isolation,
  global_variables, gather_global_variables, sql_global_variables,
}
use kubemonitor.Mysql.Innodb.{
  find_match, queries_at, views_at, push_queries, push_views, innodb_line, innodb_lines,
  innodb_status, gather_engine_innodb_status, push_pool, push_pools, pages_used,
  gather_engine_innodb_status_compute, sql_engine_innodb_status,
}
use kubemonitor.Mysql.Replica.{
  push_column, push_columns, slave_labels, push_slaves, slave_status, query_slave_status,
  gather_slave_status,
}
use kubemonitor.Mysql.Pushed.{IsMysql, Grows, IsOwn, push_plain-Grows, push_labelled-Grows}
use kubemonitor.Mysql.Scanned.{either-Grows, scan_rows-Grows}

slave_labels-IsOwn : (cols cells : List Text) → IsOwn (slave_labels cols cells)
unfolding slave_labels lookup text_eq
slave_labels-IsOwn cols cells = ((refl, (refl, (refl, tt))), refl)

module _ {F : Type 0} ⦃fl : Floats F⦄ where
  push_version-Grows :
      (addr : Text) (texts tags : Map Text) (l : SampleList F)
      → IsTagged addr tags
      → Grows addr l (push_version texts tags l)
  unfolding push_version
  push_version-Grows addr texts tags l t =
      let item : Text → Text × Text = λ key. (key, text_item key texts) in
      let own : IsOwn (
          item (codes "version")
          ∷ item (codes "innodb_version")
          ∷ item (codes "version_comment")
          ∷ []) =
        unfold lookup text_eq in ((refl, (refl, (refl, tt))), refl) in
      push_labelled-Grows addr (codes "version_info") (int (pos 1)) tags _ l t own

  push_galera_variables-Grows :
      (addr : Text) (texts tags : Map Text) (l : SampleList F)
      → IsTagged addr tags
      → Grows addr l (push_galera_variables texts tags l)
  unfolding push_galera_variables
  push_galera_variables-Grows addr texts tags l t =
      let name = text_item (codes "wsrep_cluster_name") texts in
      let options = text_item (codes "wsrep_provider_options") texts in
      let own : IsOwn ((codes "wsrep_cluster_name", name) ∷ []) =
        unfold lookup text_eq in ((refl, tt), refl) in
      let named =
        either-Grows addr (length name == 0) l _ _ (Grown-refl _ l)
          (push_labelled-Grows addr (codes "galera_variables_info") (int (pos 1)) tags _ l t own) in
      either-Grows addr (length options == 0) l _ _ named (
        Grown-trans _ named (
          push_plain-Grows addr (codes "galera_gcache_size_bytes")
            (float64 (parse_wsrep_provider_options options)) tags _ t))

  push_isolation-Grows :
      (addr : Text) (texts tags : Map Text) (l : SampleList F)
      → IsTagged addr tags
      → Grows addr l (push_isolation texts tags l)
  unfolding push_isolation
  push_isolation-Grows addr texts tags l t =
      let transaction = text_item (codes "transaction_isolation") texts in
      let tx = text_item (codes "tx_isolation") texts in
      let own : IsOwn ((codes "level", if length transaction == 0 then tx else transaction) ∷ []) =
        unfold lookup text_eq in ((refl, tt), refl) in
      either-Grows addr (not (length transaction == 0) || not (length tx == 0)) l _ _
        (push_labelled-Grows addr (codes "transaction_isolation") (int (pos 1)) tags _ l t own)
        (Grown-refl _ l)

  global_variables-Grows :
      (addr : Text) (times : Times) (valid : Map {0} Unit) (rows : Rows (Text × Text))
      (tags : Map Text) (cache : Map F) (l : SampleList F)
      → IsTagged addr tags
      → Grows addr l (global_variables times valid rows tags cache l).1
  unfolding global_variables
  global_variables-Grows addr times valid none tags cache l t = Grown-refl _ l
  global_variables-Grows addr times valid (some rows) tags cache l t =
      let first : Scan F = record { texts = variable_texts; cache = cache; slist = l } in
      let scanned =
        scan_rows-Grows addr times
          (λ key value l. push_plain (codes "global_variables_" ++ key) (float64 value) tags l)
          valid rows first
          (λ key v l.
            push_plain-Grows addr (codes "global_variables_" ++ key) (float64 v) tags l t) in
      Grown-trans _ scanned (
        Grown-trans _ (push_version-Grows addr _ tags _ t) (
          Grown-trans _ (push_galera_variables-Grows addr _ tags _ t)
            (push_isolation-Grows addr _ tags _ t)))

  pub gather_global_variables-Grows :
      (addr : Text) (times : Times) (ins : Instance) (db : Db) (tags : Map Text) (cache : Map F)
      (l : SampleList F)
      → IsTagged addr tags
      → Grows addr l (gather_global_variables times ins db tags cache l).1
  unfolding gather_global_variables copy
  gather_global_variables-Grows addr times ins db tags cache l t =
      elim (Bool-cases ins.disable_global_status) [
        | inl e ↦ rw (e, gather_global_variables) (Grown-refl _ l)
        | inr e ↦
            rw (e, gather_global_variables)
              (global_variables-Grows addr times ins.valid_metrics (db.pairs sql_global_variables) _
                cache l (copy-IsTagged addr tags t))
      ]

  push_queries-Grows :
      (addr : Text) (m : Text × Text) (tags : Map Text) (l : SampleList F)
      → IsTagged addr tags
      → Grows addr l (push_queries m tags l)
  unfolding push_queries
  push_queries-Grows addr (inside, queued) tags l t = elim (Option-cases (fl.parse_float inside)) [
    | inl e ↦ rw (e, push_queries) (Grown-refl _ l)
    | inr (i, e) ↦
        let first =
          push_plain-Grows addr (codes "engine_innodb_queries_inside_innodb") (float64 i) tags l
            t in
        elim (Option-cases (fl.parse_float queued)) [
          | inl f ↦ rw (e, push_queries) (rw f first)
          | inr (q, f) ↦
              rw (e, push_queries)
                (rw f (
                  Grown-trans (IsMysql addr) first (
                    push_plain-Grows addr (codes "engine_innodb_queries_in_queue") (float64 q) tags
                      _ t)))
        ]
  ]

  push_views-Grows :
      (addr views : Text) (tags : Map Text) (l : SampleList F)
      → IsTagged addr tags
      → Grows addr l (push_views views tags l)
  unfolding push_views
  push_views-Grows addr views tags l t = elim (Option-cases (fl.parse_float views)) [
    | inl e ↦ rw (e, push_views) (Grown-refl _ l)
    | inr (v, e) ↦
        rw (e, push_views)
          (push_plain-Grows addr (codes "engine_innodb_read_views_open_inside_innodb") (float64 v)
            tags l t)
  ]

  innodb_lines-Grows :
      (addr : Text) (lines : List Text) (tags : Map Text) (l : SampleList F)
      → IsTagged addr tags
      → Grows addr l (innodb_lines lines tags l)
  unfolding innodb_lines innodb_line
  innodb_lines-Grows addr [] tags l t = Grown-refl _ l
  innodb_lines-Grows addr (line ∷ lines) tags l t =
      let pushed : Grows addr l (innodb_line line tags l) =
        elim (Option-cases (find_match queries_at line)) [
          | inr (m, e) ↦ rw (e, innodb_line) (push_queries-Grows addr m tags l t)
          | inl e ↦ elim (Option-cases (find_match views_at line)) [
            | inr (m, f) ↦ rw (e, innodb_line) (rw f (push_views-Grows addr m tags l t))
            | inl f ↦ rw (e, innodb_line) (rw f (Grown-refl _ l))
          ]
        ] in
      Grown-trans _ pushed (innodb_lines-Grows addr lines tags _ t)

  innodb_status-Grows :
      (addr : Text) (rows : Rows (Text × Text × Text)) (tags : Map Text) (l : SampleList F)
      → IsTagged addr tags
      → Grows addr l (innodb_status rows tags l)
  unfolding innodb_status
  innodb_status-Grows addr none tags l t = Grown-refl _ l
  innodb_status-Grows addr (some []) tags l t = innodb_lines-Grows addr (split [] 10) tags l t
  innodb_status-Grows addr (some (none ∷ rows)) tags l t = Grown-refl _ l
  innodb_status-Grows addr (some (some (type, name, status) ∷ rows)) tags l t =
      innodb_lines-Grows addr (split status 10) tags l t

  pub gather_engine_innodb_status-Grows :
      (addr : Text) (ins : Instance) (db : Db) (tags : Map Text) (l : SampleList F)
      → IsTagged addr tags
      → Grows addr l (gather_engine_innodb_status ins db tags l)
  unfolding gather_engine_innodb_status copy
  gather_engine_innodb_status-Grows addr ins db tags l t =
      either-Grows addr ins.disable_innodb_status l _ _ (Grown-refl _ l) (
        innodb_status-Grows addr (db.triple sql_engine_innodb_status) _ l
          (copy-IsTagged addr tags t))

  push_pool-Grows :
      (addr name : Text) (v : F) (tags : Map Text) (l : SampleList F)
      → IsTagged addr tags
      → Grows addr l (push_pool name v tags l)
  unfolding push_pool
  push_pool-Grows addr name v tags l t =
      push_plain-Grows addr (codes "global_status_buffer_pool_" ++ name) (float64 v) tags l t

  push_pools-Grows :
      (addr : Text) (cache : Map F) (tags : Map Text) (l : SampleList F)
      → IsTagged addr tags
      → Grows addr l (push_pools cache tags l)
  unfolding push_pools
  push_pools-Grows addr cache tags l t =
      Grown-trans _ (push_pool-Grows addr (codes "bytes_used") _ tags l t) (
        Grown-trans _ (push_pool-Grows addr (codes "bytes_data") _ tags _ t) (
          Grown-trans _ (push_pool-Grows addr (codes "bytes_free") _ tags _ t) (
            Grown-trans _ (push_pool-Grows addr (codes "bytes_total") _ tags _ t) (
              Grown-trans _ (push_pool-Grows addr (codes "bytes_dirty") _ tags _ t)
                (push_pool-Grows addr (codes "pages_utilization") _ tags _ t)))))

  pub gather_engine_innodb_status_compute-Grows :
      (addr : Text) (ins : Instance) (tags : Map Text) (cache : Map F) (l : SampleList F)
      → IsTagged addr tags
      → Grows addr l (gather_engine_innodb_status_compute ins tags cache l)
  unfolding gather_engine_innodb_status_compute copy
  gather_engine_innodb_status_compute-Grows addr ins tags cache l t =
      let t' = copy-IsTagged addr tags t in
      let pools = push_pools-Grows addr cache _ l t' in
      either-Grows addr ins.disable_extra_innodb_status l _ _ (Grown-refl _ l) (
        either-Grows addr ins.extra_innodb_metrics l _ _
          (Grown-trans _ pools
            (push_pool-Grows addr (codes "pages_used") (pages_used cache) _ _ t'))
          pools)

  push_column-Grows :
      (addr key : Text) (v : Option F) (tags labels : Map Text) (l : SampleList F)
      → IsTagged addr tags
      → IsOwn labels
      → Grows addr l (push_column key v tags labels l)
  unfolding push_column
  push_column-Grows addr key none tags labels l t o = Grown-refl _ l
  push_column-Grows addr key (some v) tags labels l t o =
      push_labelled-Grows addr (codes "slave_status_" ++ key) (float64 v) tags labels l t o

  push_columns-Grows :
      (addr : Text) (times : Times) (valid : Map {0} Unit) (cols cells : List Text)
      (tags labels : Map Text) (l : SampleList F)
      → IsTagged addr tags
      → IsOwn labels
      → Grows addr l (push_columns times valid cols cells tags labels l)
  unfolding push_columns
  push_columns-Grows addr times valid [] cells tags labels l t o = Grown-refl _ l
  push_columns-Grows addr times valid (col ∷ cols) [] tags labels l t o = Grown-refl _ l
  push_columns-Grows addr times valid (col ∷ cols) (cell ∷ cells) tags labels l t o =
      elim (Option-cases (lookup (to_lower col) valid)) [
        | inl e ↦
            rw (e, push_columns) (push_columns-Grows addr times valid cols cells tags labels l t o)
        | inr (u, e) ↦
            rw (e, push_columns)
              (Grown-trans (IsMysql addr)
                (push_column-Grows addr (to_lower col) (parse_status times cell) tags labels l t o)
                (push_columns-Grows addr times valid cols cells tags labels _ t o))
      ]

  push_slaves-Grows :
      (addr : Text) (times : Times) (valid : Map {0} Unit) (cols : List Text)
      (rows : List (Option (List Text))) (tags : Map Text) (l : SampleList F)
      → IsTagged addr tags
      → Grows addr l (push_slaves times valid cols rows tags l)
  unfolding push_slaves
  push_slaves-Grows addr times valid cols [] tags l t = Grown-refl _ l
  push_slaves-Grows addr times valid cols (none ∷ rows) tags l t =
      push_slaves-Grows addr times valid cols rows tags l t
  push_slaves-Grows addr times valid cols (some cells ∷ rows) tags l t =
      Grown-trans _
        (push_columns-Grows addr times valid cols cells tags (slave_labels cols cells) l t
          (slave_labels-IsOwn cols cells))
        (push_slaves-Grows addr times valid cols rows tags _ t)

  slave_status-Grows :
      (addr : Text) (times : Times) (valid : Map {0} Unit) (answer : Option Columns)
      (tags : Map Text) (l : SampleList F)
      → IsTagged addr tags
      → Grows addr l (slave_status times valid answer tags l)
  unfolding slave_status
  slave_status-Grows addr times valid none tags l t = Grown-refl _ l
  slave_status-Grows addr times valid (some answer) tags l t = elim (Option-cases answer.names) [
    | inl e ↦ rw (e, slave_status) (Grown-refl _ l)
    | inr (cols, e) ↦
        rw (e, slave_status) (push_slaves-Grows addr times valid cols answer.rows tags l t)
  ]

  pub gather_slave_status-Grows :
      (addr : Text) (times : Times) (ins : Instance) (db : Db) (tags : Map Text) (l : SampleList F)
      → IsTagged addr tags
      → Grows addr l (gather_slave_status times ins db tags l)
  unfolding gather_slave_status
  gather_slave_status-Grows addr times ins db tags l t =
      either-Grows addr ins.gather_slave_status l _ _
        (slave_status-Grows addr times ins.valid_metrics (query_slave_status db) tags l t)
        (Grown-refl _ l)
