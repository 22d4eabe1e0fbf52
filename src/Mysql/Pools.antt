-- ===== src/Mysql/Pools.antt =====
-- What is computed of the buffer pool, from what the server says.
use kubemonitor.Common.{
  ◌≡◌, inl, inr, refl, ap, ◌∙◌, Bool, false, Option, none, some, List, [], ◌∷◌, ◌++◌, append_assoc,
  arith, if◌then◌else◌, Bool-cases, Option-cases, Text, codes, text_eq, text_eq_iff, to_lower, Map,
  lookup, lookup-insert, or_else,
}
use kubemonitor.Common.Int.{pos}
use kubemonitor.Value.{Floats, float64}
use kubemonitor.SafeList.Fifo.{queue, queue-push_front}
use kubemonitor.Sample.{Sample, SampleList, new_sample, push_sample, copy}
use kubemonitor.Mysql.{input_name}
use kubemonitor.Mysql.Config.{Instance}
use kubemonitor.Mysql.Rows.{Db, Times, parse_status, push_plain}
use kubemonitor.Mysql.Status.{
  Scan, note_number, scan_row, scan_rows, status_texts, global_status, gather_global_status,
  sql_global_status, push_status,
}
use kubemonitor.Mysql.Variables.{
  variable_texts, global_variables, gather_global_variables, sql_global_variables,
}
use kubemonitor.Mysql.Innodb.{
  cached, pages, pages_used, page_bytes, page_util, push_pool, push_pools,
  gather_engine_innodb_status_compute,
}

module _ {F : Type 0} ⦃fl : Floats F⦄ where
  -- The last number that the rows have under a name; a row that is no number says nothing.
  abbrev pub last_number : Times → List (Option (Text × Text)) → Text → Option F
  last_number times [] k = none
  last_number times (none ∷ rows) k = last_number times rows k
  last_number times (some (name, val) ∷ rows) k =
      or_else (last_number times rows k)
        (if text_eq (to_lower name) k then parse_status times val else none)

  note_number-cache :
      (push : Text → F → SampleList F → SampleList F) (valid : Map {0} Unit) (key : Text)
      (v : Option F) (st : Scan F) (k : Text)
      → lookup k (note_number push valid key v st).cache
        ≡ or_else (if text_eq key k then v else none) (lookup k st.cache)
  unfolding note_number
  note_number-cache push valid key none st k = ground arith
  note_number-cache push valid key (some v) st k = elim (Option-cases (lookup key valid)) [
    | inl e ↦ rw (e, note_number) (lookup-insert key k v st.cache ∙ ground arith)
    | inr (u, e) ↦ rw (e, note_number) (lookup-insert key k v st.cache ∙ ground arith)
  ]

  note_number-texts :
      (push : Text → F → SampleList F → SampleList F) (valid : Map {0} Unit) (key : Text)
      (v : Option F) (st : Scan F)
      → (note_number push valid key v st).texts ≡ st.texts
  unfolding note_number
  note_number-texts push valid key none st = refl
  note_number-texts push valid key (some v) st = elim (Option-cases (lookup key valid)) [
    | inl e ↦ rw (e, note_number) refl
    | inr (u, e) ↦ rw (e, note_number) refl
  ]

  -- A row, for a name that is not among the texts.
  scan_row-cache :
      (times : Times) (push : Text → F → SampleList F → SampleList F) (valid : Map {0} Unit)
      (name val : Text) (st : Scan F) (k : Text)
      → lookup k st.texts ≡ none
      → let st' = scan_row times push valid (name, val) st in
        (lookup k st'.texts ≡ none)
        × (lookup k st'.cache
            ≡ or_else
                (if text_eq (to_lower name) k then parse_status times val else none)
                (lookup k st.cache))
  unfolding scan_row
  scan_row-cache times push valid name val st k h =
      elim (Option-cases (lookup (to_lower name) st.texts)) [
        | inr (old, e) ↦
            rw (e, scan_row)
              (
                ground (
                  arith,
                  h,
                  e,
                  lookup-insert (to_lower name) k val st.texts,
                  text_eq_iff (to_lower name) k,
                ),
                ground (arith, h, e, text_eq_iff (to_lower name) k),
              )
        | inl e ↦
            rw (e, scan_row)
              (
                ap (lookup k) (note_number-texts push valid _ (parse_status times val) st) ∙ h,
                note_number-cache push valid (to_lower name) (parse_status times val) st k,
              )
      ]

  or_else_assoc : (a b c : Option F) → or_else a (or_else b c) ≡ or_else (or_else a b) c
  or_else_assoc (some x) b c = refl
  or_else_assoc none b c = refl

  scan_rows-cache :
      (times : Times) (push : Text → F → SampleList F → SampleList F) (valid : Map {0} Unit)
      (rows : List (Option (Text × Text))) (st : Scan F) (k : Text)
      → lookup k st.texts ≡ none
      → lookup k (scan_rows times push valid rows st).cache
        ≡ or_else (last_number times rows k) (lookup k st.cache)
  unfolding scan_rows
  scan_rows-cache times push valid [] st k h = refl
  scan_rows-cache times push valid (none ∷ rows) st k h =
      scan_rows-cache times push valid rows st k h
  scan_rows-cache times push valid (some (name, val) ∷ rows) st k h =
      let (absent, here) = scan_row-cache times push valid name val st k h in
      scan_rows-cache times push valid rows _ k absent
      ∙ ap (or_else (last_number times rows k)) here
      ∙ or_else_assoc (last_number times rows k) _ (lookup k st.cache)

  -- What the server says of a variable: the variables before the status, and 0 where neither has a
  -- number.
  abbrev pub said : Times → List (Option (Text × Text)) → List (Option (Text × Text)) → Text → F
  said times status variables k =
      elim (or_else (last_number times variables k) (last_number times status k)) [
        | some v ↦ v
        | none ↦ fl.of_int (pos 0)
      ]

  abbrev pub pool_sample : Map Text → Text → F → Option (Sample F)
  pool_sample tags name v = some (
      new_sample input_name (codes "global_status_buffer_pool_" ++ name) (float64 v)
        (copy tags ∷ []))

  -- The samples of a pool of so many pages, of which so many are free, have data and are dirty, at
  -- a size of a page.
  abbrev pub pool_samples : Map Text → Bool → F → F → F → F → F → List (Option (Sample F))
  pool_samples tags extra total free data_pages dirty size =
      let used = fl.sub total free in
      let util =
        if fl.is_zero total
        then fl.of_int (pos 0)
        else fl.mul (fl.div used total) (fl.of_int (pos 100)) in
      pool_sample tags (codes "bytes_used") (fl.mul used size)
      ∷ pool_sample tags (codes "bytes_data") (fl.mul data_pages size)
      ∷ pool_sample tags (codes "bytes_free") (fl.mul free size)
      ∷ pool_sample tags (codes "bytes_total") (fl.mul total size)
      ∷ pool_sample tags (codes "bytes_dirty") (fl.mul dirty size)
      ∷ pool_sample tags (codes "pages_utilization") util
      ∷ (if extra then pool_sample tags (codes "pages_used") used ∷ [] else [])

  push_pool-queue :
      (name : Text) (v : F) (tags : Map Text) (l : SampleList F)
      → queue (push_pool name v (copy tags) l) ≡ queue l ++ pool_sample tags name v ∷ []
  unfolding push_pool push_plain push_sample
  push_pool-queue name v tags l = queue-push_front (pool_sample tags name v) l

  -- One more sample behind those that are there.
  one_more :
      (name : Text) (v : F) (tags : Map Text) (l l' : SampleList F)
      (there : List (Option (Sample F)))
      → queue l' ≡ queue l ++ there
      → queue (push_pool name v (copy tags) l') ≡ queue l ++ (there ++ pool_sample tags name v ∷ [])
  one_more name v tags l l' there h =
      push_pool-queue name v tags l'
      ∙ ap (λ q. q ++ pool_sample tags name v ∷ []) h
      ∙ append_assoc (queue l) there (pool_sample tags name v ∷ [])

  abbrev page : Map F → Text → F
  page cache state = cached cache (codes "innodb_buffer_pool_pages_" ++ state)

  -- The samples of a cache.
  abbrev samples_of : Map Text → Bool → Map F → List (Option (Sample F))
  samples_of tags extra cache =
      pool_samples tags extra (page cache (codes "total")) (page cache (codes "free"))
        (page cache (codes "data")) (page cache (codes "dirty"))
        (cached cache (codes "innodb_page_size"))

  push_pools-queue :
      (tags : Map Text) (cache : Map F) (l : SampleList F)
      → queue (push_pools cache (copy tags) l) ≡ queue l ++ samples_of tags false cache
  unfolding push_pools page_util page_bytes pages_used pages
  push_pools-queue tags cache l = one_more (codes "pages_utilization") _ tags l _ _ (
      one_more (codes "bytes_dirty") _ tags l _ _ (
        one_more (codes "bytes_total") _ tags l _ _ (
          one_more (codes "bytes_free") _ tags l _ _ (
            one_more (codes "bytes_data") _ tags l _ _
              (push_pool-queue (codes "bytes_used") _ tags l)))))

  compute-queue :
      (ins : Instance) (tags : Map Text) (cache : Map F) (l : SampleList F)
      → ins.disable_extra_innodb_status ≡ false
      → queue (gather_engine_innodb_status_compute ins tags cache l)
        ≡ queue l ++ samples_of tags ins.extra_innodb_metrics cache
  unfolding gather_engine_innodb_status_compute pages_used pages
  compute-queue ins tags cache l on = elim (Bool-cases ins.extra_innodb_metrics) [
    | inl e ↦
        rw (on, e, gather_engine_innodb_status_compute)
          (one_more (codes "pages_used") (pages_used cache) tags l _ _
            (push_pools-queue tags cache l))
    | inr e ↦ rw (on, e, gather_engine_innodb_status_compute) (push_pools-queue tags cache l)
  ]

  status-cache :
      (times : Times) (valid : Map {0} Unit) (rows : List (Option (Text × Text))) (tags : Map Text)
      (cache : Map F) (l : SampleList F) (k : Text)
      → lookup k status_texts ≡ none
      → lookup k (global_status times valid (some rows) tags cache l).0
        ≡ or_else (last_number times rows k) (lookup k cache)
  unfolding global_status
  status-cache times valid rows tags cache l k h =
      scan_rows-cache times (λ key value l. push_status key value tags l) valid rows
        (record { texts = status_texts; cache = cache; slist = l }) k h

  variables-cache :
      (times : Times) (valid : Map {0} Unit) (rows : List (Option (Text × Text))) (tags : Map Text)
      (cache : Map F) (l : SampleList F) (k : Text)
      → lookup k variable_texts ≡ none
      → lookup k (global_variables times valid (some rows) tags cache l).0
        ≡ or_else (last_number times rows k) (lookup k cache)
  unfolding global_variables
  variables-cache times valid rows tags cache l k h =
      scan_rows-cache times
        (λ key value l. push_plain (codes "global_variables_" ++ key) (float64 value) tags l) valid
        rows (record { texts = variable_texts; cache = cache; slist = l }) k h

  nothing_cached : (o : Option F) (k : Text) → or_else o (lookup k []) ≡ o
  unfolding lookup
  nothing_cached (some v) k = refl
  nothing_cached none k = refl

  -- The cache behind both loops.
  abbrev both : Times → Instance → Db → Map Text → SampleList F → Map F
  both times ins db tags l =
      let (cache, status) = gather_global_status times ins db tags [] l in
      (gather_global_variables times ins db tags cache status).0

  asked_status :
      (times : Times) (ins : Instance) (db : Db) (tags : Map Text)
      (rows : List (Option (Text × Text))) (cache : Map F) (l : SampleList F)
      → ins.disable_global_status ≡ false
      → db.pairs sql_global_status ≡ some rows
      → gather_global_status times ins db tags cache l
        ≡ global_status times ins.valid_metrics (some rows) (copy tags) cache l
  unfolding gather_global_status
  asked_status times ins db tags rows cache l on s =
      let go : Option (List (Option (Text × Text))) → Map F × SampleList F =
        λ r. global_status times ins.valid_metrics r (copy tags) cache l in
      ap (λ off. if off then (cache, l) else go (db.pairs sql_global_status)) on ∙ ap go s

  asked_variables :
      (times : Times) (ins : Instance) (db : Db) (tags : Map Text)
      (rows : List (Option (Text × Text))) (cache : Map F) (l : SampleList F)
      → ins.disable_global_status ≡ false
      → db.pairs sql_global_variables ≡ some rows
      → gather_global_variables times ins db tags cache l
        ≡ global_variables times ins.valid_metrics (some rows) (copy tags) cache l
  unfolding gather_global_variables
  asked_variables times ins db tags rows cache l on v =
      let go : Option (List (Option (Text × Text))) → Map F × SampleList F =
        λ r. global_variables times ins.valid_metrics r (copy tags) cache l in
      ap (λ off. if off then (cache, l) else go (db.pairs sql_global_variables)) on ∙ ap go v

  cached-both :
      (times : Times) (ins : Instance) (db : Db) (tags : Map Text)
      (status variables : List (Option (Text × Text))) (l : SampleList F) (k : Text)
      → ins.disable_global_status ≡ false
      → db.pairs sql_global_status ≡ some status
      → db.pairs sql_global_variables ≡ some variables
      → lookup k status_texts ≡ none
      → lookup k variable_texts ≡ none
      → cached (both times ins db tags l) k ≡ said times status variables k
  unfolding cached
  cached-both times ins db tags status variables l k on s v a b =
      let (cache, l1) = gather_global_status times ins db tags [] l in
      let found : lookup k (both times ins db tags l)
          ≡ or_else (last_number times variables k) (last_number times status k) =
        ap (λ r. lookup k r.0) (asked_variables times ins db tags variables cache l1 on v)
        ∙ variables-cache times ins.valid_metrics variables (copy tags) cache l1 k b
        ∙ ap (λ r. or_else (last_number times variables k) (lookup k r.0))
            (asked_status times ins db tags status [] l on s)
        ∙ ap (or_else (last_number times variables k)) (
            status-cache times ins.valid_metrics status (copy tags) [] l k a
            ∙ nothing_cached (last_number times status k) k) in
      ap (λ (o : Option F). elim o [ some w ↦ w | none ↦ fl.of_int (pos 0) ]) found

  -- With the two queries answered and neither flag set, the samples of the buffer pool are computed
  -- from the last number that the server has under each name, its variables before its status, 0
  -- where it has none, and whether or not the name is one that is pushed: the bytes are the pages
  -- times the size of a page, the used ones are the total without the free ones, and the
  -- utilization is 0 for a pool without a page.
  pub compute-said :
      (times : Times) (ins : Instance) (db : Db) (tags : Map Text)
      (status variables : List (Option (Text × Text))) (l l' : SampleList F)
      → ins.disable_global_status ≡ false
      → ins.disable_extra_innodb_status ≡ false
      → db.pairs sql_global_status ≡ some status
      → db.pairs sql_global_variables ≡ some variables
      → let (cache, l1) = gather_global_status times ins db tags [] l in
        let cache' = (gather_global_variables times ins db tags cache l1).0 in
        let say = λ (state : Text).
          said times status variables (codes "innodb_buffer_pool_pages_" ++ state) in
        queue (gather_engine_innodb_status_compute ins tags cache' l')
        ≡ queue l'
          ++ pool_samples tags ins.extra_innodb_metrics
              (say (codes "total"))
              (say (codes "free"))
              (say (codes "data"))
              (say (codes "dirty"))
              (said times status variables (codes "innodb_page_size"))
  compute-said times ins db tags status variables l l' on extra s v =
      let at = λ (k : Text) (a : lookup k status_texts ≡ none) (b : lookup k variable_texts ≡ none).
        cached-both times ins db tags status variables l k on s v a b in
      let page_at = λ (state : Text). at (codes "innodb_buffer_pool_pages_" ++ state) in
      compute-queue ins tags (both times ins db tags l) l' extra
      ∙ rw
          (
            page_at (codes "total") (unfold lookup text_eq in refl) (unfold lookup text_eq in refl),
            page_at (codes "free") (unfold lookup text_eq in refl) (unfold lookup text_eq in refl),
            page_at (codes "data") (unfold lookup text_eq in refl) (unfold lookup text_eq in refl),
            page_at (codes "dirty") (unfold lookup text_eq in refl) (unfold lookup text_eq in refl),
            at (codes "innodb_page_size") (unfold lookup text_eq in refl)
                (unfold lookup text_eq in refl),
          )
          refl
