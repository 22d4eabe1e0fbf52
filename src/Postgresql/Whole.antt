-- ===== src/Postgresql/Whole.antt =====
-- What `Gather` of PostgreSQL adds to the list, and how it ends.
use kubemonitor.Common.{
  ◌≡◌, ◌≢◌, inl, inr, refl, sym, ap, ◌∙◌, Bool, true, false, Option, none, some, List, [], ◌∷◌,
  ◌++◌, map, append_assoc, append-nil, if◌then◌else◌, Bool-cases, Option-cases, All, All-append,
  Text, codes, text_eq, one_of, has_prefix, Map, lookup, is_some,
}
use kubemonitor.Common.Int.{pos}
use kubemonitor.Value.{Floats, Value, int}
use kubemonitor.SafeList.Fifo.{queue, queue-push_front, queue-push_front_n}
use kubemonitor.Sample.{Sample, SampleList, new_sample, push_sample}
use kubemonitor.Sample.Names.{new_sample-labels}
use kubemonitor.Sample.Grown.{Grown, Grown-refl, Grown-trans, push-Grown, map-append}
use kubemonitor.Writer.{Outcome, ok, failed, panicked}
use kubemonitor.Gathering.{
  Push, push_one, push_many, perform_push, pushed_samples, pushed_samples-append,
}
use kubemonitor.Postgresql.{Instance, input_name}
use kubemonitor.Postgresql.Address.{Urls, sanitized_address}
use kubemonitor.Postgresql.Rows.{
  ignored_columns, Answer, scan_columns, db_name, push_columns, acc_row, next_row, acc_rows,
  acc_answer,
}
use kubemonitor.Postgresql.Gather.{Db, databases_sql, perform_all, gather_opened, push_up, gather}

module _ {F : Type 0} where
  -- A sample of PostgreSQL that is labelled by the address.
  abbrev pub IsPostgresql : Option Text → Sample F → Type 0
  IsPostgresql address s =
      (has_prefix s.metric (codes "postgresql_") ≡ true)
      × (server : Text) × (address ≡ some server)
      × (lookup (codes "server") s.labels ≡ some server)

  abbrev Grows : Option Text → SampleList F → SampleList F → Type 0
  Grows address l l' = Grown (IsPostgresql address) l l'

  push_columns-Grows :
      (server db : Text) (columns : Map (Value F)) (l : SampleList F)
      → Grows
          (some server)
          l
          (push_columns columns ((codes "server", server) ∷ (codes "db", db) ∷ []) l)
  unfolding push_columns push_sample
  push_columns-Grows server db [] l = Grown-refl _ l
  push_columns-Grows server db ((col, v) ∷ columns) l =
      let tags : Map Text = (codes "server", server) ∷ (codes "db", db) ∷ [] in
      elim (Bool-cases (one_of ignored_columns col)) [
        | inl e ↦ rw (e, push_columns) (push_columns-Grows server db columns l)
        | inr e ↦
            let here =
              push-Grown (IsPostgresql (some server)) (new_sample input_name col v (tags ∷ [])) l (
                unfold new_sample has_prefix in refl,
                server,
                refl,
                (new_sample-labels input_name col v (tags ∷ [])
                        ((unfold lookup text_eq in (refl, (refl, tt))), tt)).1
                      (codes "server")
                    ∙ unfold lookup text_eq in refl,
              ) in
            rw (e, push_columns) (Grown-trans _ here (push_columns-Grows server db columns _))
      ]

  -- How a part of `Gather` ends, and what it adds.
  abbrev Ends : Option Text → SampleList F → Outcome × SampleList F → Type 0
  Ends address l r = (r.0 ≢ panicked) × Grows address l r.1

  acc_row-Ends :
      (address : Option Text) (columns : List Text) (row : Option (List (Value F)))
      (l : SampleList F)
      → Ends address l (acc_row address columns row l)
  unfolding acc_row
  acc_row-Ends address columns row l = elim (Option-cases (scan_columns columns row)) [
    | inl e ↦ rw (e, acc_row) ((λ c. cc), Grown-refl _ l)
    | inr (fields, e) ↦ rw (e, acc_row) (at_address address fields)
  ]
    where
      at_address :
          (address : Option Text) (fields : Map (Value F))
          → Ends address l (elim address [
            | none ↦ (failed, l)
            | some server ↦ (
              ok,
              push_columns fields
                  ((codes "server", server)
                    ∷ (codes "db", db_name (lookup (codes "datname") fields))
                    ∷ [])
                  l,
            )
          ])
      at_address none fields = ((λ c. cc), Grown-refl _ l)
      at_address (some server) fields = ((λ c. cc), push_columns-Grows server _ fields l)

  next_row-Ends :
      (address : Option Text) (l : SampleList F) (r : Outcome × SampleList F)
      (go : SampleList F → Outcome × SampleList F)
      → Ends address l r
      → ((l : SampleList F) → Ends address l (go l))
      → Ends address l (next_row r go)
  unfolding next_row
  next_row-Ends address l (ok, l') go (n, g) h = ((h l').0, Grown-trans _ g (h l').1)
  next_row-Ends address l (failed, l') go (n, g) h = (n, g)
  next_row-Ends address l (panicked, l') go (n, g) h = (n, g)

  acc_rows-Ends :
      (address : Option Text) (columns : List Text) (rows : List (Option (List (Value F))))
      (l : SampleList F)
      → Ends address l (acc_rows address columns rows l)
  unfolding acc_rows
  acc_rows-Ends address columns [] l = ((λ c. cc), Grown-refl _ l)
  acc_rows-Ends address columns (row ∷ rows) l =
      next_row-Ends address l (acc_row address columns row l) _ (acc_row-Ends address columns row l)
        (λ l'. acc_rows-Ends address columns rows l')

  acc_answer-Ends :
      (address : Option Text) (answer : Option (Answer F)) (l : SampleList F)
      → Ends address l (acc_answer address answer l)
  unfolding acc_answer
  acc_answer-Ends address none l = ((λ c. cc), Grown-refl _ l)
  acc_answer-Ends address (some answer) l = elim (Option-cases answer.columns) [
    | inl e ↦ rw (e, acc_answer) ((λ c. cc), Grown-refl _ l)
    | inr (columns, e) ↦ rw (e, acc_answer) (acc_rows-Ends address columns answer.rows l)
  ]

abbrev pub is_ok : Outcome → Bool
is_ok ok = true
is_ok failed = false
is_ok panicked = false

module _ {F : Type 0} where
  abbrev pub somes : List (Sample F) → List (Option (Sample F))
  somes samples = map (λ s. some s) samples

  abbrev pub up_sample : Option Text → Bool → Sample F
  up_sample address up =
      new_sample input_name (codes "up") (int (if up then pos 1 else pos 0))
        (((codes "server", elim address [ some a ↦ a | none ↦ [] ]) ∷ []) ∷ [])

  perform_push-queue :
      (p : Push F) (l : SampleList F)
      → queue (perform_push p l) ≡ queue l ++ somes (pushed_samples (p ∷ []))
  unfolding perform_push
  perform_push-queue (push_one s) l = queue-push_front (some s) l
  perform_push-queue (push_many samples) l = queue-push_front_n (somes samples) l ∙ rw append-nil

  perform_all-queue :
      (pushes : List (Push F)) (l : SampleList F)
      → queue (perform_all pushes l) ≡ queue l ++ somes (pushed_samples pushes)
  unfolding perform_all
  perform_all-queue [] l = sym (append-nil (queue l))
  perform_all-queue (p ∷ pushes) l =
      perform_all-queue pushes (perform_push p l)
      ∙ ap (λ q. q ++ somes (pushed_samples pushes)) (perform_push-queue p l)
      ∙ append_assoc (queue l) (somes (pushed_samples (p ∷ []))) (somes (pushed_samples pushes))
      ∙ ap (λ s. queue l ++ s)
          (sym (map-append (pushed_samples (p ∷ [])) (pushed_samples pushes))
            ∙ ap somes (sym (pushed_samples-append (p ∷ []) pushes)))

  -- What the goroutines add, if all went well in front of them.
  abbrev pub at_last : Outcome → List (Push F) → List (Option (Sample F))
  at_last o pushes = if is_ok o then somes (pushed_samples pushes) else []

  -- Samples of its own behind the list, and those of the goroutines behind them if all went well.
  abbrev Adds :
      Option Text → List (Push F) → List (Option (Sample F)) → Outcome × SampleList F → Type 0
  Adds address pushes before r =
      (r.0 ≢ panicked)
      × (own : List (Sample F)) × (queue r.1 ≡ before ++ somes own ++ at_last r.0 pushes)
      × All (IsPostgresql address) own

  next_row-Adds :
      (address : Option Text) (pushes : List (Push F)) (l : SampleList F)
      (r : Outcome × SampleList F) (go : SampleList F → Outcome × SampleList F)
      → (r.0 ≢ panicked) × Grown (IsPostgresql address) l r.1
      → ((l : SampleList F) → Adds address pushes (queue l) (go l))
      → Adds address pushes (queue l) (next_row r go)
  unfolding next_row
  next_row-Adds address pushes l (ok, l') go (n, g) h =
      let (fine, own, added, are) = h l' in
      (
        fine,
        g.more ++ own,
        added
            ∙ ap (λ q. q ++ at_last (go l').0 pushes)
                (ap (λ q. q ++ somes own) g.added
                  ∙ append_assoc (queue l) (somes g.more) (somes own)
                  ∙ ap (λ s. queue l ++ s) (sym (map-append g.more own))),
        All-append (IsPostgresql address) g.more own g.all_are are,
      )
  next_row-Adds address pushes l (failed, l') go (n, g) h =
      (n, g.more, g.added ∙ sym (append-nil _), g.all_are)
  next_row-Adds address pushes l (panicked, l') go (n, g) h = absurd (n refl)

  -- A view that was answered, with its columns and every row.
  abbrev pub IsRead : Option (Answer F) → Type 0
  IsRead none = ⊥
  IsRead (some answer) =
      (is_some answer.columns ≡ true) × All (λ row. is_some row ≡ true) answer.rows

  next_row-ok :
      (r : Outcome × SampleList F) (go : SampleList F → Outcome × SampleList F)
      → (next_row r go).0 ≡ ok
      → (r.0 ≡ ok) × (l : SampleList F) × ((go l).0 ≡ ok)
  unfolding next_row
  next_row-ok (ok, l) go h = (refl, l, h)
  next_row-ok (failed, l) go h = absurd (cc)
  next_row-ok (panicked, l) go h = absurd (cc)

  acc_row-ok :
      (address : Option Text) (columns : List Text) (row : Option (List (Value F)))
      (l : SampleList F)
      → (acc_row address columns row l).0 ≡ ok
      → is_some row ≡ true
  unfolding acc_row scan_columns
  acc_row-ok address columns none l h = absurd (cc)
  acc_row-ok address columns (some values) l h = refl

  acc_rows-ok :
      (address : Option Text) (columns : List Text) (rows : List (Option (List (Value F))))
      (l : SampleList F)
      → (acc_rows address columns rows l).0 ≡ ok
      → All (λ row. is_some row ≡ true) rows
  unfolding acc_rows
  acc_rows-ok address columns [] l h = tt
  acc_rows-ok address columns (row ∷ rows) l h =
      let (first, l', later) = next_row-ok (acc_row address columns row l) _ h in
      (acc_row-ok address columns row l first, acc_rows-ok address columns rows l' later)

  acc_answer-IsRead :
      (address : Option Text) (answer : Option (Answer F)) (l : SampleList F)
      → (acc_answer address answer l).0 ≡ ok
      → IsRead answer
  unfolding acc_answer
  acc_answer-IsRead address none l h = absurd (cc)
  acc_answer-IsRead address (some answer) l h = elim (Option-cases answer.columns) [
    | inl e ↦ absurd (failed-ne (sym (ap (λ c. (at_columns c).0) e) ∙ h))
    | inr (columns, e) ↦ (
      ap is_some e,
      acc_rows-ok address columns answer.rows l (sym (ap (λ c. (at_columns c).0) e) ∙ h),
    )
  ]
    where
      at_columns : Option (List Text) → Outcome × SampleList F
      at_columns c = elim c [
        | none ↦ (failed, l)
        | some columns ↦ acc_rows address columns answer.rows l
      ]

      failed-ne : failed ≢ ok
      failed-ne e = cc

  -- Without an address nothing is labelled by it.
  none_labelled :
      (address : Option Text) (own : List (Sample F))
      → All (IsPostgresql address) own
      → address ≡ none
      → own ≡ []
  none_labelled address [] h e = refl
  none_labelled address (s ∷ own) ((p, server, at, l), h) e = absurd (cc)

module _ {F : Type 0} ⦃fl : Floats F⦄ (urls : Urls) (db : Db F) where
  gather_opened-IsRead :
      (ins : Instance) (address : Option Text) (pushes : List (Push F)) (l : SampleList F)
      → (gather_opened urls db ins address pushes l).0 ≡ ok
      → IsRead (db.query (databases_sql ins))
        × IsRead (db.query (codes "SELECT * FROM pg_stat_bgwriter"))
  unfolding gather_opened
  gather_opened-IsRead ins address pushes l h =
      let (first, l', later) =
        next_row-ok (acc_answer address (db.query (databases_sql ins)) l) _ h in
      (
        acc_answer-IsRead address (db.query (databases_sql ins)) l first,
        acc_answer-IsRead address (db.query (codes "SELECT * FROM pg_stat_bgwriter")) l'
            (next_row-ok (acc_answer address (db.query (codes "SELECT * FROM pg_stat_bgwriter")) l')
              _ later).0,
      )

  gather_opened-Adds :
      (ins : Instance) (address : Option Text) (pushes : List (Push F)) (l : SampleList F)
      → Adds address pushes (queue l) (gather_opened urls db ins address pushes l)
  unfolding gather_opened
  gather_opened-Adds ins address pushes l =
      next_row-Adds address pushes l _ _ (acc_answer-Ends address (db.query (databases_sql ins)) l)
        (λ l1.
          next_row-Adds address pushes l1 _ _
            (acc_answer-Ends address (db.query (codes "SELECT * FROM pg_stat_bgwriter")) l1)
            (λ l2. (
              (λ c. cc),
              [],
              perform_all-queue pushes l2
                  ∙ ap (λ q. q ++ somes (pushed_samples pushes)) (sym (append-nil (queue l2))),
              tt,
            )))

  -- `Gather` of PostgreSQL never panics, and fails if the database cannot be opened. It adds the
  -- sample `up` first, 1 or 0 accordingly, whatever fails behind it; then samples that are all
  -- labelled by the sanitized address, never by the configured one, and there is none of them if
  -- that address is an error; and at last, only if it returns nil, what the goroutines of the
  -- configured queries push, in the order in which they run. It returns nil only if both views were
  -- answered, with their columns and every row.
  pub gather-labelled :
      (ins : Instance) (pushes : List (Push F)) (l : SampleList F)
      → let address = sanitized_address urls ins in
        let r = gather urls db ins pushes l in
        (r.0 ≢ panicked)
        × (db.opens ins.conn_config ≡ false → r.0 ≡ failed)
        × (r.0 ≡ ok
            → IsRead (db.query (databases_sql ins))
              × IsRead (db.query (codes "SELECT * FROM pg_stat_bgwriter")))
        × (own : List (Sample F)) × (queue r.1
            ≡ queue l
              ++ some (up_sample address (db.opens ins.conn_config)) ∷ somes own
              ++ at_last r.0 pushes)
        × All (IsPostgresql address) own
        × (address ≡ none → own ≡ [])
  unfolding gather push_up push_sample
  gather-labelled ins pushes l =
      let address = sanitized_address urls ins in
      elim (Bool-cases (db.opens ins.conn_config)) [
        | inr down ↦
            rw (down, gather)
              (
                (λ c. cc),
                (λ e. refl),
                (λ e. absurd (cc)),
                [],
                queue-push_front _ l ∙ sym (append-nil _),
                tt,
                λ e. refl,
              )
        | inl up ↦
            let opened = gather_opened urls db ins address pushes (push_up true address l) in
            let (fine, own, added, are) =
              gather_opened-Adds ins address pushes (push_up true address l) in
            rw (up, gather)
              (
                fine,
                (λ e. cc),
                (λ e. gather_opened-IsRead ins address pushes (push_up true address l) e),
                own,
                added
                    ∙ ap (λ q. q ++ at_last opened.0 pushes)
                        (ap (λ q. q ++ somes own) (queue-push_front _ l)
                          ∙ append_assoc (queue l) (some (up_sample address true) ∷ [])
                              (somes own)),
                are,
                none_labelled address own are,
              )
      ]
