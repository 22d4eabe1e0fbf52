-- ===== src/Postgresql/Rows.antt =====
-- The rows of PostgreSQL: those of the statistics views, and those of the configured queries.
use kubemonitor.Common.{
  Bool, false, ◌||◌, Option, none, some, List, [], ◌∷◌, ◌++◌, ◌==◌, if◌then◌else◌, length, Text,
  codes, one_of, to_lower, replace_bytes, Map, lookup, insert,
}
use kubemonitor.Value.{Floats, Value, text, float64}
use kubemonitor.Conv
use kubemonitor.Sample.{SampleList, push_sample}
use kubemonitor.Writer.{Outcome, ok, failed, panicked}
use kubemonitor.Gathering.{Push, Gathered, sample_pushed, then_do}
use kubemonitor.Postgresql.{MetricConfig, input_name, clean_name}

-- The keys of `ignoredColumns`.
abbrev pub ignored_columns : List Text
ignored_columns = codes "stats_reset" ∷ []

-- The answer of a query: its columns, and its rows with a value for each; `none` is an error.
pub record Answer (F : Type 0) : Type 0 where
  pub columns : Option (List Text)
  pub rows : List (Option (List (Value F)))

abbrev repeats : List Text → Bool
repeats [] = false
repeats (column ∷ columns) = one_of columns column || repeats columns

module _ {F : Type 0} where
  abbrev zip_columns : List Text → List (Value F) → Map (Value F)
  zip_columns [] values = []
  zip_columns (column ∷ columns) [] = []
  zip_columns (column ∷ columns) (v ∷ values) = (column, v) ∷ zip_columns columns values

  -- `row.Scan` into one variable for each name: a column that is there twice leaves too few of them,
  -- which is an error of `Scan`.
  unfoldable pub scan_columns : List Text → Option (List (Value F)) → Option (Map (Value F))
  scan_columns columns none = none
  scan_columns columns (some values) =
      if repeats columns then none else some (zip_columns columns values)

  -- A database without a text for a name is that of the global objects.
  unfoldable pub db_name : Option (Value F) → Text
  db_name none = codes "postgres"
  db_name (some (text name)) = name
  db_name (some v) = codes "postgres_global"

  unfoldable pub push_columns : Map (Value F) → Map Text → SampleList F → SampleList F
  push_columns [] tags slist = slist
  push_columns ((col, v) ∷ columns) tags slist =
      if one_of ignored_columns col
      then push_columns columns tags slist
      else push_columns columns tags (push_sample input_name col v (tags ∷ []) slist)

  -- `accRow`, with the result of `SanitizedAddress`.
  unfoldable pub acc_row :
      Option Text → List Text → Option (List (Value F)) → SampleList F → Outcome × SampleList F
  unfolding scan_columns db_name push_columns
  acc_row address columns row slist = elim (scan_columns columns row) [
    | none ↦ (failed, slist)
    | some fields ↦ elim address [
      | none ↦ (failed, slist)
      | some server ↦ (
        ok,
        push_columns fields
            ((codes "server", server)
              ∷ (codes "db", db_name (lookup (codes "datname") fields))
              ∷ [])
            slist,
      )
    ]
  ]

  -- The rest of a loop, where the row is no error.
  unfoldable pub next_row :
      Outcome × SampleList F → (SampleList F → Outcome × SampleList F) → Outcome × SampleList F
  next_row (ok, slist) go = go slist
  next_row (failed, slist) go = (failed, slist)
  next_row (panicked, slist) go = (panicked, slist)

  unfoldable pub acc_rows :
      Option Text
      → List Text
      → List (Option (List (Value F)))
      → SampleList F
      → Outcome × SampleList F
  unfolding acc_row next_row
  acc_rows address columns [] slist = (ok, slist)
  acc_rows address columns (row ∷ rows) slist =
      next_row (acc_row address columns row slist) (λ l. acc_rows address columns rows l)

  -- A query of a view, its columns and its rows.
  unfoldable pub acc_answer :
      Option Text → Option (Answer F) → SampleList F → Outcome × SampleList F
  unfolding acc_rows
  acc_answer address none slist = (failed, slist)
  acc_answer address (some answer) slist = elim answer.columns [
    | none ↦ (failed, slist)
    | some columns ↦ acc_rows address columns answer.rows slist
  ]

-- `row[key]` of a map of texts.
abbrev pub cell : Map Text → Text → Text
cell row key = elim (lookup key row) [ some v ↦ v | none ↦ [] ]

-- The labels of a row: those of its label fields that it has.
unfoldable pub row_labels : List Text → Map Text → Map Text → Map Text
row_labels [] row labels = labels
row_labels (label ∷ fields) row labels = elim (lookup label row) [
  | none ↦ row_labels fields row labels
  | some v ↦
      row_labels fields row (insert label (replace_bytes (λ c. c == 32) (b'_' ∷ []) v) labels)
]

unfoldable pub metric_name : MetricConfig → Map Text → Text → Text
unfolding clean_name
metric_name conf row column =
    if length conf.field_to_append == 0
    then conf.mesurement ++ b'_' ∷ column
    else conf.mesurement ++ b'_' ∷ clean_name (cell row conf.field_to_append) ++ b'_' ∷ column

module _ {F : Type 0} ⦃fl : Floats F⦄ where
  -- The columns of a row: the first that is no number ends it.
  unfoldable pub metric_fields : MetricConfig → Map Text → Map Text → List Text → Gathered F
  unfolding metric_name then_do
  metric_fields conf row labels [] = (ok, [])
  metric_fields conf row labels (column ∷ columns) =
      elim (Conv.text_to_float64 ⦃fl = fl⦄ (cell row column)) [
        | none ↦ (failed, [])
        | some v ↦
            let pushed =
              sample_pushed input_name (metric_name conf row column) (float64 v) (labels ∷ []) in
            then_do (ok, pushed ∷ []) (metric_fields conf row labels columns)
      ]

  -- `parseRow`: the tags that it is called with are empty.
  unfoldable pub parse_row : MetricConfig → Map Text → Gathered F
  unfolding metric_fields row_labels
  parse_row conf row =
      metric_fields conf row (row_labels conf.label_fields row []) conf.metric_fields

-- The map of a row: the names in lower case, each with what `fmt.Sprint` prints.
unfoldable pub printed :
    {F : Type 0} → (Value F → Text) → List Text → List (Value F) → Map Text → Map Text
printed print [] values row = row
printed print (column ∷ columns) [] row = row
printed print (column ∷ columns) (v ∷ values) row =
    printed print columns values (insert (to_lower column) (print v) row)

module _ {F : Type 0} ⦃fl : Floats F⦄ (print : Value F → Text) where
  -- The loop of `scrapeMetric`: a row that cannot be scanned ends it, one that cannot be parsed does
  -- not.
  unfoldable pub scrape_rows :
      MetricConfig → List Text → List (Option (List (Value F))) → List (Push F)
  unfolding parse_row printed
  scrape_rows conf columns [] = []
  scrape_rows conf columns (none ∷ rows) = []
  scrape_rows conf columns (some values ∷ rows) =
      (parse_row conf (printed print columns values [])).1 ++ scrape_rows conf columns rows

  -- `scrapeMetric`: what the goroutine pushes.
  unfoldable pub scrape_metric : MetricConfig → Option (Answer F) → List (Push F)
  unfolding scrape_rows
  scrape_metric conf none = []
  scrape_metric conf (some answer) = elim answer.columns [
    | none ↦ []
    | some columns ↦ scrape_rows conf columns answer.rows
  ]
