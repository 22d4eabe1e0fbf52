-- ===== src/Clickhouse/Custom.antt =====
-- The configured queries: one goroutine for each, all on the URL of one connection.
use kubemonitor.Common.{
  none, some, List, [], ◌∷◌, ◌++◌, map, ◌==◌, if◌then◌else◌, length, Text, Map, insert,
}
use kubemonitor.Value.{Floats, float64}
use kubemonitor.Conv
use kubemonitor.Sample.{SampleList, push_sample}
use kubemonitor.Writer.{Outcome, ok, failed, panicked}
use kubemonitor.Clickhouse.{
  Instance, MetricConfig, Connect, make_default_tags, clean_name, input_name,
}
use kubemonitor.Clickhouse.Requests.{Net, get_body, asking}

module _ {U B F : Type 0} (net : Net U B F) where
  -- The labels of a row; the map is the one of the rows before.
  unfoldable pub set_labels : Text → List Text → Map Text → Map Text
  set_labels item [] tags = tags
  set_labels item (label ∷ labels) tags =
      set_labels item labels (insert label (net.decode.get item label) tags)

  unfoldable pub column_metric : MetricConfig → Text → Text → Text
  column_metric conf item column =
      if length conf.field_to_append == 0
      then conf.mesurement ++ b'_' ∷ column
      else conf.mesurement
        ++ b'_' ∷ clean_name (net.decode.get item conf.field_to_append)
        ++ b'_' ∷ column

  -- The columns of a row: the first that is no number is an error.
  unfoldable pub push_columns :
      ⦃fl : Floats F⦄
      → MetricConfig
      → Text
      → Map Text
      → List Text
      → SampleList F
      → Outcome × SampleList F
  push_columns conf item tags [] slist = (ok, slist)
  push_columns ⦃fl⦄ conf item tags (column ∷ columns) slist =
      elim (Conv.text_to_float64 ⦃fl = fl⦄ (net.decode.get item column)) [
        | none ↦ (failed, slist)
        | some value ↦ push_columns conf item tags columns (
            push_sample input_name (column_metric conf item column) (float64 value) (tags ∷ [])
              slist)
      ]

  unfoldable pub push_items :
      ⦃fl : Floats F⦄ → MetricConfig → Map Text → List Text → SampleList F → Outcome × SampleList F
  unfolding set_labels push_columns
  push_items conf tags [] slist = (ok, slist)
  push_items conf tags (item ∷ items) slist =
      let local_tags = set_labels item conf.label_fields tags in
      let (o, l) = push_columns conf item local_tags conf.metric_fields slist in
      elim o [
        | ok ↦ push_items conf local_tags items l
        | failed ↦ (failed, l)
        | panicked ↦ (panicked, l)
      ]

  -- `execCustomQuery` from `address.String()` on, with the URL as it is then.
  unfoldable pub exec_custom_query :
      ⦃fl : Floats F⦄
      → Instance
      → Connect U
      → U
      → MetricConfig
      → SampleList F
      → Outcome × SampleList F
  unfolding push_items
  exec_custom_query ins conn asked conf slist = elim (get_body net ins asked) [
    | none ↦ (failed, slist)
    | some body ↦ elim (net.decode.raw body) [
      | none ↦ (failed, slist)
      | some items ↦
          let (o, l) = push_items conf (make_default_tags conn) items slist in
          (
            elim o [
              | ok ↦ if net.server.drained body then ok else failed
              | failed ↦ failed
              | panicked ↦ panicked
            ],
            l,
          )
    ]
  ]

-- The steps of one goroutine: it writes its query into the URL, and it makes its request from the
-- URL. What it pushes is kept together with the request.
pub data CustomStep : Type 0 where
  sets asks : MetricConfig → CustomStep

-- The goroutines of a round.
abbrev pub custom_goroutines : Instance → List (List CustomStep)
custom_goroutines ins = map (λ conf. sets conf ∷ asks conf ∷ []) ins.metrics

module _ {U B F : Type 0} (net : Net U B F) where
  -- The URL behind a step.
  unfoldable pub url_after : CustomStep → U → U
  url_after (sets conf) u = asking net conf.request u
  url_after (asks conf) u = u

  -- The requests of the steps: the metric, and the URL that is asked for it.
  unfoldable pub asked : List CustomStep → U → List (MetricConfig × U)
  unfolding url_after
  asked [] u = []
  asked (sets conf ∷ steps) u = asked steps (asking net conf.request u)
  asked (asks conf ∷ steps) u = (conf, u) ∷ asked steps u

  -- The errors are not looked at.
  unfoldable pub run_custom :
      ⦃fl : Floats F⦄ → Instance → Connect U → List (MetricConfig × U) → SampleList F → SampleList F
  unfolding exec_custom_query
  run_custom ins conn [] slist = slist
  run_custom ins conn ((conf, u) ∷ requests) slist =
      run_custom ins conn requests (exec_custom_query net ins conn u conf slist).1
