-- ===== src/Postgresql/Gather.antt =====
-- `Gather` of the handler of PostgreSQL.
use kubemonitor.Common.{
  Bool, true, false, ◌&&◌, Option, none, some, List, [], ◌∷◌, ◌++◌, map, ◌==◌, if◌then◌else◌,
  length, Text, codes, join,
}
use kubemonitor.Common.Int.{ℤ, pos}
use kubemonitor.Value.{Floats, Value, int}
use kubemonitor.Sample.{SampleList, push_sample}
use kubemonitor.Writer.{Outcome, ok, failed}
use kubemonitor.Gathering.{Push, perform_push}
use kubemonitor.Postgresql.{Instance, MetricConfig, input_name}
use kubemonitor.Postgresql.Address.{Urls, sanitized_address}
use kubemonitor.Postgresql.Rows.{Answer, acc_answer, next_row, scrape_metric}

-- The server: whether it can be opened, its answers, those within a timeout, and `fmt.Sprint` of
-- its values.
pub record Db (F : Type 0) : Type 0 where
  pub opens : Text → Bool
  pub query : Text → Option (Answer F)
  pub query_within : ℤ → Text → Option (Answer F)
  pub print : Value F → Text

-- `fmt.Sprintf` with the names joined by `','`.
abbrev names_sql : Text → List Text → Text
names_sql expr names =
    codes "SELECT * FROM pg_stat_database WHERE datname "
    ++ expr
    ++ codes " ('"
    ++ join names (codes "','")
    ++ codes "')"

unfoldable pub databases_sql : Instance → Text
databases_sql ins =
    if (length ins.databases == 0) && (length ins.ignored_databases == 0)
    then codes "SELECT * FROM pg_stat_database"
    else if length ins.ignored_databases == 0
    then names_sql (codes "IN") ins.databases
    else names_sql (codes "NOT IN") ins.ignored_databases

-- The pushes of goroutines, in an order.
unfoldable pub perform_all : {F : Type 0} → List (Push F) → SampleList F → SampleList F
unfolding perform_push
perform_all [] slist = slist
perform_all (push ∷ pushes) slist = perform_all pushes (perform_push push slist)

module _ {F : Type 0} where
  -- The sample `up`: an address that cannot be parsed is labelled by the empty text.
  unfoldable pub push_up : Bool → Option Text → SampleList F → SampleList F
  push_up up address slist =
      push_sample input_name (codes "up") (int (if up then pos 1 else pos 0))
        (((codes "server", elim address [ some a ↦ a | none ↦ [] ]) ∷ []) ∷ []) slist

module _ {F : Type 0} ⦃fl : Floats F⦄ (urls : Urls) (db : Db F) where
  -- The goroutines of the configured queries, each with what it pushes.
  unfoldable pub goroutines : Instance → List (List (Push F))
  unfolding scrape_metric
  goroutines ins =
      map (λ (m : MetricConfig). scrape_metric db.print m (db.query_within m.timeout m.request))
        ins.metrics

  -- `Gather` behind `Open`: `pushes` are those of the goroutines, in the order of their run.
  unfoldable pub gather_opened :
      Instance → Option Text → List (Push F) → SampleList F → Outcome × SampleList F
  unfolding acc_answer next_row databases_sql perform_all
  gather_opened ins address pushes slist =
      next_row (acc_answer address (db.query (databases_sql ins)) slist) (λ l.
        next_row (acc_answer address (db.query (codes "SELECT * FROM pg_stat_bgwriter")) l)
          (λ l'. (ok, perform_all pushes l')))

  unfoldable pub gather : Instance → List (Push F) → SampleList F → Outcome × SampleList F
  unfolding gather_opened push_up sanitized_address
  gather ins pushes slist =
      let address = sanitized_address urls ins in
      if db.opens ins.conn_config
      then gather_opened ins address pushes (push_up true address slist)
      else (failed, push_up false address slist)
