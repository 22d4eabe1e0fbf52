-- ===== src/Clickhouse/Rounds.antt =====
-- What a round of the ClickHouse handler does to the list, and the race of the custom queries.
use kubemonitor.Common.{
  ◌≡◌, refl, false, List, [], ◌∷◌, arith, Text, codes, text_eq, text_eq_refl, text_eq_iff, Map,
  insert, insert-insert, All,
}
use kubemonitor.Value.{uint64}
use kubemonitor.Sample.{SampleList}
use kubemonitor.Goroutines.{Interleave, goroutine, left, right, flatten, Merge-append, in_turn}
use kubemonitor.Clickhouse.{Instance, MetricConfig}
use kubemonitor.Clickhouse.Requests.{Net, PartRow, asking}
use kubemonitor.Clickhouse.Rows.{push, push_parts, push_rows}
use kubemonitor.Clickhouse.Custom.{CustomStep, sets, asks, asked, custom_goroutines}

-- A key set again, behind another one.
insert-insert-past :
    {V : Type 0} (k j : Text) (v w x : V) (m : Map V)
    → text_eq k j ≡ false
    → insert k v (insert j w (insert k x m)) ≡ insert j w (insert k v m)
unfolding insert
insert-insert-past k j v w x [] ne = ground (arith, ne, text_eq_refl k)
insert-insert-past k j v w x ((i, u) ∷ m) ne = ground (
  arith,
  insert-insert-past k j v w x m,
  text_eq_iff k j,
  text_eq_iff i k,
  text_eq_iff i j,
  text_eq_iff k i,
  text_eq_iff j i,
  text_eq_iff j k,
  text_eq_refl k,
  text_eq_refl j,
  insert-insert k v x m,
)

module _ {F : Type 0} where
  -- The samples of one part, with tags of its own.
  unfoldable pub push_part : Map Text → PartRow → SampleList F → SampleList F
  push_part default part slist =
      let tags =
        insert (codes "database") part.database (insert (codes "table") part.table default) in
      push (codes "clickhouse_tables") (codes "rows") (uint64 part.rows) tags (
        push (codes "clickhouse_tables") (codes "parts") (uint64 part.parts) tags
          (push (codes "clickhouse_tables") (codes "bytes") (uint64 part.bytes) tags slist))

  push_parts-after :
      (default : Map Text) (last : PartRow) (parts : List PartRow) (slist : SampleList F)
      → push_parts
          (insert (codes "database") last.database (insert (codes "table") last.table default))
          parts
          slist
        ≡ push_rows (push_part default) parts slist
  unfolding push_parts push_rows push_part text_eq
  push_parts-after default last [] slist = refl
  push_parts-after default last (part ∷ parts) slist =
      rw
        (
          insert-insert-past (codes "table") (codes "database") part.table last.database last.table
              default refl,
          insert-insert (codes "database") part.database last.database,
        )
        (push_parts-after default part parts _)

  -- The one map of tags that the loop over the parts shares does not show: the samples are those of
  -- a loop in which each part has tags of its own.
  push_parts-push_part :
      (default : Map Text) (parts : List PartRow) (slist : SampleList F)
      → push_parts default parts slist ≡ push_rows (push_part default) parts slist
  unfolding push_parts push_rows push_part
  push_parts-push_part default [] slist = refl
  push_parts-push_part default (part ∷ parts) slist = push_parts-after default part parts _

-- Steps in which each request directly follows the writing of its query.
pub data IsPaired : List CustomStep → Type 0 where
  no_step : IsPaired []
  pair :
      (m : MetricConfig) {steps : List CustomStep}
      → IsPaired steps
      → IsPaired (sets m ∷ asks m ∷ steps)

module _ {U B F : Type 0} (net : Net U B F) where
  -- The URL that is asked for a metric carries the metric's own query.
  abbrev pub IsOwn : MetricConfig × U → Type 0
  IsOwn (m, u) = (v : U) × (u ≡ asking net m.request v)

  asked-IsOwn : {steps : List CustomStep} (u : U) → IsPaired steps → All IsOwn (asked net steps u)
  unfolding asked
  asked-IsOwn u no_step = tt
  asked-IsOwn u (pair m p) = ((u, refl), asked-IsOwn (asking net m.request u) p)

  -- The custom queries of a connection share its URL. In every list of their steps in which each
  -- request directly follows the writing of its query, each metric asks its own query; but the
  -- goroutines of two metrics, and of any more, may also run so that the request of the first
  -- carries the query of the second, as does the request of the second.
  pub custom_queries_race :
      (ins : Instance) (m n : MetricConfig) (rest : List MetricConfig) (u : U)
      {steps : List CustomStep}
      → IsPaired steps
      → All IsOwn (asked net steps u)
        × (racy : List CustomStep) × Interleave
            (custom_goroutines (record ins { metrics = m ∷ n ∷ rest }))
            racy
        × (others : List (MetricConfig × U)) × (asked net racy u
            ≡ (m, asking net n.request (asking net m.request u))
              ∷ (n, asking net n.request (asking net m.request u))
              ∷ others)
  unfolding asked
  custom_queries_race ins m n rest u paired =
      let others = custom_goroutines (record ins { metrics = rest }) in
      (
        asked-IsOwn u paired,
        sets m ∷ sets n ∷ asks m ∷ asks n ∷ flatten others,
        goroutine (left (right (left (right (Merge-append [] (flatten others))))))
            (goroutine (left (left (Merge-append [] (flatten others)))) (in_turn others)),
        asked net (flatten others) (asking net n.request (asking net m.request u)),
        refl,
      )
