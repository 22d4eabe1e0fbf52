-- ===== src/Mysql/Innodb.antt =====
-- internal/handlers/mysql/engine_innodb.go and engine_innodb_compute.go: the status of InnoDB, and
-- what is computed from the cache.
use kubemonitor.Common.{
  ◌&&◌, Option, none, some, List, [], ◌∷◌, ◌++◌, ◌==◌, leb, if◌then◌else◌, drop, length, Text,
  codes, has_prefix, split, Map, lookup,
}
use kubemonitor.Common.Int.{pos}
use kubemonitor.Value.{Floats, float64}
use kubemonitor.Sample.{SampleList, copy}
use kubemonitor.Mysql.Config.{Instance}
use kubemonitor.Mysql.Rows.{Rows, Db, push_plain}

abbrev pub sql_engine_innodb_status : Text
sql_engine_innodb_status = codes "SHOW /*!50000 ENGINE*/ INNODB STATUS"

-- The digits at the front, and what stands behind them.
unfoldable pub span_digits : Text → Text × Text
span_digits [] = ([], [])
span_digits (c ∷ s) =
    let (digits, rest) = span_digits s in
    if leb b'0' c && leb c b'9' then (c ∷ digits, rest) else ([], c ∷ s)

-- `(\d+)`: at least one.
unfoldable pub take_digits : Text → Option (Text × Text)
unfolding span_digits
take_digits s =
    let (digits, rest) = span_digits s in if length digits == 0 then none else some (digits, rest)

-- The first place at which a pattern matches.
unfoldable pub find_match {ℓ} : {A : Type ℓ} → (Text → Option A) → Text → Option A
find_match pattern [] = pattern []
find_match pattern (c ∷ s) = elim (pattern (c ∷ s)) [
  | some m ↦ some m
  | none ↦ find_match pattern s
]

-- The digits at the front, if the literal stands behind them; and what follows it.
unfoldable pub number_before : Text → Text → Option (Text × Text)
unfolding take_digits has_prefix
number_before literal s = elim (take_digits s) [
  | none ↦ none
  | some (digits, rest) ↦
      if has_prefix rest literal then some (digits, drop (length literal) rest) else none
]

-- `rQueries` and `rViews`, at the front.
unfoldable pub queries_at : Text → Option (Text × Text)
unfolding number_before
queries_at s = elim (number_before (codes " queries inside InnoDB, ") s) [
  | none ↦ none
  | some (inside, rest) ↦ elim (number_before (codes " queries in queue") rest) [
    | none ↦ none
    | some (queued, behind) ↦ some (inside, queued)
  ]
]

unfoldable pub views_at : Text → Option Text
unfolding number_before
views_at s = elim (number_before (codes " read views open inside InnoDB") s) [
  | none ↦ none
  | some (views, behind) ↦ some views
]

module _ {F : Type 0} ⦃fl : Floats F⦄ where
  -- A number that does not parse is not pushed, and neither is what the line has behind it.
  unfoldable pub push_queries : Text × Text → Map Text → SampleList F → SampleList F
  push_queries (inside, queued) tags slist = elim (fl.parse_float inside) [
    | none ↦ slist
    | some i ↦
        let pushed =
          push_plain (codes "engine_innodb_queries_inside_innodb") (float64 i) tags slist in
        elim (fl.parse_float queued) [
          | none ↦ pushed
          | some q ↦ push_plain (codes "engine_innodb_queries_in_queue") (float64 q) tags pushed
        ]
  ]

  unfoldable pub push_views : Text → Map Text → SampleList F → SampleList F
  push_views views tags slist = elim (fl.parse_float views) [
    | none ↦ slist
    | some v ↦
        push_plain (codes "engine_innodb_read_views_open_inside_innodb") (float64 v) tags slist
  ]

  unfoldable pub innodb_line : Text → Map Text → SampleList F → SampleList F
  unfolding push_queries push_views queries_at views_at find_match
  innodb_line line tags slist = elim (find_match queries_at line) [
    | some m ↦ push_queries m tags slist
    | none ↦ elim (find_match views_at line) [ some m ↦ push_views m tags slist | none ↦ slist ]
  ]

  unfoldable pub innodb_lines : List Text → Map Text → SampleList F → SampleList F
  unfolding innodb_line
  innodb_lines [] tags slist = slist
  innodb_lines (line ∷ lines) tags slist = innodb_lines lines tags (innodb_line line tags slist)

  -- The first row has the status; without a row it is empty.
  unfoldable pub innodb_status : Rows (Text × Text × Text) → Map Text → SampleList F → SampleList F
  unfolding innodb_lines split
  innodb_status none tags slist = slist
  innodb_status (some []) tags slist = innodb_lines (split [] 10) tags slist
  innodb_status (some (none ∷ rows)) tags slist = slist
  innodb_status (some (some (type, name, status) ∷ rows)) tags slist =
      innodb_lines (split status 10) tags slist

  unfoldable pub gather_engine_innodb_status :
      Instance → Db → Map Text → SampleList F → SampleList F
  unfolding innodb_status
  gather_engine_innodb_status ins db tags slist =
      if ins.disable_innodb_status
      then slist
      else innodb_status (db.triple sql_engine_innodb_status) (copy tags) slist

  -- `cache[key]`: 0 where it is not there.
  unfoldable pub cached : Map F → Text → F
  cached cache key = elim (lookup key cache) [ some v ↦ v | none ↦ fl.of_int (pos 0) ]

  -- The pages of the buffer pool, in pages and in bytes.
  unfoldable pub pages : Map F → Text → F
  unfolding cached
  pages cache state = cached cache (codes "innodb_buffer_pool_pages_" ++ state)

  unfoldable pub pages_used : Map F → F
  unfolding pages
  pages_used cache = fl.sub (pages cache (codes "total")) (pages cache (codes "free"))

  unfoldable pub page_bytes : Map F → F → F
  unfolding cached
  page_bytes cache n = fl.mul n (cached cache (codes "innodb_page_size"))

  unfoldable pub page_util : Map F → F
  unfolding pages pages_used
  page_util cache =
      if fl.is_zero (pages cache (codes "total"))
      then fl.of_int (pos 0)
      else fl.mul (fl.div (pages_used cache) (pages cache (codes "total"))) (fl.of_int (pos 100))

  unfoldable pub push_pool : Text → F → Map Text → SampleList F → SampleList F
  push_pool name value tags slist =
      push_plain (codes "global_status_buffer_pool_" ++ name) (float64 value) tags slist

  unfoldable pub push_pools : Map F → Map Text → SampleList F → SampleList F
  unfolding pages pages_used page_bytes page_util push_pool
  push_pools cache tags slist = push_pool (codes "pages_utilization") (page_util cache) tags (
      push_pool (codes "bytes_dirty") (page_bytes cache (pages cache (codes "dirty"))) tags (
        push_pool (codes "bytes_total") (page_bytes cache (pages cache (codes "total"))) tags (
          push_pool (codes "bytes_free") (page_bytes cache (pages cache (codes "free"))) tags (
            push_pool (codes "bytes_data") (page_bytes cache (pages cache (codes "data"))) tags
              (push_pool (codes "bytes_used") (page_bytes cache (pages_used cache)) tags slist)))))

  unfoldable pub gather_engine_innodb_status_compute :
      Instance → Map Text → Map F → SampleList F → SampleList F
  unfolding push_pools
  gather_engine_innodb_status_compute ins tags cache slist =
      if ins.disable_extra_innodb_status
      then slist
      else (let pushed = push_pools cache (copy tags) slist in
          if ins.extra_innodb_metrics
          then push_pool (codes "pages_used") (pages_used cache) (copy tags) pushed
          else pushed)
