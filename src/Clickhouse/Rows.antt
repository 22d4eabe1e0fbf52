-- ===== src/Clickhouse/Rows.antt =====
-- The samples of the rows that the ClickHouse handler reads.
use kubemonitor.Common.{
  ℕ, List, [], ◌∷◌, ◌==◌, if◌then◌else◌, length, Text, codes, text_eq, Map, insert,
}
use kubemonitor.Value.{Value, uint64, float64}
use kubemonitor.Sample.{SampleList, push_sample}
use kubemonitor.Writer.{Outcome, ok, panicked}
use kubemonitor.Clickhouse.Requests.{
  TriesRow, DictionaryRow, MutationRow, DiskRow, ProcessRow, MessageRow, PartRow,
}

-- How a function ends, with the URL of its connection and the list as it leaves them.
abbrev pub Scraped : Type 0 → Type 0 → Type 0
Scraped U F = Outcome × U × SampleList F

module _ {F : Type 0} where
  abbrev pub push : Text → Text → Value F → Map Text → SampleList F → SampleList F
  push prefix metric value tags slist = push_sample prefix metric value (tags ∷ []) slist

  -- A loop over rows that pushes.
  unfoldable pub push_rows :
      {A : Type 0} → (A → SampleList F → SampleList F) → List A → SampleList F → SampleList F
  push_rows body [] slist = slist
  push_rows body (row ∷ rows) slist = push_rows body rows (body row slist)

  -- `tags` is one map, that the loop over the parts changes; a sample copies it.
  unfoldable pub push_parts : Map Text → List PartRow → SampleList F → SampleList F
  push_parts tags [] slist = slist
  push_parts tags (part ∷ parts) slist =
      let tags' =
        insert (codes "database") part.database (insert (codes "table") part.table tags) in
      push_parts tags' parts (
        push (codes "clickhouse_tables") (codes "rows") (uint64 part.rows) tags' (
          push (codes "clickhouse_tables") (codes "parts") (uint64 part.parts) tags'
            (push (codes "clickhouse_tables") (codes "bytes") (uint64 part.bytes) tags' slist)))

  unfoldable pub push_disk : Map Text → DiskRow → SampleList F → SampleList F
  push_disk default disk slist =
      let tags = insert (codes "path") disk.path (insert (codes "name") disk.name default) in
      push (codes "clickhouse_disks") (codes "keep_free_space_percent")
        (uint64 disk.keep_free_percent) tags
        (push (codes "clickhouse_disks") (codes "free_space_percent") (uint64 disk.free_percent)
          tags slist)

  -- A dictionary without an origin is passed over.
  unfoldable pub push_dictionary : Map Text → DictionaryRow → SampleList F → SampleList F
  push_dictionary default dict slist =
      if length dict.origin == 0
      then slist
      else (let tags = insert (codes "dict_origin") dict.origin default in
          push (codes "clickhouse_dictionaries") (codes "bytes_allocated")
            (uint64 dict.bytes_allocated) tags
            (push (codes "clickhouse_dictionaries") (codes "is_loaded")
              (uint64 (if text_eq dict.status (codes "LOADED") then 1 else 0)) tags slist))

  unfoldable pub push_process : Map Text → ProcessRow F → SampleList F → SampleList F
  push_process default process slist =
      let tags = insert (codes "query_type") process.query_type default in
      push (codes "clickhouse_processes") (codes "longest_running")
        (float64 process.longest_running) tags
        (push (codes "clickhouse_processes") (codes "percentile_90") (float64 process.percentile_90)
          tags
          (push (codes "clickhouse_processes") (codes "percentile_50")
            (float64 process.percentile_50) tags slist))

  unfoldable pub push_message : Map Text → MessageRow → SampleList F → SampleList F
  push_message default item slist =
      push (codes "clickhouse_text_log") (codes "messages_last_10_min")
        (uint64 item.messages_last_10_min) (insert (codes "level") item.level default) slist

  -- The rows of one number, or of a few: only the first one is read. `none` is an index out of
  -- range.
  unfoldable pub push_tries : Map Text → List TriesRow → SampleList F → Outcome × SampleList F
  push_tries tags [] slist = (panicked, slist)
  push_tries tags (row ∷ rows) slist = (
    ok,
    push (codes "clickhouse_replication_queue") (codes "num_tries_replicas")
        (uint64 row.num_tries_replicas) tags
        (push (codes "clickhouse_replication_queue") (codes "too_many_tries_replicas")
          (uint64 row.too_many_tries_replicas) tags slist),
  )

  unfoldable pub push_root_nodes : Map Text → List ℕ → SampleList F → Outcome × SampleList F
  push_root_nodes tags [] slist = (panicked, slist)
  push_root_nodes tags (n ∷ rows) slist =
      (ok, push (codes "clickhouse_zookeeper") (codes "root_nodes") (uint64 n) tags slist)

  unfoldable pub push_detached : Map Text → List ℕ → SampleList F → SampleList F
  push_detached tags [] slist = slist
  push_detached tags (n ∷ rows) slist =
      push (codes "clickhouse_detached_parts") (codes "detached_parts") (uint64 n) tags slist

  unfoldable pub push_mutations : Map Text → List MutationRow → SampleList F → SampleList F
  push_mutations tags [] slist = slist
  push_mutations tags (row ∷ rows) slist =
      push (codes "clickhouse_mutations") (codes "completed") (uint64 row.completed) tags (
        push (codes "clickhouse_mutations") (codes "running") (uint64 row.running) tags
          (push (codes "clickhouse_mutations") (codes "failed") (uint64 row.failed) tags slist))
