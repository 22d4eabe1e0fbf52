-- ===== src/Elastic/Indices.antt =====
-- The statistics of indices: what is pushed of an index and of its shards.
use kubemonitor.Common.{
  Bool, true, false, Option, none, some, List, [], ◌∷◌, ◌++◌, map, if◌then◌else◌, Text, codes,
  text_eq, upper_byte, Map, lookup, insert, delete,
}
use kubemonitor.Common.Int.{ℤ, pos}
use kubemonitor.Value.{Value, int}
use kubemonitor.Writer.{Outcome, ok, failed, panicked}
use kubemonitor.Jsonx.{Json, null, full_flatten_json}
use kubemonitor.Gathering.{
  Push, Gathered, sample_pushed, samples_pushed, then_do, for_each, push_flattened,
}
use kubemonitor.Elastic.{Instance, IndexStat, input_name}
use kubemonitor.Elastic.Requests.{Server, gather_json_data}
use kubemonitor.Filter.{Filter}
use kubemonitor.Elastic.Selection.{categorize_indices, tracked}

-- `strings.ToUpper` of ASCII.
unfoldable pub to_upper : Text → Text
unfolding upper_byte
to_upper s = map upper_byte s

unfoldable pub map_shard_status_to_code : Text → ℤ
unfolding to_upper
map_shard_status_to_code s =
    let t = to_upper s in
    if text_eq t (codes "UNASSIGNED")
    then pos 1
    else if text_eq t (codes "INITIALIZING")
    then pos 2
    else if text_eq t (codes "STARTED")
    then pos 3
    else if text_eq t (codes "RELOCATING")
    then pos 4
    else pos 0

module _ {F : Type 0} where
  abbrev pub push_index_stats : Text → List (Map Text) → Text × Value F → Push F
  push_index_stats m tags f =
      sample_pushed input_name (codes "indices_stats_" ++ m ++ b'_' ∷ f.0) f.1 tags

  -- `fields[k].(bool)` and `fields[k].(string)`, or the zero value.
  abbrev pub bool_at : Option (Value F) → Bool
  bool_at (some (Value.bool b)) = b
  bool_at _ = false

  abbrev pub text_at : Option (Value F) → Text
  text_at (some (Value.text s)) = s
  text_at _ = []

  unfoldable pub code_routing_state : Option (Value F) → Map (Value F) → Map (Value F)
  code_routing_state (some (Value.text s)) fields =
      insert (codes "routing_state") (int (map_shard_status_to_code s)) fields
  code_routing_state _ fields = fields

  abbrev pub is_text_or_bool : Value F → Bool
  is_text_or_bool (Value.text s) = true
  is_text_or_bool (Value.bool b) = true
  is_text_or_bool _ = false

  -- The loop that deletes the fields that are strings or bools.
  unfoldable pub delete_text : Map (Value F) → Map (Value F)
  delete_text [] = []
  delete_text ((k, v) ∷ fields) =
      if is_text_or_bool v then delete_text fields else (k, v) ∷ delete_text fields

  -- The fields of a shard that are pushed, and its tags.
  unfoldable pub shard_fields : Map (Value F) → Map (Value F)
  unfolding code_routing_state delete_text
  shard_fields flattened =
      let fields = delete (codes "routing_primary") flattened in
      delete_text (code_routing_state (lookup (codes "routing_state") fields) fields)

  unfoldable pub shard_tags : Text → Text → Map (Value F) → Map Text
  shard_tags name shard_number flattened =
      (codes "index_name", name)
      ∷ (
        codes "node_id",
        text_at (
            lookup (codes "routing_node") (
              code_routing_state
                (lookup (codes "routing_state") (delete (codes "routing_primary") flattened))
                (delete (codes "routing_primary") flattened))),
      )
      ∷ (codes "shard_name", shard_number)
      ∷ (
        codes "type",
        if bool_at (lookup (codes "routing_primary") flattened)
            then codes "primary"
            else codes "replica",
      )
      ∷ []

  -- A push of the flattened fields of a shard, or the error of the flattening.
  unfoldable pub push_shard : Text → Text → Map Text → Outcome × Map (Value F) → Gathered F
  unfolding shard_fields shard_tags
  push_shard name shard_number addr_tag (ok, fields) = (
    ok,
    samples_pushed (codes "elasticsearch_indices_stats_shards") (shard_fields fields)
          (shard_tags name shard_number fields ∷ addr_tag ∷ [])
        ∷ [],
  )
  push_shard name shard_number addr_tag (failed, fields) = (failed, [])
  push_shard name shard_number addr_tag (panicked, fields) = (panicked, [])

  unfoldable pub gather_shards : Text → Map Text → Text × List (Json F) → Gathered F
  unfolding push_shard
  gather_shards name addr_tag (shard_number, shards) =
      for_each
        (λ shard. push_shard name shard_number addr_tag (full_flatten_json [] shard true true []))
        shards

  unfoldable pub gather_single_index_stats : Instance → Text → IndexStat F → Map Text → Gathered F
  unfolding gather_shards
  gather_single_index_stats ins name index addr_tag =
      then_do
        (for_each
          (λ (s : Text × Json F).
            push_flattened
              (push_index_stats s.0 (((codes "index_name", name) ∷ []) ∷ addr_tag ∷ []))
              (full_flatten_json [] s.1 true true []))
          ((codes "primaries", index.primaries) ∷ (codes "total", index.total) ∷ []))
        (if text_eq ins.indices_level (codes "shards")
          then for_each (gather_shards name addr_tag) index.shards
          else (ok, []))

  -- `indices[indexName]`: the zero value where there is none.
  abbrev pub index_at : Option (IndexStat F) → IndexStat F
  index_at (some index) = index
  index_at none = record { primaries = null; total = null; shards = [] }

  unfoldable pub gather_tracked : Instance → Map (IndexStat F) → Map Text → Option Text → Gathered F
  unfolding gather_single_index_stats
  gather_tracked ins indices addr_tag none = (panicked, [])
  gather_tracked ins indices addr_tag (some name) =
      gather_single_index_stats ins name (index_at (lookup name indices)) addr_tag

  unfoldable pub gather_individual_indices_stats :
      Instance → (Text → Map Filter → Map Filter) → Map (IndexStat F) → Map Text → Gathered F
  unfolding gather_tracked tracked
  gather_individual_indices_stats ins range indices addr_tag =
      for_each
        (λ (bucket : Text × List Text).
          for_each (gather_tracked ins indices addr_tag)
            (tracked ins.num_most_recent_indices bucket.1))
        (categorize_indices ins range indices)

  unfoldable pub gather_indices_stats :
      {B : Type 0} → Server B F → Instance → Text → Text → Gathered F
  gather_indices_stats server ins url address =
      elim (gather_json_data server server.decode_indices ins url) [
        | none ↦ (failed, [])
        | some stats ↦
            let addr_tag : Map Text = (codes "address", address) ∷ [] in
            then_do
              (
                ok,
                samples_pushed (codes "elasticsearch_indices_stats_shards_total") stats.shards
                      (addr_tag ∷ [])
                    ∷ [],
              )
              (then_do
                (for_each
                  (λ (s : Text × Json F).
                    push_flattened
                      (push_index_stats s.0
                        (((codes "index_name", codes "_all") ∷ []) ∷ addr_tag ∷ []))
                      (full_flatten_json (b'_' ∷ []) s.1 false true []))
                  stats.all)
                (gather_individual_indices_stats ins (server.range_matchers address) stats.indices
                  addr_tag))
      ]
