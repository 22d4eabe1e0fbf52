-- ===== src/Elastic/Labelled.antt =====
-- What each part of an answer pushes carries the address of its server.
use kubemonitor.Common.{
  ◌≡◌, inl, inr, refl, ◌∙◌, true, false, Option, none, some, List, [], ◌∷◌, ◌++◌, map, ◌==◌,
  Bool-cases, length, All, Text, codes, text_eq, has_prefix, Map, lookup, Distinct,
}
use kubemonitor.Value.{Value}
use kubemonitor.Sample.{Sample, new_sample}
use kubemonitor.Sample.Names.{last_of, new_sample-labels}
use kubemonitor.Writer.{Outcome, ok, failed, panicked}
use kubemonitor.Jsonx.{
  Json, object, array, number, str, boolean, null, unexpected, full_flatten_json, flatten_json,
}
use kubemonitor.Gathering.{
  sample_pushed, push_flattened, pushed_samples, AllPushed, then_do-AllPushed, for_each-AllPushed,
  map-AllPushed, cons-AllPushed, push_flattened-AllPushed, samples_pushed-All,
}
use kubemonitor.Filter.{Filter}
use kubemonitor.Elastic.{Instance, NodeStat, IndexStat, ClusterHealth, input_name}
use kubemonitor.Elastic.Stats.{
  address_tag, gather_node_part, gather_node, health_pushes, gather_cluster_part, node_parts,
  cluster_fields, index_fields, cluster_push, index_push,
}
use kubemonitor.Elastic.Selection.{categorize_indices, tracked}
use kubemonitor.Elastic.Indices.{
  push_index_stats, push_shard, gather_shards, gather_single_index_stats, gather_tracked,
  gather_individual_indices_stats, shard_tags, shard_fields,
}

-- A prefix of the handler's metrics.
abbrev IsNamed : Text → Type 0
IsNamed prefix =
    (length prefix == 0 ≡ false)
    × ((rest : Text) → has_prefix (prefix ++ rest) (codes "elasticsearch") ≡ true)

input-IsNamed : IsNamed input_name
unfolding has_prefix
input-IsNamed = (refl, λ rest. refl)

shards-IsNamed : IsNamed (codes "elasticsearch_indices_stats_shards")
unfolding has_prefix
shards-IsNamed = (refl, λ rest. refl)

pub total-IsNamed : IsNamed (codes "elasticsearch_indices_stats_shards_total")
unfolding has_prefix
total-IsNamed = (refl, λ rest. refl)

module _ {F : Type 0} where
  -- A sample of the handler, labelled with the server.
  abbrev pub IsOf : Text → Sample F → Type 0
  IsOf address s =
      (has_prefix s.metric (codes "elasticsearch") ≡ true)
      × (lookup (codes "address") s.labels ≡ some address)

  -- With the address of the server in the last of the maps that has one.
  labelled :
      (address prefix metric : Text) (v : Value F) (labels : List (Map Text))
      → IsNamed prefix
      → All Distinct labels
      → last_of labels (codes "address") ≡ some address
      → IsOf address (new_sample prefix metric v labels)
  unfolding new_sample
  labelled address prefix metric v labels named d h = (
    rw (named.0, new_sample) (named.1 _),
    (new_sample-labels prefix metric v labels d).1 (codes "address") ∙ h,
  )

  -- Behind other tags.
  tagged :
      (address prefix metric : Text) (v : Value F) (tags : Map Text)
      → IsNamed prefix
      → Distinct tags
      → IsOf address (new_sample prefix metric v (tags ∷ address_tag address ∷ []))
  unfolding lookup text_eq
  tagged address prefix metric v tags named d =
      labelled address prefix metric v (tags ∷ address_tag address ∷ []) named (d, ((refl, tt), tt))
        refl

  -- With the address alone.
  pub alone :
      (address prefix metric : Text) (v : Value F)
      → IsNamed prefix
      → IsOf address (new_sample prefix metric v (address_tag address ∷ []))
  unfolding lookup text_eq
  alone address prefix metric v named =
      labelled address prefix metric v (address_tag address ∷ []) named ((refl, tt), tt) refl

  flat-IsOf :
      (address : Text) (tags : Map Text) (p : Text) (s : Json F)
      → Distinct tags
      → AllPushed (IsOf address) (
          push_flattened
            (λ f. sample_pushed input_name (p ++ b'_' ∷ f.0) f.1 (tags ∷ address_tag address ∷ []))
            (flatten_json [] s []))
  flat-IsOf address tags p s d =
      push_flattened-AllPushed (IsOf address) _ (flatten_json [] s [])
        (λ f. (tagged address input_name (p ++ b'_' ∷ f.0) f.1 tags input-IsNamed d, tt))

  node_part-IsOf :
      (address : Text) (tags : Map Text) (part : Text × Json F)
      → Distinct tags
      → AllPushed (IsOf address) (gather_node_part tags (address_tag address) part)
  unfolding gather_node_part
  node_part-IsOf address tags (p, null) d = tt
  node_part-IsOf address tags (p, object ms) d = flat-IsOf address tags p (object ms) d
  node_part-IsOf address tags (p, array xs) d = flat-IsOf address tags p (array xs) d
  node_part-IsOf address tags (p, number x) d = flat-IsOf address tags p (number x) d
  node_part-IsOf address tags (p, str x) d = flat-IsOf address tags p (str x) d
  node_part-IsOf address tags (p, boolean x) d = flat-IsOf address tags p (boolean x) d
  node_part-IsOf address tags (p, unexpected) d = flat-IsOf address tags p unexpected d

  pub node-IsOf :
      (address cluster_name : Text) (n : Text × Option (NodeStat F))
      → AllPushed (IsOf address) (gather_node cluster_name (address_tag address) n)
  unfolding gather_node lookup text_eq
  node-IsOf address cluster_name (id, none) = tt
  node-IsOf address cluster_name (id, some n) =
      then_do-AllPushed (IsOf address) _ _
        (map-AllPushed (IsOf address) _ n.attributes (λ a. (
          tagged address input_name (codes "node_attribute_" ++ a.0) (Value.text a.1) _
              input-IsNamed (refl, (refl, (refl, (refl, tt)))),
          tt,
        )))
        (for_each-AllPushed (IsOf address) _ (node_parts n)
          (λ part. node_part-IsOf address _ part (refl, (refl, (refl, (refl, tt))))))

  pub health-IsOf :
      (address : Text) (h : ClusterHealth F)
      → All (IsOf address) (pushed_samples (health_pushes address h))
  unfolding health_pushes lookup text_eq
  health-IsOf address h =
      cons-AllPushed (IsOf address) (cluster_push address h) (map (index_push address h) h.indices)
        (samples_pushed-All (IsOf address) input_name (cluster_fields h) _ (λ k v.
          tagged address input_name k v ((codes "cluster_name", h.cluster_name) ∷ []) input-IsNamed
            (refl, tt)))
        (map-AllPushed (IsOf address) (index_push address h) h.indices (λ i.
          samples_pushed-All (IsOf address) input_name (index_fields i.1) _ (λ k v.
            tagged address input_name k v
              ((codes "index", i.0) ∷ (codes "name", h.cluster_name) ∷ []) input-IsNamed
              (refl, (refl, tt)))))

  pub cluster_part-IsOf :
      (address name : Text) (part : Text × Json F)
      → AllPushed (IsOf address) (
          gather_cluster_part ((codes "cluster_name", name) ∷ (codes "address", address) ∷ []) part)
  unfolding gather_cluster_part lookup text_eq
  cluster_part-IsOf address name (p, s) =
      push_flattened-AllPushed (IsOf address) _ (full_flatten_json [] s false true []) (λ f. (
        labelled address input_name _ f.1
            (((codes "cluster_name", name) ∷ (codes "address", address) ∷ []) ∷ []) input-IsNamed
            ((refl, (refl, tt)), tt) refl,
        tt,
      ))

  shard_tags-Distinct :
      (name shard_number : Text) (fields : Map (Value F))
      → Distinct (shard_tags name shard_number fields)
  unfolding shard_tags lookup text_eq
  shard_tags-Distinct name shard_number fields = (refl, (refl, (refl, (refl, tt))))

  shard-IsOf :
      (address name shard_number : Text) (r : Outcome × Map (Value F))
      → AllPushed (IsOf address) (push_shard name shard_number (address_tag address) r)
  unfolding push_shard
  shard-IsOf address name shard_number (ok, fields) =
      samples_pushed-All (IsOf address) (codes "elasticsearch_indices_stats_shards")
        (shard_fields fields) (shard_tags name shard_number fields ∷ address_tag address ∷ [])
        (λ k v.
          tagged address _ k v _ shards-IsNamed (shard_tags-Distinct name shard_number fields))
  shard-IsOf address name shard_number (failed, fields) = tt
  shard-IsOf address name shard_number (panicked, fields) = tt

  pub index_stats-IsOf :
      (address m name : Text) (f : Text × Value F)
      → All (IsOf address) (
          pushed_samples (
            push_index_stats m (((codes "index_name", name) ∷ []) ∷ address_tag address ∷ []) f
            ∷ []))
  unfolding lookup
  index_stats-IsOf address m name f = (
    tagged address input_name _ f.1 ((codes "index_name", name) ∷ []) input-IsNamed (refl, tt),
    tt,
  )

  single_index-IsOf :
      (address : Text) (ins : Instance) (name : Text) (index : IndexStat F)
      → AllPushed (IsOf address) (gather_single_index_stats ins name index (address_tag address))
  unfolding gather_single_index_stats gather_shards
  single_index-IsOf address ins name index =
      then_do-AllPushed (IsOf address) _ _
        (for_each-AllPushed (IsOf address) _ _ (λ s.
          push_flattened-AllPushed (IsOf address) _ (full_flatten_json [] s.1 true true [])
            (index_stats-IsOf address s.0 name)))
        (elim (Bool-cases (text_eq ins.indices_level (codes "shards"))) [
          | inl shards ↦ rw shards (
              for_each-AllPushed (IsOf address) _ index.shards (λ s.
                for_each-AllPushed (IsOf address) _ s.1 (λ shard. shard-IsOf address name s.0 _)))
          | inr other ↦ rw other tt
        ])

  tracked-IsOf :
      (address : Text) (ins : Instance) (indices : Map (IndexStat F)) (name : Option Text)
      → AllPushed (IsOf address) (gather_tracked ins indices (address_tag address) name)
  unfolding gather_tracked
  tracked-IsOf address ins indices none = tt
  tracked-IsOf address ins indices (some name) = single_index-IsOf address ins name _

  pub individual-IsOf :
      (address : Text) (ins : Instance) (range : Text → Map Filter → Map Filter)
      (indices : Map (IndexStat F))
      → AllPushed
          (IsOf address)
          (gather_individual_indices_stats ins range indices (address_tag address))
  unfolding gather_individual_indices_stats
  individual-IsOf address ins range indices =
      for_each-AllPushed (IsOf address) _ (categorize_indices ins range indices) (λ bucket.
        for_each-AllPushed (IsOf address) (gather_tracked ins indices (address_tag address))
          (tracked ins.num_most_recent_indices bucket.1) (tracked-IsOf address ins indices))
