-- ===== src/Elastic/Stats.antt =====
-- The statistics of nodes and clusters, and the health of a cluster.
use kubemonitor.Common.{
  true, false, Option, none, some, List, [], ◌∷◌, ◌++◌, if◌then◌else◌, Text, codes, text_eq,
  to_lower, Map, map,
}
use kubemonitor.Common.Int.{ℤ, pos}
use kubemonitor.Value.{Value, float64, int}
use kubemonitor.Writer.{ok, failed, panicked}
use kubemonitor.Jsonx.{Json, null, flatten_json, full_flatten_json}
use kubemonitor.Gathering.{
  Push, Gathered, sample_pushed, samples_pushed, then_do, for_each, push_flattened,
}
use kubemonitor.Elastic.{Instance, NodeStat, IndexHealth, ClusterHealth, input_name}
use kubemonitor.Elastic.Requests.{Server, gather_json_data}

unfoldable pub map_health_status_to_code : Text → ℤ
unfolding to_lower
map_health_status_to_code s =
    let t = to_lower s in
    if text_eq t (codes "green")
    then pos 1
    else if text_eq t (codes "yellow")
    then pos 2
    else if text_eq t (codes "red")
    then pos 3
    else pos 0

abbrev pub address_tag : Text → Map Text
address_tag address = (codes "address", address) ∷ []

module _ {F : Type 0} where
  -- `stats` of a node, in the order of the literal.
  abbrev pub node_parts : NodeStat F → Map (Json F)
  node_parts n =
      (codes "indices", n.indices)
      ∷ (codes "os", n.os)
      ∷ (codes "process", n.process)
      ∷ (codes "jvm", n.jvm)
      ∷ (codes "thread_pool", n.thread_pool)
      ∷ (codes "fs", n.fs)
      ∷ (codes "transport", n.transport)
      ∷ (codes "http", n.http)
      ∷ (codes "breakers", n.breakers)
      ∷ []

  -- A part that the answer does not have is skipped.
  unfoldable pub gather_node_part : Map Text → Map Text → Text × Json F → Gathered F
  unfolding push_flattened
  gather_node_part tags addr_tag (p, null) = (ok, [])
  gather_node_part tags addr_tag (p, s) =
      push_flattened (λ f. sample_pushed input_name (p ++ b'_' ∷ f.0) f.1 (tags ∷ addr_tag ∷ []))
        (flatten_json [] s [])

  -- A nil node panics.
  unfoldable pub gather_node : Text → Map Text → Text × Option (NodeStat F) → Gathered F
  unfolding gather_node_part
  gather_node cluster_name addr_tag (id, none) = (panicked, [])
  gather_node cluster_name addr_tag (id, some n) =
      let tags =
        (codes "node_id", id)
        ∷ (codes "node_host", n.host)
        ∷ (codes "node_name", n.name)
        ∷ (codes "cluster_name", cluster_name)
        ∷ [] in
      then_do
        (
          ok,
          map
              (λ (a : Text × Text).
                sample_pushed input_name (codes "node_attribute_" ++ a.0) (Value.text a.1)
                  (tags ∷ addr_tag ∷ []))
              n.attributes,
        )
        (for_each (gather_node_part tags addr_tag) (node_parts n))

  abbrev pub cluster_fields : ClusterHealth F → Map (Value F)
  cluster_fields h =
      (codes "cluster_health_active_primary_shards", int h.active_primary_shards)
      ∷ (codes "cluster_health_active_shards", int h.active_shards)
      ∷ (
        codes "cluster_health_active_shards_percent_as_number",
        float64 h.active_shards_percent_as_number,
      )
      ∷ (codes "cluster_health_delayed_unassigned_shards", int h.delayed_unassigned_shards)
      ∷ (codes "cluster_health_initializing_shards", int h.initializing_shards)
      ∷ (codes "cluster_health_number_of_data_nodes", int h.number_of_data_nodes)
      ∷ (codes "cluster_health_number_of_in_flight_fetch", int h.number_of_in_flight_fetch)
      ∷ (codes "cluster_health_number_of_nodes", int h.number_of_nodes)
      ∷ (codes "cluster_health_number_of_pending_tasks", int h.number_of_pending_tasks)
      ∷ (codes "cluster_health_relocating_shards", int h.relocating_shards)
      ∷ (codes "cluster_health_status_code", int (map_health_status_to_code h.status))
      ∷ (
        codes "cluster_health_task_max_waiting_in_queue_millis",
        int h.task_max_waiting_in_queue_millis,
      )
      ∷ (codes "cluster_health_timed_out", Value.bool h.timed_out)
      ∷ (codes "cluster_health_unassigned_shards", int h.unassigned_shards)
      ∷ []

  abbrev pub index_fields : IndexHealth → Map (Value F)
  index_fields h =
      (codes "cluster_health_indices_active_primary_shards", int h.active_primary_shards)
      ∷ (codes "cluster_health_indices_active_shards", int h.active_shards)
      ∷ (codes "cluster_health_indices_initializing_shards", int h.initializing_shards)
      ∷ (codes "cluster_health_indices_number_of_replicas", int h.number_of_replicas)
      ∷ (codes "cluster_health_indices_number_of_shards", int h.number_of_shards)
      ∷ (codes "cluster_health_indices_relocating_shards", int h.relocating_shards)
      ∷ (codes "cluster_health_indices_status_code", int (map_health_status_to_code h.status))
      ∷ (codes "cluster_health_indices_unassigned_shards", int h.unassigned_shards)
      ∷ []

  abbrev pub cluster_push : Text → ClusterHealth F → Push F
  cluster_push address h =
      samples_pushed input_name (cluster_fields h)
        (((codes "cluster_name", h.cluster_name) ∷ []) ∷ address_tag address ∷ [])

  abbrev pub index_push : Text → ClusterHealth F → Text × IndexHealth → Push F
  index_push address h i =
      samples_pushed input_name (index_fields i.1)
        (((codes "index", i.0) ∷ (codes "name", h.cluster_name) ∷ []) ∷ address_tag address ∷ [])

  -- The pushes of one decoded answer.
  unfoldable pub health_pushes : Text → ClusterHealth F → List (Push F)
  health_pushes address h = cluster_push address h ∷ map (index_push address h) h.indices

  unfoldable pub gather_cluster_part : Map Text → Text × Json F → Gathered F
  unfolding push_flattened
  gather_cluster_part tags (p, s) =
      push_flattened
        (λ f. sample_pushed input_name (codes "clusterstats_" ++ p ++ b'_' ∷ f.0) f.1 (tags ∷ []))
        (full_flatten_json [] s false true [])

module _ {B F : Type 0} (server : Server B F) where
  unfoldable pub gather_node_stats : Instance → Text → Text → Gathered F
  unfolding gather_node
  gather_node_stats ins url address = elim (gather_json_data server server.decode_nodes ins url) [
    | none ↦ (failed, [])
    | some stats ↦ for_each (gather_node stats.cluster_name (address_tag address)) stats.nodes
  ]

  unfoldable pub gather_cluster_health : Instance → Text → Text → Gathered F
  gather_cluster_health ins url address =
      elim (gather_json_data server server.decode_health ins url) [
        | none ↦ (failed, [])
        | some h ↦ (ok, health_pushes address h)
      ]

  unfoldable pub gather_cluster_stats : Instance → Text → Text → Gathered F
  unfolding gather_cluster_part
  gather_cluster_stats ins url address =
      elim (gather_json_data server server.decode_cluster ins url) [
        | none ↦ (failed, [])
        | some c ↦
            for_each
              (gather_cluster_part
                ((codes "cluster_name", c.cluster_name) ∷ (codes "address", address) ∷ []))
              ((codes "nodes", c.nodes) ∷ (codes "indices", c.indices) ∷ [])
      ]
