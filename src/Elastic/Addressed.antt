-- ===== src/Elastic/Addressed.antt =====
-- Every sample of the second round carries the address of its server.
use kubemonitor.Common.{
  inl, inr, Bool, true, false, not, ◌&&◌, [], ◌∷◌, ◌++◌, ◌==◌, if◌then◌else◌, Option-cases, length,
  All, Text, codes,
}
use kubemonitor.Writer.{ok}
use kubemonitor.Jsonx.{full_flatten_json}
use kubemonitor.Gathering.{
  Gathered, pushed_samples, AllPushed, then_do-AllPushed, for_each-AllPushed,
  push_flattened-AllPushed, samples_pushed-All,
}
use kubemonitor.Elastic.{Instance, node_stats_url}
use kubemonitor.Elastic.Requests.{Server, gather_json_data}
use kubemonitor.Elastic.Stats.{
  address_tag, gather_node, gather_node_stats, gather_cluster_health, gather_cluster_part,
  gather_cluster_stats,
}
use kubemonitor.Elastic.Indices.{gather_indices_stats}
use kubemonitor.Elastic.Gather.{may_gather, health_url, indices_url, gather_server}
use kubemonitor.Elastic.Labelled.{
  IsOf, node-IsOf, health-IsOf, cluster_part-IsOf, index_stats-IsOf, individual-IsOf, total-IsNamed,
  alone,
}

module _ {B F : Type 0} (server : Server B F) where
  node_stats-IsOf :
      (ins : Instance) (url address : Text)
      → AllPushed (IsOf address) (gather_node_stats server ins url address)
  unfolding gather_node_stats
  node_stats-IsOf ins url address =
      elim (Option-cases (gather_json_data server server.decode_nodes ins url)) [
        | inl e ↦ rw (e, gather_node_stats) tt
        | inr (stats, e) ↦
            rw (e, gather_node_stats)
              (for_each-AllPushed (IsOf address)
                (gather_node stats.cluster_name (address_tag address)) stats.nodes
                (node-IsOf address stats.cluster_name))
      ]

  cluster_health-IsOf :
      (ins : Instance) (url address : Text)
      → AllPushed (IsOf address) (gather_cluster_health server ins url address)
  unfolding gather_cluster_health
  cluster_health-IsOf ins url address =
      elim (Option-cases (gather_json_data server server.decode_health ins url)) [
        | inl e ↦ rw (e, gather_cluster_health) tt
        | inr (h, e) ↦ rw (e, gather_cluster_health) (health-IsOf address h)
      ]

  cluster_stats-IsOf :
      (ins : Instance) (url address : Text)
      → AllPushed (IsOf address) (gather_cluster_stats server ins url address)
  unfolding gather_cluster_stats
  cluster_stats-IsOf ins url address =
      elim (Option-cases (gather_json_data server server.decode_cluster ins url)) [
        | inl e ↦ rw (e, gather_cluster_stats) tt
        | inr (c, e) ↦
            rw (e, gather_cluster_stats)
              (for_each-AllPushed (IsOf address) (gather_cluster_part _) _
                (cluster_part-IsOf address c.cluster_name))
      ]

  indices_stats-IsOf :
      (ins : Instance) (url address : Text)
      → AllPushed (IsOf address) (gather_indices_stats server ins url address)
  unfolding gather_indices_stats
  indices_stats-IsOf ins url address =
      elim (Option-cases (gather_json_data server server.decode_indices ins url)) [
        | inl e ↦ rw (e, gather_indices_stats) tt
        | inr (stats, e) ↦
            rw (e, gather_indices_stats)
              (then_do-AllPushed (IsOf address) _ _
                (samples_pushed-All (IsOf address)
                  (codes "elasticsearch_indices_stats_shards_total") stats.shards
                  (address_tag address ∷ []) (λ k v. alone address _ k v total-IsNamed))
                (then_do-AllPushed (IsOf address) _ _
                  (for_each-AllPushed (IsOf address) _ stats.all (λ s.
                    push_flattened-AllPushed (IsOf address) _
                      (full_flatten_json (b'_' ∷ []) s.1 false true [])
                      (index_stats-IsOf address s.0 (codes "_all"))))
                  (individual-IsOf address ins (server.range_matchers address) stats.indices)))
      ]

  if-AllPushed :
      (address : Text) (b : Bool) (g : Gathered F)
      → AllPushed (IsOf address) g
      → AllPushed (IsOf address) (if b then g else (ok, []))
  if-AllPushed address true g h = h
  if-AllPushed address false g h = tt

  -- Whatever the server answers and however the goroutine of a server ends, every sample that it
  -- pushes has a metric that starts with `elasticsearch` and the label `address` of that server.
  pub gather_server-IsOf :
      (ins : Instance) (s : Text) → All (IsOf s) (pushed_samples (gather_server server ins s).1)
  unfolding gather_server
  gather_server-IsOf ins s =
      then_do-AllPushed (IsOf s) _ _ (node_stats-IsOf ins (node_stats_url ins s) s) (
        then_do-AllPushed (IsOf s) _ _
          (if-AllPushed s ins.cluster_health _ (cluster_health-IsOf ins (health_url ins s) s))
          (then_do-AllPushed (IsOf s) _ _
            (if-AllPushed s (ins.cluster_stats && may_gather ins s) _
              (cluster_stats-IsOf ins (s ++ codes "/_cluster/stats") s))
            (if-AllPushed s (not (length ins.indices_include == 0) && may_gather ins s) _
              (indices_stats-IsOf ins (indices_url ins s) s))))
