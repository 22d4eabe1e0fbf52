-- ===== src/Elastic/Setup.antt =====
-- What `Init` leaves, and the servers that may gather the statistics of the cluster.
use kubemonitor.Common.{
  ◌≡◌, inl, inr, refl, Bool, true, false, not, ◌&&◌, ◌||◌, some, [], ◌∷◌, arith, ◌==◌,
  if◌then◌else◌, suc_test, Option-cases, length, Text, codes, lookup,
}
use kubemonitor.Common.Int.{pos, ltb_ℤ}
use kubemonitor.Value.{Floats}
use kubemonitor.Filter.{Glob}
use kubemonitor.Factory.Slices.{parse_slice_some}
use kubemonitor.Factory.{ConfigMap, parse_slice, parse_bool_key, get}
use kubemonitor.Elastic.{
  node_stats_url, Instance, ServerInfo, is_master, configured, init, compile_index_matchers,
}
use kubemonitor.Elastic.Requests.{Server, gather_json_data, get_body, get_request}
use kubemonitor.Elastic.Stats.{gather_node_stats, gather_cluster_health}
use kubemonitor.Elastic.Gather.{needs_info, may_gather, health_url, gather_server}

some_slice : (config : ConfigMap) (key : Text) → length (parse_slice config key) == 0 ≡ false
some_slice config key =
    let (first, rest, e) = parse_slice_some config key in rw (e, suc_test (length rest))

abbrev pub IsReady : Instance → Type 0
IsReady ins =
    (length ins.indices_include == 0 ≡ false)
    × (needs_info ins ≡ true)
    × (length ins.cluster_health_level == 0 ≡ false)
    × (ltb_ℤ (pos 0) ins.http_timeout ≡ true)

configured-IsReady :
    {F : Type 0} (fl : Floats F) (config : ConfigMap) (ins : Instance)
    → IsReady (configured fl config ins)
unfolding configured
configured-IsReady fl config ins = (
  some_slice config (codes "indices_include"),
  asks (parse_bool_key config (codes "cluster_stats")) _ _
      (some_slice config (codes "indices_include")),
  level_some (get config (codes "cluster_health_level")),
  ground arith,
)
  where
    asks : (x c b : Bool) → b ≡ false → (x || not b || c) ≡ true
    asks x c b h = ground arith

    level_some :
        (level : Text) → length (if length level == 0 then codes "indices" else level) == 0 ≡ false
    level_some [] = refl
    level_some (c ∷ level) = ground arith

-- Whatever the configuration, and also where it names no index, `Init` leaves at least one name of
-- an index, the empty one if none is configured. So every `Gather` runs its first round and asks
-- for the statistics of indices. A health level and a positive timeout are there as well.
init-IsReady :
    {F : Type 0} (fl : Floats F) (glob : Glob) (config : ConfigMap) (ins : Instance)
    → IsReady (init fl glob config ins).1
unfolding init
init-IsReady fl glob config ins =
    elim (Option-cases (compile_index_matchers glob (configured fl config ins))) [
      | inl e ↦ rw (e, init) (configured-IsReady fl config ins)
      | inr (matchers, e) ↦ rw (e, init) (configured-IsReady fl config ins)
    ]

module _ {B F : Type 0} (server : Server B F) where
  denied :
      (ins : Instance) (s : Text) (info : ServerInfo)
      → ins.local ≡ true
      → lookup s ins.server_info ≡ some info
      → is_master info ≡ false
      → may_gather ins s ≡ false
  unfolding may_gather
  denied ins s info local known other = rw (known, other, local)

  and_false : (b : Bool) → (b && false) ≡ false
  and_false b = ground arith

  -- A server that is known not to be the master gathers, if the configuration is local, what its
  -- node says and the health of the cluster only.
  gather_server-not_master :
      (ins : Instance) (s : Text) (info : ServerInfo)
      → ins.local ≡ true
      → lookup s ins.server_info ≡ some info
      → is_master info ≡ false
      → gather_server server ins s
        ≡ gather_server server (record ins { cluster_stats = false; indices_include = [] }) s
  unfolding gather_server gather_node_stats gather_cluster_health gather_json_data get_body
      get_request node_stats_url health_url
  gather_server-not_master ins s info local known other =
      rw (denied ins s info local known other, and_false ins.cluster_stats) (rw and_false)
