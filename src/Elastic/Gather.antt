-- ===== src/Elastic/Gather.antt =====
-- `Gather`: one goroutine for each server, twice. A goroutine is the list of its actions; a `Trace`
-- is the order in which the goroutines of a round act, with the moment at which `Gather` looks
-- whether an error was sent.
use kubemonitor.Common.{
  ℕ, suc, ltb, Bool, true, false, ◌||◌, ◌&&◌, not, Option, none, some, List, [], ◌∷◌, ◌++◌, map,
  any, length, ◌==◌, if◌then◌else◌, Text, codes, text_eq, Map, lookup, insert, join,
}
use kubemonitor.Common.Int.{pos}
use kubemonitor.Value.{int}
use kubemonitor.Sample.{SampleList}
use kubemonitor.Writer.{Outcome, ok, failed, panicked}
use kubemonitor.Gathering.{Push, Gathered, sample_pushed, perform_push, then_do}
use kubemonitor.Goroutines.{Interleave}
use kubemonitor.Elastic.{Instance, ServerInfo, is_master, input_name, node_stats_url}
use kubemonitor.Elastic.Requests.{Server, gather_node_id, get_cat_master}
use kubemonitor.Elastic.Stats.{
  address_tag, gather_node_stats, gather_cluster_health, gather_cluster_stats,
}
use kubemonitor.Elastic.Indices.{gather_indices_stats}

-- What the other goroutines can see of one: a push, an entry of `serverInfo`, an error sent, and a
-- panic, which ends the program.
pub data Action (F : Type 0) : Type 0 where
  pushes : Push F → Action F
  set_info : Text → ServerInfo → Action F
  sends : Action F
  crashes : Action F

module _ {F : Type 0} where
  -- `up` of a server.
  abbrev pub push_up : ℕ → Text → Action F
  push_up n s = pushes (sample_pushed input_name (codes "up") (int (pos n)) (address_tag s ∷ []))

  unfoldable pub actions_of : Gathered F → List (Action F)
  actions_of (ok, ps) = map (λ p. pushes p) ps
  actions_of (failed, ps) = map (λ p. pushes p) ps ++ sends ∷ []
  actions_of (panicked, ps) = map (λ p. pushes p) ps ++ crashes ∷ []

  abbrev pub is_send : Action F → Bool
  is_send sends = true
  is_send _ = false

  abbrev pub is_crash : Action F → Bool
  is_crash crashes = true
  is_crash _ = false

  -- A goroutine that sends waits if the channel is full and nobody receives.
  unfoldable pub send_waits : ℕ → ℕ → List (Action F) → Bool
  send_waits room buffered [] = false
  send_waits room buffered (a ∷ actions) =
      if is_send a
      then (if ltb buffered room then send_waits room (suc buffered) actions else true)
      else send_waits room buffered actions

  unfoldable pub perform : Action F → SampleList F → SampleList F
  perform (pushes p) slist = perform_push p slist
  perform (set_info s info) slist = slist
  perform sends slist = slist
  perform crashes slist = slist

  unfoldable pub perform_all : List (Action F) → SampleList F → SampleList F
  unfolding perform
  perform_all [] slist = slist
  perform_all (a ∷ actions) slist = perform_all actions (perform a slist)

  unfoldable pub learn : Action F → Map ServerInfo → Map ServerInfo
  learn (set_info s info) infos = insert s info infos
  learn (pushes p) infos = infos
  learn sends infos = infos
  learn crashes infos = infos

  unfoldable pub learn_all : List (Action F) → Map ServerInfo → Map ServerInfo
  unfolding learn
  learn_all [] infos = infos
  learn_all (a ∷ actions) infos = learn_all actions (learn a infos)

-- The actions before the `select`, and those after it.
pub record Trace (F : Type 0) : Type 0 where
  pub before : List (Action F)
  pub after : List (Action F)

module _ {F : Type 0} where
  abbrev pub whole : Trace F → List (Action F)
  whole t = t.before ++ t.after

  abbrev pub IsTrace : List (List (Action F)) → Trace F → Type 0
  IsTrace goroutines t = Interleave goroutines (whole t)

  -- An error that is there at the `select` is returned, which closes the channel: a later send
  -- panics. One that comes later is never received.
  unfoldable pub round_outcome : Trace F → Outcome
  round_outcome t =
      if any is_crash (whole t)
      then panicked
      else if any is_send t.before
      then if any is_send t.after then panicked else failed
      else ok

-- The capacity of the channel of each round.
unfoldable pub error_room : Instance → ℕ
error_room ins = length ins.servers

abbrev pub needs_info : Instance → Bool
needs_info ins =
    ins.cluster_stats
    || not (length ins.indices_include == 0)
    || not (length ins.indices_level == 0)

-- `ins.serverInfo[s]`: the zero value where there is none.
abbrev pub info_at : Option ServerInfo → ServerInfo
info_at (some info) = info
info_at none = record { node_id = []; master_id = [] }

unfoldable pub may_gather : Instance → Text → Bool
may_gather ins s = is_master (info_at (lookup s ins.server_info)) || not ins.local

unfoldable pub health_url : Instance → Text → Text
health_url ins s =
    s
    ++ codes "/_cluster/health"
    ++ (if length ins.cluster_health_level == 0
        then []
        else codes "?level=" ++ ins.cluster_health_level)

unfoldable pub indices_url : Instance → Text → Text
indices_url ins s =
    s
    ++ b'/' ∷ join ins.indices_include (b',' ∷ [])
    ++ (if text_eq ins.indices_level (codes "shards")
        then codes "/_stats?level=shards"
        else codes "/_stats")

module _ {B F : Type 0} (server : Server B F) where
  -- A goroutine of the first round.
  unfoldable pub info_goroutine : Instance → Text → List (Action F)
  info_goroutine ins s = elim (gather_node_id server ins (s ++ codes "/_nodes/_local/name")) [
    | none ↦ push_up 0 s ∷ sends ∷ []
    | some node ↦ elim (get_cat_master server ins (s ++ codes "/_cat/master")) [
      | none ↦ push_up 0 s ∷ sends ∷ []
      | some master ↦ push_up 1 s ∷ set_info s (record { node_id = node; master_id = master }) ∷ []
    ]
  ]

  -- A goroutine of the second round.
  unfoldable pub gather_server : Instance → Text → Gathered F
  gather_server ins s = then_do (gather_node_stats server ins (node_stats_url ins s) s) (
      then_do
        (if ins.cluster_health
          then gather_cluster_health server ins (health_url ins s) s
          else (ok, []))
        (then_do
          (if ins.cluster_stats && may_gather ins s
            then gather_cluster_stats server ins (s ++ codes "/_cluster/stats") s
            else (ok, []))
          (if not (length ins.indices_include == 0) && may_gather ins s
            then gather_indices_stats server ins (indices_url ins s) s
            else (ok, []))))

  abbrev pub info_goroutines : Instance → List (List (Action F))
  info_goroutines ins = map (info_goroutine ins) ins.servers

  abbrev pub stats_goroutines : Instance → List (List (Action F))
  stats_goroutines ins = map (λ s. actions_of (gather_server ins s)) ins.servers

-- `serverInfo` as the first round makes it anew.
unfoldable pub informed : {F : Type 0} → Instance → Trace F → Instance
informed ins t = record ins { server_info = learn_all (whole t) [] }

-- The first round, if it is needed.
unfoldable pub info_round :
    {F : Type 0} → Instance → Trace F → SampleList F → Outcome × Instance × SampleList F
info_round ins t slist =
    if needs_info ins
    then (round_outcome t, informed ins t, perform_all (whole t) slist)
    else (ok, ins, slist)

unfoldable pub stats_round :
    {F : Type 0} → Trace F → Outcome × Instance × SampleList F → Outcome × Instance × SampleList F
stats_round t (ok, ins, slist) = (round_outcome t, ins, perform_all (whole t) slist)
stats_round t (failed, ins, slist) = (failed, ins, slist)
stats_round t (panicked, ins, slist) = (panicked, ins, slist)

-- `Gather`, with the trace of each round: those of `info_goroutines`, and of `stats_goroutines` at
-- the instance that the first round leaves.
unfoldable pub gather :
    {F : Type 0} → Instance → Trace F → Trace F → SampleList F → Outcome × Instance × SampleList F
unfolding info_round stats_round
gather ins infos stats slist = stats_round stats (info_round ins infos slist)
