-- ===== src/Redis.antt =====
-- internal/handlers/redis/redis.go: the handler of Redis, its configuration and the special lines
-- of `INFO`. Redis/Lines.antt has the loop over the lines, Redis/Gather.antt has `Gather`.
pub mod Lines
pub mod Gather
pub mod Labels
pub mod Kept
pub mod Added
pub mod Keyspace
pub mod Tests
use kubemonitor.Common.{
  ◌||◌, Option, none, some, List, [], ◌∷◌, ◌++◌, ◌==◌, if◌then◌else◌, Text, codes, text_eq,
  has_prefix, contains, trim_prefix, trim_left, split, Map, insert, insert_all,
}
use kubemonitor.Common.Int.{ℤ}
use kubemonitor.Strconv.{parse_int}
use kubemonitor.Value.{Floats, Value, float64, int64}
use kubemonitor.Conv
use kubemonitor.Sample.{SampleList, push_sample}
use kubemonitor.Writer.{Outcome, ok, failed}
use kubemonitor.Factory.{ConfigMap, get}

abbrev pub input_name : Text
input_name = codes "redis"

-- The words of a command are only handed to the client.
pub record Command : Type 0 where
  pub command : List Text
  pub metric : Text

-- The fields but the client, which is an argument of `Gather`.
pub record Instance : Type 0 where
  pub address : Text
  pub port : Text
  pub username : Text
  pub password : Text
  pub pool_size : ℤ
  pub commands : List Command

-- `Init`: an error leaves the pool size as it was. `ToInt` is at a string.
unfoldable pub init : {F : Type 0} → Floats F → ConfigMap → Instance → Outcome × Instance
init fl config ins =
    let set = record ins {
      address = get config (codes "address");
      username = get config (codes "username");
      password = get config (codes "password");
      port = get config (codes "port");
    } in
    elim (Conv.text_to_int fl (get config (codes "pool_size"))) [
      | none ↦ (failed, set)
      | some n ↦ (ok, record set { pool_size = n })
    ]

-- `kv[0]` and `kv[1]`; `none` is the panic where there is no `kv[1]`.
abbrev pub first_two : List Text → Option (Text × Text)
first_two (k ∷ v ∷ rest) = some (k, v)
first_two _ = none

-- `if len(kv) != 2 { continue }`.
abbrev pub exactly_two : List Text → Option (Text × Text)
exactly_two (k ∷ v ∷ []) = some (k, v)
exactly_two _ = none

-- `strings.TrimLeft(name, "slave")`: the letters of `slave` in front.
unfoldable pub replica_id : Text → Text
replica_id name =
    trim_left (λ c. (c == b's') || (c == b'l') || (c == b'a') || (c == b'v') || (c == b'e')) name

module _ {F : Type 0} where
  -- `for k, v := range fields { slist.PushFront(NewSample(inputName, prefix+k, v, tags)) }`.
  unfoldable pub push_fields : Text → Map (Value F) → Map Text → SampleList F → SampleList F
  push_fields prefix [] tags slist = slist
  push_fields prefix ((k, v) ∷ fields) tags slist =
      push_fields prefix fields tags (push_sample input_name (prefix ++ k) v (tags ∷ []) slist)

  -- `if err == nil { fields[k] = ival }`.
  unfoldable pub set_int : Text → Option ℤ → Map (Value F) → Map (Value F)
  set_int k none fields = fields
  set_int k (some i) fields = insert k (int64 i) fields

  unfoldable pub set_float : Text → Option F → Map (Value F) → Map (Value F)
  set_float k none fields = fields
  set_float k (some f) fields = insert k (float64 f) fields

  unfoldable pub keyspace_fields : List Text → Map (Value F) → Option (Map (Value F))
  unfolding set_int
  keyspace_fields [] fields = some fields
  keyspace_fields (dbp ∷ more) fields = elim (first_two (split dbp b'=')) [
    | none ↦ none
    | some (k, v) ↦ keyspace_fields more (set_int k (parse_int v) fields)
  ]

  unfoldable pub gather_keyspace_line :
      Text → Text → SampleList F → Map Text → Option (SampleList F)
  gather_keyspace_line name line slist global_tags =
      if contains line (codes "keys=")
      then elim (keyspace_fields (split line b',') []) [
        | none ↦ none
        | some fields ↦ some (
            push_fields (codes "keyspace_") fields
              (insert (codes "db") name (insert_all global_tags [])) slist)
      ]
      else some slist

  unfoldable pub commandstate_field :
      ⦃fl : Floats F⦄ → Option (Text × Text) → Map (Value F) → Map (Value F)
  unfolding set_int set_float
  commandstate_field none fields = fields
  commandstate_field ⦃fl⦄ (some (k, v)) fields =
      if text_eq k (codes "calls") || text_eq k (codes "usec")
      then set_int k (parse_int v) fields
      else if text_eq k (codes "usec_per_call")
      then set_float k (fl.parse_float v) fields
      else fields

  unfoldable pub commandstate_fields : ⦃fl : Floats F⦄ → List Text → Map (Value F) → Map (Value F)
  commandstate_fields [] fields = fields
  commandstate_fields (part ∷ parts) fields =
      commandstate_fields parts (commandstate_field (exactly_two (split part b'=')) fields)

  unfoldable pub gather_commandstate_line :
      ⦃fl : Floats F⦄ → Text → Text → SampleList F → Map Text → SampleList F
  gather_commandstate_line name line slist global_tags =
      if has_prefix name (codes "cmdstat")
      then push_fields (codes "cmdstat_") (commandstate_fields (split line b',') [])
          (insert (codes "command") (trim_prefix name (codes "cmdstat_"))
            (insert_all global_tags []))
          slist
      else slist

  -- One part of a replication line, on the fields and the tags.
  unfoldable pub replication_part :
      Option (Text × Text) → Map (Value F) × Map Text → Map (Value F) × Map Text
  unfolding set_int
  replication_part none (fields, tags) = (fields, tags)
  replication_part (some (k, v)) (fields, tags) =
      if text_eq k (codes "ip")
      then (fields, insert (codes "replica_ip") v tags)
      else if text_eq k (codes "port")
      then (fields, insert (codes "replica_port") v tags)
      else if text_eq k (codes "state")
      then (fields, tags)
      else (set_int k (parse_int v) fields, tags)

  unfoldable pub replication_parts : List Text → Map (Value F) × Map Text → Map (Value F) × Map Text
  replication_parts [] r = r
  replication_parts (part ∷ parts) r =
      replication_parts parts (replication_part (exactly_two (split part b'=')) r)

  unfoldable pub gather_replication_line : Text → Text → SampleList F → Map Text → SampleList F
  gather_replication_line name line slist global_tags =
      let (fields, tags) =
        replication_parts (split line b',')
          ([], insert (codes "replica_id") (replica_id name) (insert_all global_tags [])) in
      push_fields (codes "replication_") fields tags slist
