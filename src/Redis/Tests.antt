-- ===== src/Redis/Tests.antt =====
-- Runs of the handler of Redis, with integers for floats.
use kubemonitor.Common.{
  ◌≡◌, ◌≢◌, ◌↔◌, refl, true, false, none, some, [], ◌∷◌, codes, has_prefix, contains, trim_left,
  join, insert, insert_all,
}
use kubemonitor.Common.Int.{ℤ, pos}
use kubemonitor.Strconv.{parse_int}
use kubemonitor.Value.{int64}
use kubemonitor.SafeList.{new_safe_list}
use kubemonitor.SafeList.Fifo.{queue}
use kubemonitor.Sample.{SampleList}
use kubemonitor.Writer.{failed, panicked}
use kubemonitor.Redis.{Instance, gather_keyspace_line, replica_id}
use kubemonitor.Redis.Gather.{Client, Clock, gather}
use kubemonitor.Redis.Labels.{Grows}
use kubemonitor.Redis.Added.{gather_lem}
use kubemonitor.Redis.Keyspace.{keyspace_sample, gather_keyspace_line-printed}
use kubemonitor.Toy.{int_floats}

abbrev cache : Instance
cache = record {
  address = codes "10.0.0.1";
  port = codes "6379";
  username = [];
  password = [];
  pool_size = pos 2;
  commands = [];
}

abbrev server : Client ℤ
server = record {
  ping = true;
  info_all = none;
  info = some (codes "# Stats\r\nkeyspace_hits:3\r\nkeyspace_misses:1\r\n");
  exec = λ words. none;
}

abbrev clock : Clock ℤ
clock = record { ping_use = pos 0; scrape_use = pos 1; now = pos 1700000000 }

abbrev no_samples : SampleList ℤ
no_samples = new_safe_list

replica : replica_id (codes "slave12") ≡ codes "12"
unfolding replica_id trim_left
replica = refl

gather_lem_example :
    (((gather cache server clock no_samples).0 ≡ failed) ↔ (true ≡ false))
    × ((gather cache server clock no_samples).0 ≢ panicked
        → Grows (codes "10.0.0.1") no_samples (gather cache server clock no_samples).1)
gather_lem_example = gather_lem cache server clock no_samples

gather_keyspace_line-printed_example :
    (l : SampleList ℤ) × (gather_keyspace_line
        (codes "db0")
        (codes "keys=2,avg_ttl=x")
        no_samples
        []
      ≡ some l)
    × (queue l
        ≡ keyspace_sample ((codes "db", codes "db0") ∷ []) (codes "keys", int64 (pos 2)) ∷ [])
unfolding contains has_prefix join insert insert_all parse_int
gather_keyspace_line-printed_example =
    gather_keyspace_line-printed (codes "db0") (codes "keys", codes "2")
      ((codes "avg_ttl", codes "x") ∷ []) no_samples []
      ((refl, refl, refl, refl), ((refl, refl, refl, refl), tt))
