-- ===== src/Postgresql/Tests.antt =====
-- Runs of the handler of PostgreSQL.
use kubemonitor.Common.{
  ◌≡◌, ◌≢◌, refl, zero, true, false, none, some, List, [], ◌∷◌, ◌++◌, All, if◌then◌else◌, codes,
  text_eq, has_prefix,
}
use kubemonitor.Common.Int.{ℤ, pos}
use kubemonitor.Value.{text, int64}
use kubemonitor.SafeList.{new_safe_list}
use kubemonitor.SafeList.Fifo.{queue}
use kubemonitor.Sample.{Sample, SampleList}
use kubemonitor.Writer.{ok, failed, panicked}
use kubemonitor.Gathering.{Push, sample_pushed}
use kubemonitor.Toy.{int_floats}
use kubemonitor.Postgresql.{Instance, input_name}
use kubemonitor.Postgresql.Address.{Urls, secrets, redact, sanitized_address, secret_at, value_at}
use kubemonitor.Postgresql.Rows.{Answer}
use kubemonitor.Postgresql.Gather.{Db, gather, databases_sql}
use kubemonitor.Postgresql.Pairs.{Pair, redact-spaced, redact-leak}
use kubemonitor.Postgresql.Whole.{IsPostgresql, IsRead, at_last, somes, up_sample, gather-labelled}

-- The rest of a password `a b`, escaped, stays.
redact-leak_example :
    All
      (λ word.
        redact zero
          (codes "h=d" ++ 32 ∷ (word ++ (b'=' ∷ codes "a\\" ++ 32 ∷ (codes "b" ++ 32 ∷ []))))
        ≡ codes "h=d b ")
      secrets
unfolding secret_at has_prefix redact
redact-leak_example =
    redact-leak (codes "h=d") (codes "a\\") (codes "b") [] (refl, (refl, (refl, tt)))
      ((λ e. cc), (refl, (refl, tt))) (refl, tt)

abbrev plain : Urls
plain = record { parse = λ uri. none; split_host_port = λ host. none }

abbrev ins : Instance
ins = record {
  address = codes "host=db password=x";
  max_lifetime = pos 0;
  is_pg_bouncer = false;
  output_address = codes "db";
  databases = [];
  ignored_databases = [];
  prepared_statements = true;
  metrics = [];
  max_idle = pos 1;
  max_open = pos 1;
  conn_config = [];
}

abbrev stats : Answer ℤ
stats = record {
  columns = some (codes "datname" ∷ codes "numbackends" ∷ []);
  rows = some (text (codes "shop") ∷ int64 (pos 3) ∷ []) ∷ [];
}

abbrev writer : Answer ℤ
writer = record {
  columns = some (codes "buffers_clean" ∷ []);
  rows = some (int64 (pos 1) ∷ []) ∷ [];
}

abbrev db : Db ℤ
db = record {
  opens = λ name. true;
  query = λ sql.
      if text_eq sql (codes "SELECT * FROM pg_stat_bgwriter") then some writer else some stats;
  query_within = λ timeout sql. none;
  print = λ v. [];
}

abbrev no_samples : SampleList ℤ
no_samples = new_safe_list

abbrev pushed : List (Push ℤ)
pushed = sample_pushed input_name (codes "custom_lag") (int64 (pos 2)) [] ∷ []

gather-labelled_example :
    let r = gather plain db ins pushed no_samples in
    (r.0 ≢ panicked)
    × (true ≡ false → r.0 ≡ failed)
    × (r.0 ≡ ok
        → IsRead (db.query (codes "SELECT * FROM pg_stat_database"))
          × IsRead (db.query (codes "SELECT * FROM pg_stat_bgwriter")))
    × (own : List (Sample ℤ)) × (queue r.1
        ≡ some (up_sample (some (codes "db")) true) ∷ somes own ++ at_last r.0 pushed)
    × All (IsPostgresql (some (codes "db"))) own
    × (some (codes "db") ≡ none → own ≡ [])
unfolding sanitized_address databases_sql
gather-labelled_example = gather-labelled plain db ins pushed no_samples

abbrev pairs : List Pair
pairs =
    record { key = codes "host"; value = codes "db" }
    ∷ record { key = codes "password"; value = codes "x" }
    ∷ record { key = codes "port"; value = codes "1" }
    ∷ []

redact-spaced_example : redact zero (codes "host=db password=x port=1 ") ≡ codes "host=db port=1 "
unfolding text_eq secret_at value_at has_prefix
redact-spaced_example = redact-spaced pairs (
  ((λ e. cc), λ e. (refl, (refl, (refl, (refl, (refl, (refl, (refl, tt)))))))),
  (
    ((λ e. ((λ n. cc), (refl, tt))), λ e. cc),
    (((λ e. cc), λ e. (refl, (refl, (refl, (refl, (refl, (refl, tt))))))), tt),
  ),
)
