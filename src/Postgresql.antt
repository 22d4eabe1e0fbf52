-- ===== src/Postgresql.antt =====
-- internal/handlers/postgresql/postgresql.go: the handler of PostgreSQL, its configuration.
pub mod Address
pub mod Rows
pub mod Gather
pub mod Redaction
pub mod Pairs
pub mod Whole
pub mod Tests
use kubemonitor.Common.{
  Bool, true, false, not, ◌&&◌, Option, none, some, List, [], ◌∷◌, ◌==◌, leb, if◌then◌else◌, length,
  drop, Text, codes, text_eq, has_prefix, to_lower, replace_bytes, Map,
}
use kubemonitor.Common.Int.{ℤ, pos}
use kubemonitor.Writer.{Outcome, ok, failed}
use kubemonitor.Factory.{ConfigMap, get}

abbrev pub input_name : Text
input_name = codes "postgresql"

pub record MetricConfig : Type 0 where
  pub mesurement : Text
  pub label_fields : List Text
  pub metric_fields : List Text
  pub field_to_append : Text
  pub timeout : ℤ
  pub request : Text
  pub ignore_zero_result : Bool

-- The fields but the handle of the database.
pub record Instance : Type 0 where
  pub address : Text
  pub max_lifetime : ℤ
  pub is_pg_bouncer : Bool
  pub output_address : Text
  pub databases : List Text
  pub ignored_databases : List Text
  pub prepared_statements : Bool
  pub metrics : List MetricConfig
  pub max_idle : ℤ
  pub max_open : ℤ
  pub conn_config : Text

-- `pgx.ParseConfig`, the host and the protocol of its result, and `RegisterConnConfig`.
pub record Pgx (C : Type 0) : Type 0 where
  pub parse : Text → Option C
  pub host : C → Text
  pub with_host : Text → C → C
  pub prefer_simple : C → C
  pub register : C → Text

abbrev all_digits : Text → Bool
all_digits [] = true
all_digits (c ∷ s) = leb b'0' c && leb c b'9' && all_digits s

-- `/\.s\.PGSQL\.\d+$` at the front.
abbrev is_socket : Text → Bool
is_socket s =
    let digits = drop 10 s in
    has_prefix s (codes "/.s.PGSQL.") && not (length digits == 0) && all_digits digits

-- `socketRegexp.ReplaceAllLiteralString(host, "")`: the match ends the text.
unfoldable pub without_socket : Text → Text
unfolding has_prefix
without_socket [] = []
without_socket (c ∷ s) = let rest = without_socket s in if is_socket (c ∷ s) then [] else c ∷ rest

-- The fields that are set in front of `ParseConfig`: the configured address comes last.
unfoldable pub with_address : ConfigMap → Instance → Instance
with_address config ins =
    let limited : Instance = record ins {
      max_idle = pos 1;
      max_open = pos 1;
      prepared_statements = not ins.is_pg_bouncer;
    } in
    let local : Instance = record limited {
      address =
          if text_eq ins.address (codes "localhost")
          then codes "host=localhost sslmode=disable"
          else ins.address;
    } in
    record local { address = get config (codes "address") }

module _ {C : Type 0} (pgx : Pgx C) where
  unfoldable pub connection_string : Instance → C → Text
  unfolding without_socket
  connection_string ins conf =
      let hosted = pgx.with_host (without_socket (pgx.host conf)) conf in
      pgx.register (if ins.is_pg_bouncer then pgx.prefer_simple hosted else hosted)

  -- `Init` with the result of `ParseConfig`.
  unfoldable pub init_parsed : Instance → Option C → Outcome × Instance
  unfolding connection_string
  init_parsed ins none = (failed, ins)
  init_parsed ins (some conf) = (ok, record ins { conn_config = connection_string ins conf })

  unfoldable pub init : ConfigMap → Instance → Outcome × Instance
  unfolding with_address init_parsed
  init config ins =
      let addressed = with_address config ins in init_parsed addressed (pgx.parse addressed.address)

unfoldable pub clean_name : Text → Text
unfolding to_lower
clean_name s =
    let s1 = replace_bytes (λ c. c == 32) (b'_' ∷ []) s in
    let s2 = replace_bytes (λ c. c == b'(') [] s1 in
    let s3 = replace_bytes (λ c. c == b')') [] s2 in
    let s4 = replace_bytes (λ c. c == b'/') [] s3 in
    let s5 = replace_bytes (λ c. c == b'*') [] s4 in
    to_lower (replace_bytes (λ c. c == b'%') (codes "percent") s5)
