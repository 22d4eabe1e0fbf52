-- ===== src/Postgresql/Address.antt =====
-- The address that labels the samples of PostgreSQL: the connection string without its secrets.
use kubemonitor.Common.{
  ℕ, ◌-◌, zero, suc, Bool, ◌||◌, Option, none, some, List, [], ◌∷◌, ◌++◌, ◌==◌, if◌then◌else◌,
  length, drop, Text, codes, text_eq, has_prefix, join, Map,
}
use kubemonitor.Elastic.Sorting.{sort_strings}
use kubemonitor.Postgresql.{Instance}

-- What `url.Parse` and `Query` of its result give: the user with the password, and the first value
-- of each parameter.
pub record Url : Type 0 where
  pub scheme : Text
  pub user : Option (Text × Text)
  pub host : Text
  pub path : Text
  pub query : Map Text

-- `url.Parse` and `net.SplitHostPort`.
pub record Urls : Type 0 where
  pub parse : Text → Option Url
  pub split_host_port : Text → Option (Text × Text)

-- `escaper.Replace`.
unfoldable pub escape : Text → Text
escape [] = []
escape (c ∷ s) =
    let rest = escape s in
    if (c == 32) || (c == b'\'') || (c == b'\\') then b'\\' ∷ c ∷ rest else c ∷ rest

-- `accrue`.
unfoldable pub accrue : Text → Text → List Text → List Text
unfolding escape
accrue k v kvs = if length v == 0 then kvs else kvs ++ (k ++ b'=' ∷ escape v) ∷ []

unfoldable pub accrue_all : Map Text → List Text → List Text
unfolding accrue
accrue_all [] kvs = kvs
accrue_all ((k, v) ∷ query) kvs = accrue_all query (accrue k v kvs)

unfoldable pub accrue_user : Option (Text × Text) → List Text → List Text
unfolding accrue
accrue_user none kvs = kvs
accrue_user (some (name, password)) kvs =
    accrue (codes "password") password (accrue (codes "user") name kvs)

unfoldable pub accrue_host : Option (Text × Text) → Text → List Text → List Text
unfolding accrue
accrue_host none whole kvs = accrue (codes "host") whole kvs
accrue_host (some (host, port)) whole kvs =
    accrue (codes "port") port (accrue (codes "host") host kvs)

-- The pairs of a URL, sorted.
unfoldable pub pairs_of : Urls → Url → List Text
unfolding accrue_user accrue_host accrue_all sort_strings
pairs_of urls u = sort_strings (
    accrue_all u.query (
      accrue (codes "dbname") (drop 1 u.path)
        (accrue_host (urls.split_host_port u.host) u.host (accrue_user u.user []))))

unfoldable pub parse_url : Urls → Text → Option Text
unfolding pairs_of
parse_url urls uri = elim (urls.parse uri) [
  | none ↦ none
  | some u ↦
      if text_eq u.scheme (codes "postgres") || text_eq u.scheme (codes "postgresql")
      then some (join (pairs_of urls u) (32 ∷ []))
      else none
]

-- The words of `kvMatcher`.
abbrev pub secrets : List Text
secrets =
    codes "user"
    ∷ codes "password"
    ∷ codes "sslcert"
    ∷ codes "sslkey"
    ∷ codes "sslmode"
    ∷ codes "sslrootcert"
    ∷ []

-- The bytes that `\S` does not match.
abbrev pub is_blank : ℕ → Bool
is_blank c = (c == 32) || (c == 9) || (c == 10) || (c == 12) || (c == 13)

-- What `\S* ?` leaves.
unfoldable pub behind_value : Text → Text
behind_value [] = []
behind_value (c ∷ s) =
    let rest = behind_value s in if is_blank c then (if c == 32 then s else c ∷ s) else rest

-- What `\S+ ?` leaves, if it matches.
unfoldable pub value_at : Text → Option Text
unfolding behind_value
value_at [] = none
value_at (c ∷ s) = if is_blank c then none else some (behind_value s)

-- What the pattern leaves at a place, with the words in turn.
unfoldable pub secret_at : List Text → Text → Option Text
unfolding value_at has_prefix
secret_at [] s = none
secret_at (word ∷ words) s =
    let rest = secret_at words s in
    let head = word ++ b'=' ∷ [] in
    if has_prefix s head
    then elim (value_at (drop (length head) s)) [ some left ↦ some left | none ↦ rest ]
    else rest

-- `kvMatcher.ReplaceAllString(s, "")`: the first argument counts the bytes of a match that are
-- still to be left out.
unfoldable pub redact : ℕ → Text → Text
unfolding secret_at
redact n [] = []
redact (suc n) (c ∷ s) = redact n s
redact zero (c ∷ s) = elim (secret_at secrets (c ∷ s)) [
  | none ↦ c ∷ redact zero s
  | some left ↦ redact (length s - length left) s
]

-- The connection string behind `parseURL`.
unfoldable pub canonical_address : Urls → Text → Option Text
unfolding parse_url
canonical_address urls address =
    if has_prefix address (codes "postgres://") || has_prefix address (codes "postgresql://")
    then parse_url urls address
    else some address

unfoldable pub sanitized_address : Urls → Instance → Option Text
unfolding canonical_address redact
sanitized_address urls ins =
    if length ins.output_address == 0
    then elim (canonical_address urls ins.address) [
      | none ↦ none
      | some address ↦ some (redact zero address)
    ]
    else some ins.output_address
