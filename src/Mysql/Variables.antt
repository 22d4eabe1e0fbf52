-- ===== src/Mysql/Variables.antt =====
-- internal/handlers/mysql/global_variables.go: the variables of the server.
use kubemonitor.Common.{
  ◌&&◌, ◌||◌, Option, none, some, [], ◌∷◌, ◌++◌, ◌==◌, if◌then◌else◌, not, drop, length, Text,
  codes, has_prefix, Map,
}
use kubemonitor.Common.Int.{pos}
use kubemonitor.Value.{Floats, float64, int}
use kubemonitor.Sample.{SampleList, copy}
use kubemonitor.Mysql.Config.{Instance}
use kubemonitor.Mysql.Rows.{Rows, Db, Times, push_labelled, push_plain}
use kubemonitor.Mysql.Status.{scan_rows, text_item}
use kubemonitor.Mysql.Innodb.{take_digits, find_match}

abbrev pub sql_global_variables : Text
sql_global_variables = codes "SHOW GLOBAL VARIABLES"

abbrev pub variable_texts : Map Text
variable_texts =
    (codes "innodb_version", [])
    ∷ (codes "version", [])
    ∷ (codes "version_comment", [])
    ∷ (codes "wsrep_cluster_name", [])
    ∷ (codes "wsrep_provider_options", [])
    ∷ (codes "tx_isolation", [])
    ∷ (codes "transaction_isolation", [])
    ∷ []

-- `([MG]?);` behind the digits.
abbrev pub size_unit : Text → Text → Option (Text × Text)
size_unit digits [] = none
size_unit digits (c ∷ []) = if c == b';' then some (digits, []) else none
size_unit digits (c ∷ d ∷ s) =
    if c == b';'
    then some (digits, [])
    else if ((c == b'M') || (c == b'G')) && (d == b';')
    then some (digits, c ∷ [])
    else none

-- ` = (\d+)([MG]?);`.
abbrev pub size_behind : Text → Option (Text × Text)
size_behind s =
    if has_prefix s (codes "size = ")
    then elim (take_digits (drop 7 s)) [ none ↦ none | some (digits, rest) ↦ size_unit digits rest ]
    else none

-- `gcache.size = (\d+)([MG]?);` at the front, where `.` is any byte but a line break.
unfoldable pub gcache_at : Text → Option (Text × Text)
unfolding take_digits has_prefix
gcache_at s =
    if has_prefix s (codes "gcache")
    then elim (drop 6 s) [ [] ↦ none | c ∷ rest ↦ if c == 10 then none else size_behind rest ]
    else none

module _ {F : Type 0} ⦃fl : Floats F⦄ where
  -- The digits always parse, up to the range of floats.
  unfoldable pub gcache_size : Text × Text → F
  gcache_size (digits, unit) =
      let value : F = elim (fl.parse_float digits) [ some v ↦ v | none ↦ fl.of_int (pos 0) ] in
      let kilo = fl.of_int (pos 1024) in
      elim unit [
        | [] ↦ value
        | c ∷ rest ↦
            let mega = fl.mul (fl.mul value kilo) kilo in
            if c == b'M' then mega else fl.mul mega kilo
      ]

  unfoldable pub parse_wsrep_provider_options : Text → F
  unfolding gcache_at gcache_size find_match
  parse_wsrep_provider_options opts = elim (find_match gcache_at opts) [
    | none ↦ fl.of_int (pos 0)
    | some m ↦ gcache_size m
  ]

  -- The samples behind the loop, in three steps.
  unfoldable pub push_version : Map Text → Map Text → SampleList F → SampleList F
  push_version texts tags slist =
      push_labelled (codes "version_info") (int (pos 1)) tags
        ((codes "version", text_item (codes "version") texts)
          ∷ (codes "innodb_version", text_item (codes "innodb_version") texts)
          ∷ (codes "version_comment", text_item (codes "version_comment") texts)
          ∷ [])
        slist

  unfoldable pub push_galera_variables : Map Text → Map Text → SampleList F → SampleList F
  unfolding parse_wsrep_provider_options
  push_galera_variables texts tags slist =
      let name = text_item (codes "wsrep_cluster_name") texts in
      let options = text_item (codes "wsrep_provider_options") texts in
      let named =
        if length name == 0
        then slist
        else push_labelled (codes "galera_variables_info") (int (pos 1)) tags
            ((codes "wsrep_cluster_name", name) ∷ []) slist in
      if length options == 0
      then named
      else push_plain (codes "galera_gcache_size_bytes")
          (float64 (parse_wsrep_provider_options options)) tags named

  unfoldable pub push_isolation : Map Text → Map Text → SampleList F → SampleList F
  push_isolation texts tags slist =
      let transaction = text_item (codes "transaction_isolation") texts in
      let tx = text_item (codes "tx_isolation") texts in
      if not (length transaction == 0) || not (length tx == 0)
      then push_labelled (codes "transaction_isolation") (int (pos 1)) tags
          ((codes "level", if length transaction == 0 then tx else transaction) ∷ []) slist
      else slist

  unfoldable pub global_variables :
      Times
      → Map {0} Unit
      → Rows (Text × Text)
      → Map Text
      → Map F
      → SampleList F
      → Map F × SampleList F
  unfolding scan_rows push_version push_galera_variables push_isolation
  global_variables times valid none tags cache slist = (cache, slist)
  global_variables times valid (some rows) tags cache slist =
      let st =
        scan_rows times
          (λ key value l. push_plain (codes "global_variables_" ++ key) (float64 value) tags l)
          valid rows (record { texts = variable_texts; cache = cache; slist = slist }) in
      (
        st.cache,
        push_isolation st.texts tags
            (push_galera_variables st.texts tags (push_version st.texts tags st.slist)),
      )

  -- The flag is the one of the status variables.
  unfoldable pub gather_global_variables :
      Times → Instance → Db → Map Text → Map F → SampleList F → Map F × SampleList F
  unfolding global_variables
  gather_global_variables times ins db tags cache slist =
      if ins.disable_global_status
      then (cache, slist)
      else global_variables times ins.valid_metrics (db.pairs sql_global_variables) (copy tags)
          cache slist
