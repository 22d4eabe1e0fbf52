-- ===== src/Redis/Lines.antt =====
-- The loop over the lines of `INFO`.
use kubemonitor.Common.{
  Bool, false, not, ◌&&◌, ◌||◌, Option, none, some, List, [], ◌∷◌, ltb, leb, ◌==◌, if◌then◌else◌,
  length, drop, Text, codes, text_eq, has_prefix, has_suffix, trim_suffix, trim_space, Map, insert,
}
use kubemonitor.Common.Int.{ℤ, pos, ◌+ℤ◌, ◌-ℤ◌, eq_ℤ}
use kubemonitor.Strconv.{parse_int}
use kubemonitor.Value.{Floats, Value, float64, int64}
use kubemonitor.Conv
use kubemonitor.Conv.{wrap64}
use kubemonitor.Sample.{SampleList}
use kubemonitor.Redis.{gather_keyspace_line, gather_commandstate_line, gather_replication_line}

drop_cr : Text → Text
drop_cr l = trim_suffix l (13 ∷ [])

-- `bufio.ScanLines`, up to the first line that does not fit its buffer of 65536 bytes.
unfoldable pub scan_lines : List Text → List Text
unfolding drop_cr
scan_lines [] = []
scan_lines (l ∷ ls) = if leb 65536 (length l) then [] else drop_cr l ∷ scan_lines ls

-- `strings.SplitN(line, ":", 2)`, if it gives two parts.
unfoldable pub cut : Text → Option (Text × Text)
cut [] = none
cut (c ∷ s) =
    let rest = cut s in
    if c == b':' then some ([], s) else elim rest [ none ↦ none | some (a, b) ↦ some (c ∷ a, b) ]

-- `^slave\d+`.
unfoldable pub is_slave : Text → Bool
is_slave name =
    has_prefix name (codes "slave")
    && elim (drop 5 name) [ [] ↦ false | c ∷ s ↦ leb b'0' c && leb c b'9' ]

-- The names that are passed over in every section, and in the section `Server`.
unfoldable pub is_ignored : Text → Text → Bool
is_ignored section name =
    (text_eq section (codes "Server") && not (text_eq name (codes "uptime_in_seconds")))
    || has_prefix name (codes "master_replid")
    || text_eq name (codes "mem_allocator")
    || has_suffix name (codes "_human")

-- The variables of the loop. `tags` is the map that `Gather` has made, and that it goes on with.
pub record Info (F : Type 0) : Type 0 where
  pub section : Text
  pub keyspace_hits : ℤ
  pub keyspace_misses : ℤ
  pub fields : Map (Value F)
  pub tags : Map Text
  pub slist : SampleList F

module _ {F : Type 0} ⦃fl : Floats F⦄ where
  -- The `switch` on the name of an integer.
  unfoldable pub note_int : ℤ → Text → ℤ → Info F → Info F
  note_int now name ival st =
      if text_eq name (codes "keyspace_hits")
      then record st { keyspace_hits = ival }
      else if text_eq name (codes "keyspace_misses")
      then record st { keyspace_misses = ival }
      else if text_eq name (codes "rdb_last_save_time")
      then record st {
        fields =
            insert (codes "rdb_last_save_time_elapsed") (int64 (wrap64 (now -ℤ ival))) st.fields;
      }
      else st

  -- An integer, a float, a word that stands for one, or the role.
  unfoldable pub info_value : ℤ → Text → Text → Info F → Info F
  unfolding note_int
  info_value now name val st = elim (parse_int val) [
    | some ival ↦
        let noted = note_int now name ival st in
        record noted { fields = insert name (int64 ival) noted.fields }
    | none ↦ elim (fl.parse_float val) [
      | some fval ↦ record st { fields = insert name (float64 fval) st.fields }
      | none ↦ elim (Conv.to_float64 (Value.text val)) [
        | some fval ↦ record st { fields = insert name (float64 fval) st.fields }
        | none ↦
            if text_eq name (codes "role")
            then record st { tags = insert (codes "replica_role") val st.tags }
            else st
      ]
    ]
  ]

  unfoldable pub with_list : Info F → Option (SampleList F) → Option (Info F)
  with_list st none = none
  with_list st (some slist) = some (record st { slist = slist })

  -- A line with a name and a value; `none` is a panic.
  unfoldable pub info_field : ℤ → Text → Text → Info F → Option (Info F)
  unfolding with_list
  info_field now name value st =
      if is_ignored st.section name
      then some st
      else if text_eq st.section (codes "Keyspace")
      then with_list st (gather_keyspace_line name (trim_space value) st.slist st.tags)
      else if text_eq st.section (codes "Commandstats")
      then with_list st (some (gather_commandstate_line name (trim_space value) st.slist st.tags))
      else if text_eq st.section (codes "Replication") && is_slave name
      then with_list st (some (gather_replication_line name (trim_space value) st.slist st.tags))
      else some (info_value now name (trim_suffix (trim_space value) (codes "%")) st)

  unfoldable pub info_line : ℤ → Text → Info F → Option (Info F)
  info_line now [] st = some st
  info_line now (c ∷ line) st =
      if c == b'#'
      then some
          (if ltb 2 (length (c ∷ line)) then record st { section = drop 2 (c ∷ line) } else st)
      else elim (cut (c ∷ line)) [
        | none ↦ some st
        | some (name, value) ↦ info_field now name value st
      ]

  unfoldable pub info_lines : ℤ → List Text → Info F → Option (Info F)
  info_lines now [] st = some st
  info_lines now (line ∷ lines) st = elim (info_line now line st) [
    | none ↦ none
    | some st' ↦ info_lines now lines st'
  ]

  unfoldable pub hitrate : ℤ → ℤ → F
  hitrate hits misses =
      if eq_ℤ hits (pos 0) && eq_ℤ misses (pos 0)
      then fl.of_int (pos 0)
      else fl.div (fl.of_int hits) (fl.of_int (wrap64 (hits +ℤ misses)))
