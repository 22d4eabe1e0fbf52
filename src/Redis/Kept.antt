-- ===== src/Redis/Kept.antt =====
-- The loop over the lines of `INFO` only adds samples of Redis to the list.
use kubemonitor.Common.{
  inl, inr, refl, ◌&&◌, Option, none, some, List, [], ◌∷◌, ltb, ◌==◌, Bool-cases, Option-cases,
  OnSome, OnSome-at, length, Text, codes, text_eq, trim_space, Map,
}
use kubemonitor.Common.Int.{ℤ}
use kubemonitor.Strconv.{parse_int}
use kubemonitor.Value.{Floats, Value}
use kubemonitor.Conv
use kubemonitor.Sample.{SampleList}
use kubemonitor.Redis.{gather_commandstate_line, gather_replication_line}
use kubemonitor.Redis.Lines.{
  Info, note_int, info_value, is_ignored, is_slave, with_list, info_field, info_line, info_lines,
  cut,
}
use kubemonitor.Sample.Grown.{IsTagged}
use kubemonitor.Redis.Labels.{
  insert-IsTagged, Grows, Grows-trans, keyspace-Grows, commandstate-Grows, replication-Grows,
}

module _ {F : Type 0} ⦃fl : Floats F⦄ where
  -- The loop keeps the address among the tags, and has only added samples of Redis.
  pub record Kept (addr : Text) (first : SampleList F) (st : Info F) : Type 0 where
    pub tagged : IsTagged addr st.tags
    pub grown : Grows addr first st.slist

  with_fields :
      (addr : Text) (first : SampleList F) (st : Info F) (fields : Map (Value F))
      → Kept addr first st
      → Kept addr first (record st { fields = fields })
  with_fields addr first st fields k = record { tagged = k.tagged; grown = k.grown }

  note_int-Kept :
      (addr : Text) (first : SampleList F) (now : ℤ) (name : Text) (i : ℤ) (st : Info F)
      → Kept addr first st
      → Kept addr first (note_int now name i st)
  unfolding note_int
  note_int-Kept addr first now name i st k =
      elim (Bool-cases (text_eq name (codes "keyspace_hits"))) [
        | inl a ↦ rw (a, note_int) (record { tagged = k.tagged; grown = k.grown })
        | inr a ↦ elim (Bool-cases (text_eq name (codes "keyspace_misses"))) [
          | inl b ↦ rw (a, b, note_int) (record { tagged = k.tagged; grown = k.grown })
          | inr b ↦ elim (Bool-cases (text_eq name (codes "rdb_last_save_time"))) [
            | inl c ↦ rw (a, b, c, note_int) (with_fields addr first st _ k)
            | inr c ↦ rw (a, b, c, note_int) k
          ]
        ]
      ]

  info_value-Kept :
      (addr : Text) (first : SampleList F) (now : ℤ) (name val : Text) (st : Info F)
      → Kept addr first st
      → Kept addr first (info_value now name val st)
  unfolding info_value
  info_value-Kept addr first now name val st k = elim (Option-cases (parse_int val)) [
    | inr (i, e) ↦
        rw (e, info_value) (with_fields addr first _ _ (note_int-Kept addr first now name i st k))
    | inl e ↦ elim (Option-cases (fl.parse_float val)) [
      | inr (f, g) ↦ rw (e, info_value) (rw (g, info_value) (with_fields addr first st _ k))
      | inl g ↦ elim (Option-cases (Conv.to_float64 ⦃fl = fl⦄ (Value.text val))) [
        | inr (f, h) ↦
            rw (e, info_value)
              (rw (g, info_value) (rw (h, info_value) (with_fields addr first st _ k)))
        | inl h ↦ elim (Bool-cases (text_eq name (codes "role"))) [
          | inl role ↦
              rw (e, info_value)
                (rw (g, info_value)
                  (rw (h, info_value)
                    (rw role (record {
                      tagged =
                          insert-IsTagged addr (codes "replica_role") val st.tags
                            (unfold text_eq in refl) k.tagged;
                      grown = k.grown;
                    }))))
          | inr other ↦ rw (e, info_value) (rw (g, info_value) (rw (h, info_value) (rw other k)))
        ]
      ]
    ]
  ]

  with_list-Kept :
      (addr : Text) (first : SampleList F) (st : Info F) (r : Option (SampleList F))
      → Kept addr first st
      → OnSome (Grows addr st.slist) r
      → OnSome (Kept addr first) (with_list st r)
  unfolding with_list
  with_list-Kept addr first st none k g = tt
  with_list-Kept addr first st (some l) k g = record {
    tagged = k.tagged;
    grown = Grows-trans addr k.grown g;
  }

  info_field-Kept :
      (addr : Text) (first : SampleList F) (now : ℤ) (name value : Text) (st : Info F)
      → Kept addr first st
      → OnSome (Kept addr first) (info_field now name value st)
  unfolding info_field
  info_field-Kept addr first now name value st k = elim (Bool-cases (is_ignored st.section name)) [
    | inl a ↦ rw (a, info_field) k
    | inr a ↦ elim (Bool-cases (text_eq st.section (codes "Keyspace"))) [
      | inl b ↦
          rw (a, b, info_field)
            (with_list-Kept addr first st _ k
              (keyspace-Grows addr name (trim_space value) st.slist st.tags k.tagged))
      | inr b ↦ elim (Bool-cases (text_eq st.section (codes "Commandstats"))) [
        | inl c ↦
            rw (a, b, c, info_field)
              (with_list-Kept addr first st
                (some (gather_commandstate_line name (trim_space value) st.slist st.tags)) k
                (commandstate-Grows addr name (trim_space value) st.slist st.tags k.tagged))
        | inr c ↦ elim (Bool-cases (text_eq st.section (codes "Replication") && is_slave name)) [
          | inl d ↦
              rw (a, b, c, d, info_field)
                (with_list-Kept addr first st
                  (some (gather_replication_line name (trim_space value) st.slist st.tags)) k
                  (replication-Grows addr name (trim_space value) st.slist st.tags k.tagged))
          | inr d ↦ rw (a, b, c, d, info_field) (info_value-Kept addr first now name _ st k)
        ]
      ]
    ]
  ]

  info_line-Kept :
      (addr : Text) (first : SampleList F) (now : ℤ) (line : Text) (st : Info F)
      → Kept addr first st
      → OnSome (Kept addr first) (info_line now line st)
  unfolding info_line
  info_line-Kept addr first now [] st k = k
  info_line-Kept addr first now (c ∷ line) st k = elim (Bool-cases (c == b'#')) [
    | inl a ↦ elim (Bool-cases (ltb 2 (length (c ∷ line)))) [
      | inl b ↦ rw (a, b, info_line) (record { tagged = k.tagged; grown = k.grown })
      | inr b ↦ rw (a, b, info_line) k
    ]
    | inr a ↦ elim (Option-cases (cut (c ∷ line))) [
      | inl e ↦ rw (a, e, info_line) k
      | inr (nv, e) ↦ rw (a, e, info_line) (info_field-Kept addr first now nv.0 nv.1 st k)
    ]
  ]

  pub info_lines-Kept :
      (addr : Text) (first : SampleList F) (now : ℤ) (lines : List Text) (st : Info F)
      → Kept addr first st
      → OnSome (Kept addr first) (info_lines now lines st)
  unfolding info_lines
  info_lines-Kept addr first now [] st k = k
  info_lines-Kept addr first now (line ∷ lines) st k = elim (Option-cases (info_line now line st)) [
    | inl e ↦ rw (e, info_lines) tt
    | inr (st', e) ↦
        rw (e, info_lines)
          (info_lines-Kept addr first now lines st'
            (OnSome-at _ (info_line-Kept addr first now line st k) e))
  ]
