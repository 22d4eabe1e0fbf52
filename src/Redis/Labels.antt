-- ===== src/Redis/Labels.antt =====
-- What the special lines of Redis add to the list: samples with the address of the server.
use kubemonitor.Common.{
  ◌≡◌, inl, inr, refl, ◌∙◌, true, false, Option, none, some, List, [], ◌∷◌, ◌++◌, Bool-cases,
  Option-cases, OnSome, Text, codes, text_eq, has_prefix, contains, split, Map, lookup, insert,
  lookup-insert, insert-Distinct,
}
use kubemonitor.Value.{Floats, Value}
use kubemonitor.Sample.{Sample, SampleList, new_sample, push_sample}
use kubemonitor.Sample.Names.{new_sample-labels}
use kubemonitor.Sample.Grown.{
  address, IsTagged, copy-IsTagged, Grown, Grown-refl, Grown-trans, push-Grown,
}
use kubemonitor.Redis.{
  input_name, push_fields, keyspace_fields, gather_keyspace_line, gather_commandstate_line,
  replication_part, replication_parts, replica_id, exactly_two, gather_replication_line,
}

pub insert-IsTagged :
    (addr k v : Text) (tags : Map Text)
    → text_eq k address ≡ false
    → IsTagged addr tags
    → IsTagged addr (insert k v tags)
insert-IsTagged addr k v tags ne (d, h) =
    (insert-Distinct k v tags d, lookup-insert k address v tags ∙ rw ne h)

module _ {F : Type 0} where
  -- A sample of Redis, with the address of the server among its labels.
  abbrev pub IsRedis : Text → Sample F → Type 0
  IsRedis addr s =
      (has_prefix s.metric (codes "redis_") ≡ true)
      × (lookup (codes "address") s.labels ≡ some addr)

  abbrev pub Grows : Text → SampleList F → SampleList F → Type 0
  Grows addr l l' = Grown (IsRedis addr) l l'

  pub Grows-refl : (addr : Text) (l : SampleList F) → Grows addr l l
  Grows-refl addr l = Grown-refl (IsRedis addr) l

  pub Grows-trans :
      (addr : Text) {a b c : SampleList F} → Grows addr a b → Grows addr b c → Grows addr a c
  Grows-trans addr g h = Grown-trans (IsRedis addr) g h

  pub push_sample-Grows :
      (addr metric : Text) (v : Value F) (tags : Map Text) (l : SampleList F)
      → IsTagged addr tags
      → Grows addr l (push_sample input_name metric v (tags ∷ []) l)
  unfolding push_sample
  push_sample-Grows addr metric v tags l (d, h) =
      push-Grown (IsRedis addr) (new_sample input_name metric v (tags ∷ [])) l (
        unfold new_sample has_prefix in refl,
        (new_sample-labels input_name metric v (tags ∷ []) (d, tt)).1 address ∙ rw h,
      )

  pub push_fields-Grows :
      (addr prefix : Text) (fields : Map (Value F)) (tags : Map Text) (l : SampleList F)
      → IsTagged addr tags
      → Grows addr l (push_fields prefix fields tags l)
  unfolding push_fields
  push_fields-Grows addr prefix [] tags l t = Grows-refl addr l
  push_fields-Grows addr prefix ((k, v) ∷ fields) tags l t =
      Grows-trans addr (push_sample-Grows addr (prefix ++ k) v tags l t)
        (push_fields-Grows addr prefix fields tags _ t)

  pub keyspace-Grows :
      (addr name line : Text) (l : SampleList F) (tags : Map Text)
      → IsTagged addr tags
      → OnSome (Grows addr l) (gather_keyspace_line name line l tags)
  unfolding gather_keyspace_line
  keyspace-Grows addr name line l tags t = elim (Bool-cases (contains line (codes "keys="))) [
    | inr without ↦ rw (without, gather_keyspace_line) (Grows-refl addr l)
    | inl has ↦ elim (Option-cases (keyspace_fields {F = F} (split line b',') [])) [
      | inl e ↦ rw (has, gather_keyspace_line) (rw e tt)
      | inr (fields, e) ↦
          rw (has, gather_keyspace_line)
            (rw e (
              push_fields-Grows addr (codes "keyspace_") fields _ l (
                insert-IsTagged addr (codes "db") name _ (unfold text_eq in refl)
                  (copy-IsTagged addr tags t))))
    ]
  ]

  pub commandstate-Grows :
      ⦃fl : Floats F⦄ (addr name line : Text) (l : SampleList F) (tags : Map Text)
      → IsTagged addr tags
      → Grows addr l (gather_commandstate_line name line l tags)
  unfolding gather_commandstate_line
  commandstate-Grows addr name line l tags t =
      elim (Bool-cases (has_prefix name (codes "cmdstat"))) [
        | inr without ↦ rw (without, gather_commandstate_line) (Grows-refl addr l)
        | inl has ↦
            rw (has, gather_commandstate_line)
              (push_fields-Grows addr (codes "cmdstat_") _ _ l (
                insert-IsTagged addr (codes "command") _ _ (unfold text_eq in refl)
                  (copy-IsTagged addr tags t)))
      ]

  replication_part-IsTagged :
      (addr : Text) (kv : Option (Text × Text)) (r : Map (Value F) × Map Text)
      → IsTagged addr r.1
      → IsTagged addr (replication_part kv r).1
  unfolding replication_part
  replication_part-IsTagged addr none r t = t
  replication_part-IsTagged addr (some (k, v)) r t = elim (Bool-cases (text_eq k (codes "ip"))) [
    | inl ip ↦
        rw (ip, replication_part)
          (insert-IsTagged addr (codes "replica_ip") v r.1 (unfold text_eq in refl) t)
    | inr not_ip ↦ elim (Bool-cases (text_eq k (codes "port"))) [
      | inl port ↦
          rw (not_ip, port, replication_part)
            (insert-IsTagged addr (codes "replica_port") v r.1 (unfold text_eq in refl) t)
      | inr not_port ↦ elim (Bool-cases (text_eq k (codes "state"))) [
        | inl state ↦ rw (not_ip, not_port, state, replication_part) t
        | inr not_state ↦ rw (not_ip, not_port, not_state, replication_part) t
      ]
    ]
  ]

  replication_parts-IsTagged :
      (addr : Text) (parts : List Text) (r : Map (Value F) × Map Text)
      → IsTagged addr r.1
      → IsTagged addr (replication_parts parts r).1
  unfolding replication_parts
  replication_parts-IsTagged addr [] r t = t
  replication_parts-IsTagged addr (part ∷ parts) r t =
      replication_parts-IsTagged addr parts _
        (replication_part-IsTagged addr (exactly_two (split part b'=')) r t)

  pub replication-Grows :
      (addr name line : Text) (l : SampleList F) (tags : Map Text)
      → IsTagged addr tags
      → Grows addr l (gather_replication_line name line l tags)
  unfolding gather_replication_line
  replication-Grows addr name line l tags t = push_fields-Grows addr (codes "replication_") _ _ l (
      replication_parts-IsTagged addr (split line b',') _ (
        insert-IsTagged addr (codes "replica_id") (replica_id name) _ (unfold text_eq in refl)
          (copy-IsTagged addr tags t)))
