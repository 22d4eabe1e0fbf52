-- ===== src/Redis/Keyspace.antt =====
-- The keyspace lines of Redis: when they are read, and when they make the handler panic.
use kubemonitor.Common.{
  ℕ, ◌≡◌, ◌↔◌, inl, inr, refl, sym, ap, ◌∙◌, Bool, true, false, not, Option, none, some, List, [],
  ◌∷◌, ◌++◌, map, append_assoc, append-nil, arith, ◌==◌, if◌then◌else◌, suc_test, Bool-cases,
  Option-cases, length, any, All, Text, codes, contains, split, split_byte, join, Map, insert,
  insert_all, is_some,
}
use kubemonitor.Common.Int.{ℤ}
use kubemonitor.Strconv.{parse_int}
use kubemonitor.Value.{Value, int64}
use kubemonitor.SafeList.{push_front}
use kubemonitor.SafeList.Fifo.{queue, queue-push_front}
use kubemonitor.Sample.{Sample, SampleList, new_sample, push_sample}
use kubemonitor.Redis.{push_fields, set_int, first_two, keyspace_fields, gather_keyspace_line}

abbrev pub has_byte : ℕ → Text → Bool
has_byte c s = any (λ d. d == c) s

split_without : (sep : ℕ) (s : Text) → has_byte sep s ≡ false → split s sep ≡ s ∷ []
unfolding split split_byte
split_without sep [] h = refl
split_without sep (c ∷ s) h = ground (arith, split_without sep s)

split-append :
    (sep : ℕ) (p s : Text) → has_byte sep p ≡ false → split (p ++ sep ∷ s) sep ≡ p ∷ split s sep
unfolding split split_byte
split-append sep [] s h = ground arith
split-append sep (c ∷ p) s h = ground (arith, split-append sep p s)

split-join :
    (sep : ℕ) (p : Text) (ps : List Text)
    → All (λ q. has_byte sep q ≡ false) (p ∷ ps)
    → split (join (p ∷ ps) (sep ∷ [])) sep ≡ p ∷ ps
unfolding join
split-join sep p [] h = split_without sep p h.0
split-join sep p (q ∷ ps) h =
    ap (λ s. split s sep) (simp append_assoc)
    ∙ split-append sep p (join (q ∷ ps) (sep ∷ [])) h.0
    ∙ ap (◌∷◌ p) (split-join sep q ps h.1)

is_some-first_two :
    (a : Text) (parts : List Text) → is_some (first_two (a ∷ parts)) ≡ not (length parts == 0)
is_some-first_two a [] = refl
is_some-first_two a (b ∷ parts) = rw (suc_test (length parts))

length-split_byte : (sep : ℕ) (s : Text) → not (length (split_byte sep s).1 == 0) ≡ has_byte sep s
unfolding split_byte
length-split_byte sep [] = refl
length-split_byte sep (c ∷ s) = ground (arith, length-split_byte sep s)

-- There are a key and a value exactly if there is an `=`.
first_two_lem : (s : Text) → is_some (first_two (split s b'=')) ≡ has_byte b'=' s
unfolding split
first_two_lem s =
    is_some-first_two (split_byte b'=' s).0 (split_byte b'=' s).1 ∙ length-split_byte b'=' s

module _ {F : Type 0} where
  keyspace_fields_lem :
      (parts : List Text) (fields : Map (Value F))
      → is_some (keyspace_fields parts fields) ≡ not (any (λ p. not (has_byte b'=' p)) parts)
  unfolding keyspace_fields
  keyspace_fields_lem [] fields = refl
  keyspace_fields_lem (p ∷ parts) fields = elim (Option-cases (first_two (split p b'='))) [
    | inl e ↦ rw (e, keyspace_fields) (ground (arith, first_two_lem p, e))
    | inr (kv, e) ↦
        rw (e, keyspace_fields)
          (keyspace_fields_lem parts (set_int kv.0 (parse_int kv.1) fields)
            ∙ ground (arith, first_two_lem p, e))
  ]

  -- A keyspace line makes the handler panic exactly if it contains `keys=` and one of its parts
  -- between commas has no `=`.
  gather_keyspace_line-none :
      (name line : Text) (l : SampleList F) (tags : Map Text)
      → (gather_keyspace_line name line l tags ≡ none) ↔ (
          (contains line (codes "keys=") ≡ true)
          × (any (λ p. not (has_byte b'=' p)) (split line b',') ≡ true))
  unfolding gather_keyspace_line
  gather_keyspace_line-none name line l tags =
      ground (arith, keyspace_fields_lem (split line b',') [])

  -- The fields that the loop makes of printed entries.
  abbrev entry_fields : List (Text × Text) → Map (Value F) → Map (Value F)
  entry_fields [] fields = fields
  entry_fields ((k, v) ∷ entries) fields = entry_fields entries (set_int k (parse_int v) fields)

abbrev pub print_entry : Text × Text → Text
print_entry (k, v) = k ++ b'=' ∷ v

printed_without :
    (k v : Text)
    → has_byte b',' k ≡ false
    → has_byte b',' v ≡ false
    → has_byte b',' (print_entry (k, v)) ≡ false
printed_without [] v hk hv = ground arith
printed_without (c ∷ k) v hk hv = ground (arith, printed_without k v)

-- A key and a value that can be printed: the key without `=`, and neither with a comma.
abbrev pub IsPlain : Text × Text → Type 0
IsPlain (k, v) =
    (has_byte b'=' k ≡ false)
    × (has_byte b',' k ≡ false)
    × (has_byte b',' v ≡ false)
    × (has_byte b'=' v ≡ false)

split_entry :
    (k v : Text)
    → has_byte b'=' k ≡ false
    → has_byte b'=' v ≡ false
    → first_two (split (print_entry (k, v)) b'=') ≡ some (k, v)
split_entry k v hk hv =
    ap first_two (split-append b'=' k v hk ∙ ap (◌∷◌ k) (split_without b'=' v hv))

printed_entries :
    (entries : List (Text × Text))
    → All IsPlain entries
    → All (λ q. has_byte b',' q ≡ false) (map print_entry entries)
printed_entries [] h = tt
printed_entries ((k, v) ∷ entries) h =
    (printed_without k v h.0.1 h.0.2, printed_entries entries h.1)

module _ {F : Type 0} where
  keyspace_fields-printed :
      (entries : List (Text × Text)) (fields : Map (Value F))
      → All IsPlain entries
      → keyspace_fields (map print_entry entries) fields ≡ some (entry_fields entries fields)
  unfolding keyspace_fields
  keyspace_fields-printed [] fields h = refl
  keyspace_fields-printed ((k, v) ∷ entries) fields h =
      rw (split_entry k v h.0.0 h.0.3, keyspace_fields)
        (keyspace_fields-printed entries (set_int k (parse_int v) fields) h.1)

  -- The entries whose value is an integer.
  abbrev pub integers : List (Text × Text) → Map (Value F)
  integers [] = []
  integers ((k, v) ∷ entries) = elim (parse_int v) [
    | none ↦ integers entries
    | some i ↦ (k, int64 i) ∷ integers entries
  ]

  entry_fields-integers :
      (entries : List (Text × Text)) (fields : Map (Value F))
      → entry_fields entries fields ≡ insert_all (integers entries) fields
  unfolding insert_all set_int
  entry_fields-integers [] fields = refl
  entry_fields-integers ((k, v) ∷ entries) fields = elim (Option-cases (parse_int v)) [
    | inl e ↦
        ap (λ o. entry_fields entries (set_int k o fields)) e
        ∙ entry_fields-integers entries fields
        ∙ sym (ap at_value e)
    | inr (i, e) ↦
        ap (λ o. entry_fields entries (set_int k o fields)) e
        ∙ entry_fields-integers entries (insert k (int64 i) fields)
        ∙ sym (ap at_value e)
  ]
    where
      at_value : Option ℤ → Map (Value F)
      at_value o =
          insert_all (elim o [ none ↦ integers entries | some i ↦ (k, int64 i) ∷ integers entries ])
            fields

  -- The sample of a field.
  abbrev pub keyspace_sample : Map Text → Text × Value F → Option (Sample F)
  keyspace_sample tags (k, v) =
      some (new_sample (codes "redis") (codes "keyspace_" ++ k) v (tags ∷ []))

  push_fields-queue :
      (fields : Map (Value F)) (tags : Map Text) (l : SampleList F)
      → queue (push_fields (codes "keyspace_") fields tags l)
        ≡ queue l ++ map (keyspace_sample tags) fields
  unfolding push_fields push_sample
  push_fields-queue [] tags l = sym (append-nil (queue l))
  push_fields-queue ((k, v) ∷ fields) tags l =
      push_fields-queue fields tags (push_front (keyspace_sample tags (k, v)) l)
      ∙ rw (queue-push_front, append_assoc)

  -- A keyspace line that is printed from keys and values, `k=v` joined by commas, none of which
  -- holds an `=` or a comma, is read back: if it contains `keys=`, a sample `redis_keyspace_` and
  -- the key is pushed for each key whose value is an integer, the last one for a key that is there
  -- twice, with the tags that are given and the name of the database; if not, nothing changes.
  pub gather_keyspace_line-printed :
      (name : Text) (e : Text × Text) (entries : List (Text × Text)) (l : SampleList F)
      (tags : Map Text)
      → All IsPlain (e ∷ entries)
      → let line = join (map print_entry (e ∷ entries)) (b',' ∷ []) in
        let labels = insert (codes "db") name (insert_all tags []) in
        (l' : SampleList F) × (gather_keyspace_line name line l tags ≡ some l')
        × (queue l' ≡ (
            if contains line (codes "keys=")
            then queue l ++ map (keyspace_sample labels) (insert_all (integers (e ∷ entries)) [])
            else queue l))
  unfolding gather_keyspace_line
  gather_keyspace_line-printed name e entries l tags h =
      let line = join (map print_entry (e ∷ entries)) (b',' ∷ []) in
      let labels = insert (codes "db") name (insert_all tags []) in
      let parts : split line b',' ≡ map print_entry (e ∷ entries) =
        split-join b',' (print_entry e) (map print_entry entries)
          (printed_entries (e ∷ entries) h) in
      let fields : keyspace_fields {F = F} (split line b',') []
          ≡ some (insert_all (integers (e ∷ entries)) []) =
        ap (λ ps. keyspace_fields ps []) parts
        ∙ keyspace_fields-printed (e ∷ entries) [] h
        ∙ ap (λ m. some m) (entry_fields-integers (e ∷ entries) []) in
      elim (Bool-cases (contains line (codes "keys="))) [
        | inl has ↦ (
          push_fields (codes "keyspace_") (insert_all (integers (e ∷ entries)) []) labels l,
          rw (has, gather_keyspace_line) (rw fields),
          rw has (push_fields-queue (insert_all (integers (e ∷ entries)) []) labels l),
        )
        | inr without ↦ (l, rw (without, gather_keyspace_line), rw without)
      ]
