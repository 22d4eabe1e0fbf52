-- ===== src/Jsonx/Numbers.antt =====
-- `FlattenJSON` adds numbers only.
use kubemonitor.Common.{
  ◌≡◌, inl, inr, refl, false, [], ◌∷◌, Bool-cases, All, Text, text_eq, Map, insert,
}
use kubemonitor.Value.{Value, float64}
use kubemonitor.Writer.{Outcome, ok, failed, panicked}
use kubemonitor.Jsonx.{
  Json, Members, object, array, number, str, boolean, null, unexpected, end, member, field_key,
  and_then, full_flatten_json, flatten_members, flatten_json,
}

-- Every field is a float.
abbrev pub AllNumbers : {F : Type 0} → Map (Value F) → Type 0
AllNumbers {F} fields = All (λ kv. (x : F) × (kv.1 ≡ float64 x)) fields

insert-AllNumbers :
    {F : Type 0} (k : Text) (t : F) (fields : Map (Value F))
    → AllNumbers fields
    → AllNumbers (insert k (float64 t) fields)
unfolding insert
insert-AllNumbers k t [] h = ((t, refl), tt)
insert-AllNumbers k t ((j, v) ∷ fields) h = elim (Bool-cases (text_eq j k)) [
  | inl same ↦ rw (same, insert) ((t, refl), h.1)
  | inr other ↦ rw (other, insert) (h.0, insert-AllNumbers k t fields h.1)
]

and_then-AllNumbers :
    {F : Type 0} (r : Outcome × Map (Value F)) (go : Map (Value F) → Outcome × Map (Value F))
    → AllNumbers r.1
    → ((m : Map (Value F)) → AllNumbers m → AllNumbers (go m).1)
    → AllNumbers (and_then r go).1
unfolding and_then
and_then-AllNumbers (ok, m) go h f = f m h
and_then-AllNumbers (failed, m) go h f = h
and_then-AllNumbers (panicked, m) go h f = h

mutual
  unfolding full_flatten_json flatten_members

  flatten-AllNumbers :
      {F : Type 0} (name : Text) (v : Json F) (fields : Map (Value F))
      → AllNumbers fields
      → AllNumbers (full_flatten_json name v false false fields).1
  flatten-AllNumbers name (object ms) fields h = members-AllNumbers name ms fields h
  flatten-AllNumbers name (number t) fields h = insert-AllNumbers name t fields h
  flatten-AllNumbers name (array xs) fields h = h
  flatten-AllNumbers name (str t) fields h = h
  flatten-AllNumbers name (boolean t) fields h = h
  flatten-AllNumbers name null fields h = h
  flatten-AllNumbers name unexpected fields h = h

  members-AllNumbers :
      {F : Type 0} (name : Text) (ms : Members F) (fields : Map (Value F))
      → AllNumbers fields
      → AllNumbers (flatten_members name ms false false fields).1
  members-AllNumbers name end fields h = h
  members-AllNumbers name (member k v ms) fields h =
      and_then-AllNumbers (full_flatten_json (field_key name k) v false false fields)
        (flatten_members name ms false false) (flatten-AllNumbers (field_key name k) v fields h)
        (λ m p. members-AllNumbers name ms m p)

-- If all fields are floats, so are the fields behind `FlattenJSON`, whatever it is given and
-- however it ends.
flatten_json-AllNumbers :
    {F : Type 0} (name : Text) (v : Json F) (fields : Map (Value F))
    → AllNumbers fields
    → AllNumbers (flatten_json name v fields).1
unfolding flatten_json
flatten_json-AllNumbers name v fields h = flatten-AllNumbers name v fields h
