-- ===== src/Jsonx/Paths.antt =====
-- The fields of a flattened value are its scalars by their paths.
use kubemonitor.Common.{
  ℕ, ◌≡◌, ◌↔◌, inl, inr, refl, sym, ap, ◌∙◌, Bool, true, false, ◌&&◌, List, [], ◌∷◌, ◌++◌, map,
  append_assoc, arith, if◌then◌else◌, suc_test, Bool-cases, length, map-map, Text, join, Map,
  insert, insert_all,
}
use kubemonitor.Value.{Value, float64}
use kubemonitor.Writer.{Outcome, ok, failed, panicked}
use kubemonitor.Jsonx.{
  Json, Members, object, array, number, str, boolean, null, unexpected, end, member, field_key,
  and_then, full_flatten_json, flatten_members,
}

-- No value that is reached through objects has an unexpected type.
mutual
  pub is_clean : {F : Type 0} → Json F → Bool
  is_clean (object ms) = all_clean ms
  is_clean unexpected = false
  is_clean _ = true

  pub all_clean : {F : Type 0} → Members F → Bool
  all_clean end = true
  all_clean (member k v ms) = is_clean v && all_clean ms

-- The scalars that are reached through objects, each with the keys on its way.
mutual
  pub scalars : {F : Type 0} → Json F → Bool → Bool → List (List Text × Value F)
  scalars (object ms) cs cb = member_scalars ms cs cb
  scalars (array xs) cs cb = []
  scalars (number t) cs cb = ([], float64 t) ∷ []
  scalars (str t) cs cb = if cs then ([], Value.text t) ∷ [] else []
  scalars (boolean t) cs cb = if cb then ([], Value.bool t) ∷ [] else []
  scalars null cs cb = []
  scalars unexpected cs cb = []

  pub member_scalars : {F : Type 0} → Members F → Bool → Bool → List (List Text × Value F)
  member_scalars end cs cb = []
  member_scalars (member k v ms) cs cb =
      map (λ e. (k ∷ e.0, e.1)) (scalars v cs cb) ++ member_scalars ms cs cb

-- The name of a scalar, from the name of the value and the path.
abbrev pub named : Text → List Text → Text
named name [] = name
named name (k ∷ path) = named (field_key name k) path

abbrev name_all : {F : Type 0} → Text → List (List Text × Value F) → Map (Value F)
name_all name = map (λ e. (named name e.0, e.1))

insert_all-append :
    {V : Type 0} (xs ys to : Map V) → insert_all (xs ++ ys) to ≡ insert_all ys (insert_all xs to)
unfolding insert_all
insert_all-append [] ys to = refl
insert_all-append ((k, v) ∷ xs) ys to = insert_all-append xs ys (insert k v to)

map-append : {A B : Type 0} (f : A → B) (xs ys : List A) → map f (xs ++ ys) ≡ map f xs ++ map f ys
map-append f [] ys = refl
map-append f (x ∷ xs) ys = ap (◌∷◌ (f x)) (map-append f xs ys)

name_all-step :
    {F : Type 0} (name k : Text) (xs ys : List (List Text × Value F)) (fields : Map (Value F))
    → insert_all (name_all name (map (λ e. (k ∷ e.0, e.1)) xs ++ ys)) fields
      ≡ insert_all (name_all name ys) (insert_all (name_all (field_key name k) xs) fields)
name_all-step name k xs ys fields =
    ap (λ m. insert_all m fields)
      (map-append (λ e. (named name e.0, e.1)) (map (λ e. (k ∷ e.0, e.1)) xs) ys)
    ∙ insert_all-append (name_all name (map (λ e. (k ∷ e.0, e.1)) xs)) (name_all name ys) fields
    ∙ ap (λ m. insert_all (name_all name ys) (insert_all m fields))
        (sym
          (map-map (λ (e : List Text × Value _). (k ∷ e.0, e.1)) (λ e. (named name e.0, e.1)) xs))

mutual
  unfolding full_flatten_json flatten_members scalars member_scalars is_clean all_clean insert_all

  flatten-clean :
      {F : Type 0} (name : Text) (v : Json F) (cs cb : Bool) (fields : Map (Value F))
      → is_clean v ≡ true
      → full_flatten_json name v cs cb fields
        ≡ (ok, insert_all (name_all name (scalars v cs cb)) fields)
  flatten-clean name (object ms) cs cb fields h = members-clean name ms cs cb fields h
  flatten-clean name (array xs) cs cb fields h = refl
  flatten-clean name (number t) cs cb fields h = refl
  flatten-clean name (str t) true cb fields h = refl
  flatten-clean name (str t) false cb fields h = refl
  flatten-clean name (boolean t) cs true fields h = refl
  flatten-clean name (boolean t) cs false fields h = refl
  flatten-clean name null cs cb fields h = refl
  flatten-clean name unexpected cs cb fields h = cc

  members-clean :
      {F : Type 0} (name : Text) (ms : Members F) (cs cb : Bool) (fields : Map (Value F))
      → all_clean ms ≡ true
      → flatten_members name ms cs cb fields
        ≡ (ok, insert_all (name_all name (member_scalars ms cs cb)) fields)
  members-clean name end cs cb fields h = refl
  members-clean name (member k v ms) cs cb fields h =
      let here = flatten-clean (field_key name k) v cs cb fields (ground arith) in
      ap (λ r. and_then r (flatten_members name ms cs cb)) here
      ∙ members-clean name ms cs cb _ (ground arith)
      ∙ ap (λ m. (ok, m))
          (sym (name_all-step name k (scalars v cs cb) (member_scalars ms cs cb) fields))

and_then-failed :
    {F : Type 0} (r : Outcome × Map (Value F)) (go : Map (Value F) → Outcome × Map (Value F))
    → r.0 ≡ failed
    → (and_then r go).0 ≡ failed
unfolding and_then
and_then-failed (ok, m) go h = cc
and_then-failed (failed, m) go h = refl
and_then-failed (panicked, m) go h = cc

mutual
  unfolding full_flatten_json flatten_members is_clean all_clean

  flatten-unclean :
      {F : Type 0} (name : Text) (v : Json F) (cs cb : Bool) (fields : Map (Value F))
      → is_clean v ≡ false
      → (full_flatten_json name v cs cb fields).0 ≡ failed
  flatten-unclean name (object ms) cs cb fields h = members-unclean name ms cs cb fields h
  flatten-unclean name unexpected cs cb fields h = refl
  flatten-unclean name (array xs) cs cb fields h = cc
  flatten-unclean name (number t) cs cb fields h = cc
  flatten-unclean name (str t) cs cb fields h = cc
  flatten-unclean name (boolean t) cs cb fields h = cc
  flatten-unclean name null cs cb fields h = cc

  members-unclean :
      {F : Type 0} (name : Text) (ms : Members F) (cs cb : Bool) (fields : Map (Value F))
      → all_clean ms ≡ false
      → (flatten_members name ms cs cb fields).0 ≡ failed
  members-unclean name end cs cb fields h = cc
  members-unclean name (member k v ms) cs cb fields h = elim (Bool-cases (is_clean v)) [
    | inl clean ↦
        ap (λ r. (and_then r (flatten_members name ms cs cb)).0)
          (flatten-clean (field_key name k) v cs cb fields clean)
        ∙ members-unclean name ms cs cb _ (ground arith)
    | inr bad ↦ and_then-failed _ _ (flatten-unclean (field_key name k) v cs cb fields bad)
  ]

join_two :
    (n k : Text) (path : List Text)
    → join ((n ++ b'_' ∷ k) ∷ path) (b'_' ∷ []) ≡ join (n ∷ k ∷ path) (b'_' ∷ [])
unfolding join
join_two n k [] = simp append_assoc
join_two n k (j ∷ path) = simp append_assoc

named-join :
    (c : ℕ) (name : Text) (path : List Text)
    → named (c ∷ name) path ≡ join ((c ∷ name) ∷ path) (b'_' ∷ [])
unfolding field_key
named-join c name [] = unfold join in refl
named-join c name (k ∷ path) =
    rw (suc_test (length name)) (named-join c (name ++ b'_' ∷ k) path ∙ join_two (c ∷ name) k path)

-- `FullFlattenJSON` of a value with a name: it fails exactly if a value of an unexpected type is
-- reached through objects. If not, it adds each scalar that is reached through objects, strings and
-- Booleans only if asked for, under the name and the keys on the way to it, joined by `_`; nothing
-- of an array is added. Where names coincide the last scalar is kept.
pub full_flatten_json_lem :
    {F : Type 0} (c : ℕ) (name : Text) (v : Json F) (cs cb : Bool) (fields : Map (Value F))
    → let r = full_flatten_json (c ∷ name) v cs cb fields in
      ((r.0 ≡ failed) ↔ (is_clean v ≡ false))
      × (is_clean v ≡ true
          → r ≡ (
            ok,
            insert_all
                (map (λ e. (join ((c ∷ name) ∷ e.0) (b'_' ∷ []), e.1)) (scalars v cs cb))
                fields,
          ))
full_flatten_json_lem c name v cs cb fields = (
  (
    λ e. elim (Bool-cases (is_clean v)) [
      | inl clean ↦ absurd (
          cc (
            ap (λ (r : Outcome × Map (Value _)). r.0)
                (flatten-clean (c ∷ name) v cs cb fields clean),
            e,
          ))
      | inr bad ↦ bad
    ],
    flatten-unclean (c ∷ name) v cs cb fields,
  ),
  λ clean.
      flatten-clean (c ∷ name) v cs cb fields clean
      ∙ ap (λ m. (ok, insert_all m fields)) (named_all (c) name (scalars v cs cb)),
)
  where
    named_all :
        {F : Type 0} (c : ℕ) (name : Text) (xs : List (List Text × Value F))
        → name_all (c ∷ name) xs ≡ map (λ e. (join ((c ∷ name) ∷ e.0) (b'_' ∷ []), e.1)) xs
    named_all c name [] = refl
    named_all c name (x ∷ xs) = rw (named-join c name x.0, named_all c name xs)
