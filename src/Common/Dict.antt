-- ===== src/Common/Dict.antt =====
-- Go maps with string keys, as association lists. A `range` over a map goes through the list in its
-- order; Go leaves that order open, so statements are about every list, or about lookups only.

use mathlib.Core.Path.{◌≡◌, refl}
use mathlib.Core.Bool.{Bool, true, false}
use mathlib.Core.Option.{Option, none, some}
use mathlib.Core.List.{List, [], ◌∷◌}
use native.Mathlib.Omega.{arith}
use kubemonitor.Common.Tests.{if◌then◌else◌}
use kubemonitor.Common.Strings.{Text, text_eq, text_eq_iff, text_eq_refl}

abbrev pub Map {ℓ} : Type ℓ → Type ℓ
Map V = List (Text × V)

module _ {ℓ} {V : Type ℓ} where
  -- `v, ok := m[k]`.
  unfoldable pub lookup : Text → Map V → Option V
  lookup k [] = none
  lookup k ((j, v) ∷ m) = if text_eq j k then some v else lookup k m

  abbrev pub is_some : Option V → Bool
  is_some none = false
  is_some (some v) = true

  -- `m[k] = v`.
  unfoldable pub insert : Text → V → Map V → Map V
  insert k v [] = (k, v) ∷ []
  insert k v ((j, w) ∷ m) = if text_eq j k then (j, v) ∷ m else (j, w) ∷ insert k v m

  -- `delete(m, k)`.
  unfoldable pub delete : Text → Map V → Map V
  delete k [] = []
  delete k ((j, w) ∷ m) = if text_eq j k then delete k m else (j, w) ∷ delete k m

  -- `for k, v := range from { to[k] = v }`.
  unfoldable pub insert_all : Map V → Map V → Map V
  unfolding insert
  insert_all [] to = to
  insert_all ((k, v) ∷ from) to = insert_all from (insert k v to)

  pub lookup-insert :
      (k j : Text) (v : V) (m : Map V)
      → lookup j (insert k v m) ≡ (if text_eq k j then some v else lookup j m)
  unfolding lookup insert
  lookup-insert k j v [] = refl
  lookup-insert k j v ((i, w) ∷ m) =
      ground (arith, text_eq_iff k j, text_eq_iff i k, text_eq_iff i j, lookup-insert k j v m)

  pub lookup-delete :
      (k j : Text) (m : Map V) → lookup j (delete k m) ≡ (if text_eq k j then none else lookup j m)
  unfolding lookup delete
  lookup-delete k j [] = ground arith
  lookup-delete k j ((i, w) ∷ m) =
      ground (arith, text_eq_iff k j, text_eq_iff i k, text_eq_iff i j, lookup-delete k j m)

  pub lookup-insert_self : (k : Text) (v : V) (m : Map V) → lookup k (insert k v m) ≡ some v
  lookup-insert_self k v m = simp (lookup-insert, text_eq_refl)

  -- No key twice, as in every Go map.
  abbrev pub Distinct : Map V → Type ℓ
  Distinct [] = Unit
  Distinct ((k, v) ∷ m) = (lookup k m ≡ none) × Distinct m

  -- The value of the first map that has the key.
  abbrev pub or_else : Option V → Option V → Option V
  or_else (some v) o = some v
  or_else none o = o

  pub insert-Distinct : (k : Text) (v : V) (m : Map V) → Distinct m → Distinct (insert k v m)
  unfolding insert
  insert-Distinct k v [] d = (unfold lookup in refl, tt)
  insert-Distinct k v ((j, w) ∷ m) d =
      ground (arith, insert-Distinct k v m, lookup-insert k j v m, text_eq_iff k j, text_eq_iff j k)

  pub insert_all-Distinct : (from to : Map V) → Distinct to → Distinct (insert_all from to)
  unfolding insert_all
  insert_all-Distinct [] to d = d
  insert_all-Distinct ((k, v) ∷ from) to d =
      insert_all-Distinct from (insert k v to) (insert-Distinct k v to d)

  pub lookup-insert_all :
      (j : Text) (from to : Map V)
      → Distinct from
      → lookup j (insert_all from to) ≡ or_else (lookup j from) (lookup j to)
  unfolding insert_all lookup
  lookup-insert_all j [] to d = refl
  lookup-insert_all j ((k, v) ∷ from) to d =
      ground (
        arith,
        lookup-insert_all j from (insert k v to) d.1,
        lookup-insert k j v to,
        text_eq_iff k j,
      )

  pub delete-Distinct : (k : Text) (m : Map V) → Distinct m → Distinct (delete k m)
  unfolding delete
  delete-Distinct k [] d = tt
  delete-Distinct k ((j, w) ∷ m) d =
      ground (arith, delete-Distinct k m, lookup-delete k j m, text_eq_iff k j, text_eq_iff j k)

  pub insert-insert : (k : Text) (v w : V) (m : Map V) → insert k v (insert k w m) ≡ insert k v m
  unfolding insert
  insert-insert k v w [] = rw text_eq_refl
  insert-insert k v w ((j, u) ∷ m) = ground (arith, insert-insert k v w m, text_eq_iff j k)
