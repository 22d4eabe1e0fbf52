-- ===== src/Elastic/Latest.antt =====
-- Which indices of a bucket are gathered, and how the buckets are filled.
use kubemonitor.Common.{
  ℕ, zero, suc, ◌≤◌, ◌<◌, ◌≡◌, refl, ap, ◌∙◌, some, List, [], ◌∷◌, ◌++◌, map, reverse, arith,
  if◌then◌else◌, length, get_elem?, take, take_all, length-reverse, Text,
}
use mathlib.Core.List.{Perm, reverse-cons, reverse-reverse}
use kubemonitor.Common.Int.{pos, negsuc, ltb_ℤ}
use kubemonitor.Elastic.Sorting.{
  sort_strings, Ascending, length-sort_strings, sort_strings-Ascending, sort_strings-Permᴰ,
}
use kubemonitor.Elastic.Selection.{pick_down, tracked}

snoc_get : (xs : List Text) (x : Text) → get_elem? (xs ++ x ∷ []) (length xs) ≡ some x
snoc_get [] x = refl
snoc_get (y ∷ xs) x = snoc_get xs x

get_append : (xs ys : List Text) (i : ℕ) → i < length xs → get_elem? (xs ++ ys) i ≡ get_elem? xs i
get_append [] ys i h = absurd (omega arith)
get_append (x ∷ xs) ys zero h = refl
get_append (x ∷ xs) ys (suc i) h = get_append xs ys i (omega arith)

-- The picks only look below their start.
pick_below :
    (rounds above : ℕ) (xs ys : List Text)
    → above ≤ length xs
    → pick_down rounds above (xs ++ ys) ≡ pick_down rounds above xs
unfolding pick_down
pick_below zero above xs ys h = refl
pick_below (suc rounds) zero xs ys h = refl
pick_below (suc rounds) (suc i) xs ys h =
    rw (get_append xs ys i (omega arith), pick_below rounds i xs ys (omega arith))

-- From the end of a list in reverse, the picks are the first of the list.
pick_reversed :
    (rounds : ℕ) (xs : List Text)
    → rounds ≤ length xs
    → pick_down rounds (length xs) (reverse xs) ≡ map (λ x. some x) (take rounds xs)
unfolding pick_down
pick_reversed zero xs h = refl
pick_reversed (suc rounds) [] h = absurd (omega arith)
pick_reversed (suc rounds) (x ∷ xs) h = rw (
  reverse-cons,
  rw (length-reverse xs) at (snoc_get (reverse xs) x),
  pick_below rounds (length xs) (reverse xs) (x ∷ []) (omega (arith, length-reverse xs)),
  pick_reversed rounds xs (omega arith),
)

-- From the end of any list.
pick_last :
    (rounds : ℕ) (names : List Text)
    → rounds ≤ length names
    → pick_down rounds (length names) names ≡ map (λ x. some x) (take rounds (reverse names))
pick_last rounds names h =
    rw (reverse-reverse, length-reverse) at
      (pick_reversed rounds (reverse names) (omega (arith, length-reverse names)))

take_clipped :
    (n c : ℕ) (xs : List Text)
    → length xs ≡ c
    → take (if ltb_ℤ (pos n) (pos c) then n else c) xs ≡ take n xs
take_clipped n c xs h = ground (arith, take_all n xs, take_all c xs)

clipped_le : (n c : ℕ) → (if ltb_ℤ (pos n) (pos c) then n else c) ≤ c
clipped_le n c = ground arith

-- With a positive limit of `n` indices, those gathered of a bucket are the last `n` of its names in
-- ascending order, or all if there are fewer, and the last comes first; without one they are all
-- of the bucket, from its end. No index is out of range.
pub tracked_lem :
    (n : ℕ) (names : List Text)
    → (sorted : List Text) × Ascending sorted
      × Perm sorted names
      × (tracked (pos (suc n)) names ≡ map (λ x. some x) (take (suc n) (reverse sorted)))
      × (tracked (pos 0) names ≡ map (λ x. some x) (reverse names))
      × (tracked (negsuc n) names ≡ map (λ x. some x) (reverse names))
unfolding tracked
tracked_lem n names = (
  sort_strings names,
  sort_strings-Ascending names,
  ∣ sort_strings-Permᴰ names ∣₁,
  limited,
  all,
  all,
)
  where
    all : pick_down (length names) (length names) names ≡ map (λ x. some x) (reverse names)
    all =
        pick_last (length names) names (omega arith)
        ∙ rw (take_all (length names) (reverse names) (omega (arith, length-reverse names)))

    limited :
        pick_down
          (if ltb_ℤ (pos (suc n)) (pos (length names)) then suc n else length names)
          (length names)
          (sort_strings names)
        ≡ map (λ x. some x) (take (suc n) (reverse (sort_strings names)))
    limited =
        let sorted : List Text = sort_strings names in
        let k : ℕ = if ltb_ℤ (pos (suc n)) (pos (length names)) then suc n else length names in
        rw (length-sort_strings names) at (
          pick_last k sorted
            (omega (arith, clipped_le (suc n) (length names), length-sort_strings names)))
        ∙ ap (map (λ x. some x)) (
            take_clipped (suc n) (length names) (reverse sorted)
              (length-reverse sorted ∙ length-sort_strings names))
