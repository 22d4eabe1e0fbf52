-- ===== src/Elastic/Selection.antt =====
-- Which indices are gathered: the buckets of the indices, and those of a bucket.
use kubemonitor.Common.{
  ℕ, zero, suc, Bool, true, Option, none, some, List, [], ◌∷◌, ◌++◌, map, length, get_elem?,
  if◌then◌else◌, Text, codes, text_eq, Map, lookup, insert,
}
use kubemonitor.Common.Int.{ℤ, pos, ltb_ℤ}
use kubemonitor.Filter.{Filter, matches}
use kubemonitor.Elastic.{Instance}
use kubemonitor.Elastic.Sorting.{sort_strings}

-- The configured name of the first matcher that matches, or the index itself.
unfoldable pub match_of : Map Filter → Text → Text
match_of [] index_name = index_name
match_of ((name, matcher) ∷ matchers) index_name =
    if matches matcher index_name then name else match_of matchers index_name

abbrev pub names_of : Option (List Text) → List Text
names_of none = []
names_of (some names) = names

-- `m[k] = append(m[k], name)`.
unfoldable pub append_to : Text → Text → Map (List Text) → Map (List Text)
append_to k name m = insert k (names_of (lookup k m) ++ name ∷ []) m

-- A loop over the names that puts each into the bucket of its category.
unfoldable pub bucket_all : (Text → Text) → List Text → Map (List Text) → Map (List Text)
unfolding append_to
bucket_all category [] buckets = buckets
bucket_all category (name ∷ names) buckets =
    bucket_all category names (append_to (category name) name buckets)

-- All in one bucket if no index is configured, or `_all` first.
unfoldable pub all_indices : List Text → Bool
all_indices [] = true
all_indices (x ∷ xs) = text_eq x (codes "_all")

-- With the matchers in the order of the range for this index.
unfoldable pub category_of : Instance → (Text → Map Filter → Map Filter) → Text → Text
category_of ins range name =
    if all_indices ins.indices_include
    then codes "_all"
    else match_of (range name ins.index_matchers) name

unfoldable pub categorize_indices :
    {V : Type 0} → Instance → (Text → Map Filter → Map Filter) → Map V → Map (List Text)
unfolding bucket_all category_of
categorize_indices {V} ins range indices =
    bucket_all (category_of ins range) (map (λ (i : Text × V). i.0) indices) []

-- The rounds of the loop at the indices `above - 1`, `above - 2`, ...; `none` is out of range.
unfoldable pub pick_down : ℕ → ℕ → List Text → List (Option Text)
pick_down zero above names = []
pick_down (suc rounds) zero names = none ∷ []
pick_down (suc rounds) (suc i) names = get_elem? names i ∷ pick_down rounds i names

-- The indices of a bucket that are gathered: all, or the last of the sorted ones.
unfoldable pub tracked : ℤ → List Text → List (Option Text)
unfolding pick_down
tracked (pos (suc n)) names =
    let count = length names in
    pick_down (if ltb_ℤ (pos (suc n)) (pos count) then suc n else count) count (sort_strings names)
tracked _ names = pick_down (length names) (length names) names
