-- ===== src/Elastic/Sorting.antt =====
-- `sort.Strings` of Go's library: by bytes, ascending.
use kubemonitor.Common.{
  suc, length, Bool, true, false, ◌&&◌, ◌||◌, List, [], ◌∷◌, ◌==◌, ltb, if◌then◌else◌, Text, ◌≡◌,
  inl, inr, arith, refl, All, Bool-cases,
}
use mathlib.Core.List.{Permᴰ}
use mathlib.Core.List.Permᴰ

-- `a <= b` on strings.
unfoldable pub text_le : Text → Text → Bool
text_le [] b = true
text_le (a ∷ s) [] = false
text_le (a ∷ s) (b ∷ t) = ltb a b || ((a == b) && text_le s t)

unfoldable pub insert_sorted : Text → List Text → List Text
insert_sorted x [] = x ∷ []
insert_sorted x (y ∷ ys) = if text_le x y then x ∷ y ∷ ys else y ∷ insert_sorted x ys

unfoldable pub sort_strings : List Text → List Text
unfolding insert_sorted
sort_strings [] = []
sort_strings (x ∷ xs) = insert_sorted x (sort_strings xs)

text_le_total : (a b : Text) → text_le a b ≡ false → text_le b a ≡ true
unfolding text_le
text_le_total [] b h = cc
text_le_total (a ∷ s) [] h = refl
text_le_total (a ∷ s) (b ∷ t) h = ground (arith, text_le_total s t)

text_le_trans : (a b c : Text) → text_le a b ≡ true → text_le b c ≡ true → text_le a c ≡ true
unfolding text_le
text_le_trans [] b c h k = refl
text_le_trans (a ∷ s) [] c h k = cc
text_le_trans (a ∷ s) (b ∷ t) [] h k = cc
text_le_trans (a ∷ s) (b ∷ t) (c ∷ u) h k = ground (arith, text_le_trans s t u)

-- Not below any of the names.
abbrev pub AtMost : List Text → Text → Type 0
AtMost names x = All (λ y. text_le x y ≡ true) names

-- Ascending: each name is at most every later one.
abbrev pub Ascending : List Text → Type 0
Ascending [] = Unit
Ascending (x ∷ xs) = AtMost xs x × Ascending xs

AtMost-trans :
    (x y : Text) (names : List Text) → text_le x y ≡ true → AtMost names y → AtMost names x
AtMost-trans x y [] h a = tt
AtMost-trans x y (z ∷ names) h a = (text_le_trans x y z h a.0, AtMost-trans x y names h a.1)

insert_sorted-AtMost :
    (x y : Text) (names : List Text)
    → text_le y x ≡ true
    → AtMost names y
    → AtMost (insert_sorted x names) y
unfolding insert_sorted
insert_sorted-AtMost x y [] h a = (h, tt)
insert_sorted-AtMost x y (z ∷ names) h a = elim (Bool-cases (text_le x z)) [
  | inl le ↦ rw (le, insert_sorted) (h, a)
  | inr gt ↦ rw (gt, insert_sorted) (a.0, insert_sorted-AtMost x y names h a.1)
]

insert_sorted-Ascending :
    (x : Text) (names : List Text) → Ascending names → Ascending (insert_sorted x names)
unfolding insert_sorted
insert_sorted-Ascending x [] s = (tt, tt)
insert_sorted-Ascending x (y ∷ names) s = elim (Bool-cases (text_le x y)) [
  | inl le ↦ rw (le, insert_sorted) ((le, AtMost-trans x y names le s.0), s)
  | inr gt ↦
      rw (gt, insert_sorted)
        (
          insert_sorted-AtMost x y names (text_le_total x y gt) s.0,
          insert_sorted-Ascending x names s.1,
        )
]

length-insert_sorted :
    (x : Text) (names : List Text) → length (insert_sorted x names) ≡ suc (length names)
unfolding insert_sorted
length-insert_sorted x [] = refl
length-insert_sorted x (y ∷ names) = ground (arith, length-insert_sorted x names)

pub length-sort_strings : (names : List Text) → length (sort_strings names) ≡ length names
unfolding sort_strings
length-sort_strings [] = refl
length-sort_strings (x ∷ names) =
    omega (arith, length-insert_sorted x (sort_strings names), length-sort_strings names)

pub sort_strings-Ascending : (names : List Text) → Ascending (sort_strings names)
unfolding sort_strings
sort_strings-Ascending [] = tt
sort_strings-Ascending (x ∷ names) =
    insert_sorted-Ascending x (sort_strings names) (sort_strings-Ascending names)

insert_sorted-Permᴰ : (x : Text) (names : List Text) → Permᴰ (insert_sorted x names) (x ∷ names)
unfolding insert_sorted
insert_sorted-Permᴰ x [] = Permᴰ.refl (x ∷ [])
insert_sorted-Permᴰ x (y ∷ names) = elim (Bool-cases (text_le x y)) [
  | inl le ↦ rw (le, insert_sorted) (Permᴰ.refl (x ∷ y ∷ names))
  | inr gt ↦
      rw (gt, insert_sorted)
        (Permᴰ.trans (Permᴰ.cons refl (insert_sorted-Permᴰ x names)) (Permᴰ.swap refl refl))
]

pub sort_strings-Permᴰ : (names : List Text) → Permᴰ (sort_strings names) names
unfolding sort_strings
sort_strings-Permᴰ [] = Permᴰ.nil
sort_strings-Permᴰ (x ∷ names) =
    Permᴰ.trans (insert_sorted-Permᴰ x (sort_strings names))
      (Permᴰ.cons refl (sort_strings-Permᴰ names))
