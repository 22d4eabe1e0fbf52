-- ===== src/Elastic/Buckets.antt =====
-- The buckets of the indices.
use kubemonitor.Common.{
  ◌≡◌, ◌⊎◌, inl, inr, refl, sym, ap, subst, ◌∙◌, Bool, true, false, ◌&&◌, ◌||◌, any, arith, codes,
  text_eq_refl, List, [], ◌∷◌, ◌++◌, map, append_assoc, append-nil, if◌then◌else◌, Bool-cases, Text,
  text_eq, text_eq_sound, Map, lookup, lookup-insert, Distinct, insert-Distinct,
}
use mathlib.Core.List.{Permᴰ}
use kubemonitor.Filter.{Filter, matches}
use kubemonitor.Elastic.{Instance}
use kubemonitor.Elastic.Selection.{
  append_to, bucket_all, names_of, match_of, all_indices, category_of, categorize_indices,
}

-- The names of a category, in order.
abbrev pub of_category : (Text → Text) → Text → List Text → List Text
of_category category k [] = []
of_category category k (name ∷ names) =
    if text_eq (category name) k
    then name ∷ of_category category k names
    else of_category category k names

bucket_all_lem :
    (category : Text → Text) (k : Text) (names : List Text) (buckets : Map (List Text))
    → names_of (lookup k (bucket_all category names buckets))
      ≡ names_of (lookup k buckets) ++ of_category category k names
unfolding bucket_all append_to
bucket_all_lem category k [] buckets = sym (append-nil (names_of (lookup k buckets)))
bucket_all_lem category k (name ∷ names) buckets =
    bucket_all_lem category k names (append_to (category name) name buckets)
    ∙ elim (Bool-cases (text_eq (category name) k)) [
      | inl same ↦
          rw (lookup-insert (category name) k, same, append_to)
            (append_assoc (names_of (lookup (category name) buckets)) (name ∷ [])
                (of_category category k names)
              ∙ rw (text_eq_sound (category name) k same))
      | inr other ↦ rw (lookup-insert (category name) k, other, append_to)
    ]

bucket_all-Distinct :
    (category : Text → Text) (names : List Text) (buckets : Map (List Text))
    → Distinct buckets
    → Distinct (bucket_all category names buckets)
unfolding bucket_all append_to
bucket_all-Distinct category [] buckets d = d
bucket_all-Distinct category (name ∷ names) buckets d =
    bucket_all-Distinct category names _ (insert-Distinct (category name) _ buckets d)

any-Permᴰ : {A : Type 0} (p : A → Bool) {xs ys : List A} → Permᴰ xs ys → any p xs ≡ any p ys
any-Permᴰ p Permᴰ.nil = refl
any-Permᴰ p (Permᴰ.cons {a} {b} {l₁ = l₁} {l₂ = l₂} e d) =
    ap (λ x. p x || any p l₁) e ∙ ap (λ c. p b || c) (any-Permᴰ p d)
any-Permᴰ p (Permᴰ.swap {a} {b} {a' = a'} {b' = b'} {l = l} e₁ e₂) =
    ap (λ x. p x || (p b || any p l)) e₁ ∙ ap (λ x. p b' || (p x || any p l)) e₂ ∙ ground arith
any-Permᴰ p (Permᴰ.trans d₁ d₂) = any-Permᴰ p d₁ ∙ any-Permᴰ p d₂

-- No index is configured, or `_all` first.
abbrev pub TakesAll : List Text → Type 0
TakesAll [] = Unit
TakesAll (name ∷ names) = name ≡ codes "_all"

-- A configured name whose matcher takes the index, or the index itself if no matcher takes it.
abbrev pub IsMatch : Map Filter → Text → Text → Type 0
IsMatch matchers name c =
    (any (λ m. text_eq m.0 c && matches m.1 name) matchers ≡ true)
    ⊎ ((any (λ m. matches m.1 name) matchers ≡ false) × (c ≡ name))

-- The category of an index.
abbrev pub IsCategory : Instance → Text → Text → Type 0
IsCategory ins name c =
    (TakesAll ins.indices_include → c ≡ codes "_all")
    × (¬ TakesAll ins.indices_include → IsMatch ins.index_matchers name c)

IsMatch-cons :
    (k : Text) (matcher : Filter) (matchers : Map Filter) (name c : Text)
    → matches matcher name ≡ false
    → IsMatch matchers name c
    → IsMatch ((k, matcher) ∷ matchers) name c
IsMatch-cons k matcher matchers name c leaves (inl there) = inl (ground (arith, there, leaves))
IsMatch-cons k matcher matchers name c leaves (inr (nowhere, same)) =
    inr (ground (arith, leaves, nowhere), same)

match_of-IsMatch :
    (matchers : Map Filter) (name : Text) → IsMatch matchers name (match_of matchers name)
unfolding match_of
match_of-IsMatch [] name = inr (refl, refl)
match_of-IsMatch ((c, matcher) ∷ matchers) name = elim (Bool-cases (matches matcher name)) [
  | inl takes ↦ inl (rw (takes, match_of) (rw (text_eq_refl c) refl))
  | inr leaves ↦ subst (IsMatch ((c, matcher) ∷ matchers) name) (sym (rw (leaves, match_of) refl)) (
      IsMatch-cons c matcher matchers name (match_of matchers name) leaves
        (match_of-IsMatch matchers name))
]

all_indices-TakesAll :
    (names : List Text)
    → ((all_indices names ≡ true) × TakesAll names)
      ⊎ ((all_indices names ≡ false) × ¬ TakesAll names)
unfolding all_indices
all_indices-TakesAll [] = inl (refl, tt)
all_indices-TakesAll (name ∷ names) = elim (Bool-cases (text_eq name (codes "_all"))) [
  | inl e ↦ inl (e, text_eq_sound name (codes "_all") e)
  | inr e ↦ inr (e, λ same. cc (e, text_eq_refl name, same))
]

-- A range over the matchers visits each once, in an order of its own for each index.
abbrev pub IsRange : Instance → (Text → Map Filter → Map Filter) → Type 0
IsRange ins range = (name : Text) → Permᴰ (range name ins.index_matchers) ins.index_matchers

category_of-IsCategory :
    (ins : Instance) (range : Text → Map Filter → Map Filter) (name : Text)
    → IsRange ins range
    → IsCategory ins name (category_of ins range name)
unfolding category_of
category_of-IsCategory ins range name ranges = elim (all_indices-TakesAll ins.indices_include) [
  | inl (e, all) ↦ ((λ h. rw (e, category_of) refl), λ h. absurd (h all))
  | inr (e, not_all) ↦ (
    (λ h. absurd (not_all h)),
    λ h.
        rw (e, category_of)
          (elim (match_of-IsMatch (range name ins.index_matchers) name) [
            | inl there ↦ inl (sym (any-Permᴰ _ (ranges name)) ∙ there)
            | inr (nowhere, same) ↦ inr (sym (any-Permᴰ _ (ranges name)) ∙ nowhere, same)
          ]),
  )
]

-- In whatever order each range over the matchers goes, an index belongs to a configured name whose
-- matcher takes it, or to itself if no matcher takes it; without a configured name, or with `_all`
-- in front, to `_all`. The bucket of a category holds the indices that belong to it, each once and
-- in the order of the range over the indices, and no category has two buckets.
pub categorize_indices_lem :
    {V : Type 0} (ins : Instance) (range : Text → Map Filter → Map Filter) (indices : Map V)
    → IsRange ins range
    → (category : Text → Text) × ((name : Text) → IsCategory ins name (category name))
      × Distinct (categorize_indices ins range indices)
      × ((k : Text)
          → names_of (lookup k (categorize_indices ins range indices))
            ≡ of_category category k (map (λ (i : Text × V). i.0) indices))
unfolding categorize_indices
categorize_indices_lem {V} ins range indices ranges = (
  category_of ins range,
  (λ name. category_of-IsCategory ins range name ranges),
  bucket_all-Distinct (category_of ins range) (map (λ (i : Text × V). i.0) indices) [] tt,
  λ k.
      bucket_all_lem (category_of ins range) k (map (λ (i : Text × V). i.0) indices) []
      ∙ unfold lookup in refl,
)
