-- ===== src/Sample/Names.antt =====
-- Metric names and labels of a new sample.

use kubemonitor.Common.{
  ℕ, ◌≡◌, ◌≢◌, refl, ap, ◌∙◌, Option, none, some, List, [], ◌∷◌, ◌++◌, All, arith, ◌==◌,
  if◌then◌else◌, Text, length, Map, lookup, insert_all, Distinct, or_else, insert_all-Distinct,
  lookup-insert_all,
}
use kubemonitor.Value.{Value}
use kubemonitor.Sample.{new_sample, merge_labels, metric_replacer}

-- The bytes that no metric name holds: `-`, `.`, space, `'` and `"`.
abbrev pub IsPlain : ℕ → Type 0
IsPlain c = (c ≢ b'-') × (c ≢ b'.') × (c ≢ 32) × (c ≢ b'\'') × (c ≢ b'"')

metric_replacer-All : (s : Text) → All IsPlain (metric_replacer s)
unfolding metric_replacer
metric_replacer-All [] = tt
metric_replacer-All (c ∷ s) = (ground arith, metric_replacer-All s)

metric_replacer_fixed : (s : Text) → All IsPlain s → metric_replacer s ≡ s
unfolding metric_replacer
metric_replacer_fixed [] h = refl
metric_replacer_fixed (c ∷ s) h = ground (arith, metric_replacer_fixed s h.1)

-- The name of a new sample is the prefix, `_` and the metric with `-`, `.`, space and both quotes
-- replaced by `_`, or the latter alone if the prefix is empty; a metric that holds none of these
-- bytes is kept; and the part behind the prefix never holds them.
new_sample-metric :
    {F : Type 0} (prefix metric : Text) (value : Value F) (labels : List (Map Text))
    → (shown : Text) × ((new_sample prefix metric value labels).metric
        ≡ (if length prefix == 0 then shown else prefix ++ b'_' ∷ shown))
      × All IsPlain shown
      × (All IsPlain metric → shown ≡ metric)
unfolding new_sample
new_sample-metric prefix metric value labels =
    (metric_replacer metric, refl, metric_replacer-All metric, metric_replacer_fixed metric)

-- What the last map that has the key says.
abbrev pub last_of : List (Map Text) → Text → Option Text
last_of [] k = none
last_of (m ∷ ms) k = or_else (last_of ms k) (lookup k m)

or_else_assoc : (a b c : Option Text) → or_else a (or_else b c) ≡ or_else (or_else a b) c
or_else_assoc (some x) b c = refl
or_else_assoc none b c = refl

lookup-merge_labels :
    (ms : List (Map Text)) (to : Map Text) (k : Text)
    → All Distinct ms
    → lookup k (merge_labels ms to) ≡ or_else (last_of ms k) (lookup k to)
unfolding merge_labels
lookup-merge_labels [] to k h = refl
lookup-merge_labels (m ∷ ms) to k h =
    lookup-merge_labels ms (insert_all m to) k h.1
    ∙ ap (or_else (last_of ms k)) (lookup-insert_all k m to h.0)
    ∙ or_else_assoc (last_of ms k) (lookup k m) (lookup k to)

merge_labels-Distinct :
    (ms : List (Map Text)) (to : Map Text) → Distinct to → Distinct (merge_labels ms to)
unfolding merge_labels
merge_labels-Distinct [] to d = d
merge_labels-Distinct (m ∷ ms) to d =
    merge_labels-Distinct ms (insert_all m to) (insert_all-Distinct m to d)

or_else-none : (o : Option Text) → or_else o none ≡ o
or_else-none none = refl
or_else-none (some v) = refl

-- The labels of a new sample are those of the given maps; where several have a key, the last one
-- wins. No label is there twice.
pub new_sample-labels :
    {F : Type 0} (prefix metric : Text) (value : Value F) (labels : List (Map Text))
    → All Distinct labels
    → Distinct (new_sample prefix metric value labels).labels
      × ((k : Text) → lookup k (new_sample prefix metric value labels).labels ≡ last_of labels k)
unfolding new_sample
new_sample-labels prefix metric value labels h = (
  merge_labels-Distinct labels [] tt,
  λ k. lookup-merge_labels labels [] k h ∙ unfold lookup in or_else-none (last_of labels k),
)
