-- ===== src/Sample/Series.antt =====
-- The time series of a sample.
use kubemonitor.Common.{
  ℕ, ◌+◌, ◌*◌, ◌/◌, ◌≤◌, ◌≡◌, ◌≢◌, refl, true, none, some, List, [], ◌∷◌, map, arith, if◌then◌else◌,
  Text, codes, text_eq, text_eq_iff, Map, lookup, is_some,
}
use kubemonitor.Common.Int.{pos}
use kubemonitor.Value.{Floats, to_float64}
use kubemonitor.Sample.{
  Sample, TimeSeries, at_precision, convert_time_series, unix_milli, metric_name_label,
  label_replacer,
}

-- A time from 1970 on, in milliseconds, is rounded down at the precision `s` to a whole second, and
-- at `m` to a whole minute; at `ms` it is kept.
at_precision_lem :
    (t : ℕ)
    → (at_precision (codes "s") (pos t) ≡ pos (t / 1000 * 1000))
      × (at_precision (codes "m") (pos t) ≡ pos (t / 60000 * 60000))
      × (at_precision (codes "ms") (pos t) ≡ pos t)
unfolding at_precision
at_precision_lem t = (ground arith, ground arith, refl)

-- How often a label name stands in a series.
abbrev pub occurrences : Text → List (Text × Text) → ℕ
occurrences k [] = 0
occurrences k ((j, v) ∷ r) = (if text_eq j k then 1 else 0) + occurrences k r

abbrev pub renamed : Map Text → List (Text × Text)
renamed = map (λ kv. (label_replacer kv.0, kv.1))

occurrences_one :
    (k n : Text) (m : Map Text)
    → is_some (lookup k m) ≡ true
    → label_replacer k ≡ n
    → 1 ≤ occurrences n (renamed m)
unfolding lookup
occurrences_one k n [] h e = cc
occurrences_one k n ((i, v) ∷ m) h e =
    ground (arith, text_eq_iff i k, text_eq_iff (label_replacer i) n, occurrences_one k n m)

occurrences_two :
    (k j n : Text) (m : Map Text)
    → k ≢ j
    → is_some (lookup k m) ≡ true
    → is_some (lookup j m) ≡ true
    → label_replacer k ≡ n
    → label_replacer j ≡ n
    → 2 ≤ occurrences n (renamed m)
unfolding lookup
occurrences_two k j n [] ne hk hj ek ej = cc
occurrences_two k j n ((i, v) ∷ m) ne hk hj ek ej = ground (
  arith,
  text_eq_iff i k,
  text_eq_iff i j,
  text_eq_iff (label_replacer i) n,
  occurrences_one k n m,
  occurrences_one j n m,
  occurrences_two k j n m ne,
)

-- `ConvertTimeSeries` at milliseconds, for the samples that it converts.
pub convert-some :
    {F : Type 0} ⦃fl : Floats F⦄ (item : Sample F) (v : F)
    → to_float64 item.value ≡ some v
    → convert_time_series (codes "ms") item
      ≡ some (record {
        labels = (metric_name_label, item.metric) ∷ renamed item.labels;
        samples = (v, unix_milli item.timestamp) ∷ [];
      })
unfolding convert_time_series
convert-some item v e = rw (e, convert_time_series)

pub convert-none :
    {F : Type 0} ⦃fl : Floats F⦄ (p : Text) (item : Sample F)
    → to_float64 item.value ≡ none
    → convert_time_series p item ≡ none
unfolding convert_time_series
convert-none p item e = rw (e, convert_time_series)

-- Two different labels of a sample that differ only in `-`, `.`, space and `/` give a series with
-- the same label name twice.
convert_clash :
    {F : Type 0} ⦃fl : Floats F⦄ (item : Sample F) (v : F) (k j : Text)
    → to_float64 item.value ≡ some v
    → k ≢ j
    → is_some (lookup k item.labels) ≡ true
    → is_some (lookup j item.labels) ≡ true
    → label_replacer k ≡ label_replacer j
    → (series : TimeSeries F) × (convert_time_series (codes "ms") item ≡ some series)
      × (2 ≤ occurrences (label_replacer j) series.labels)
convert_clash item v k j e ne hk hj same = (
  record {
    labels = (metric_name_label, item.metric) ∷ renamed item.labels;
    samples = (v, unix_milli item.timestamp) ∷ [];
  },
  convert-some item v e,
  omega (arith, occurrences_two k j (label_replacer j) item.labels ne hk hj same refl),
)
