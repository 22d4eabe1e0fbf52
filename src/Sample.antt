-- ===== src/Sample.antt =====
-- pkg/types/sample.go and sample_list.go, with pkg/tagx and internal/labels: samples, their labels
-- and the Prometheus time series that a sample becomes.
pub mod Names
pub mod Grown
pub mod Series
pub mod Tests
use kubemonitor.Common.{
  ℕ, ◌-◌, ◌*◌, ◌/◌, ◌^◌, Bool, ◌||◌, Option, none, some, List, [], ◌∷◌, ◌++◌, map, length, ◌==◌,
  if◌then◌else◌, Text, codes, text_eq, Map, insert_all,
}
use kubemonitor.Common.Int.{ℤ, pos, negsuc, ◌*ℤ◌, ◌-ℤ◌, quot, rem, eq_ℤ}
use kubemonitor.Value.{Floats, Value, to_float64}
use kubemonitor.SafeList.{SafeList, push_front, push_front_n}

-- A `time.Time` is the number of nanoseconds since 1970, which may be negative.
abbrev pub Time : Type 0
Time = ℤ

-- The zero value of `time.Time`: the first instant of year 1.
abbrev pub zero_time_value : Time
zero_time_value = negsuc (62135596800 * 10 ^ 9 - 1)

-- `t.IsZero()`.
unfoldable pub is_zero : Time → Bool
is_zero t = eq_ℤ t zero_time_value

-- `t.UnixMilli()`: rounded down.
unfoldable pub unix_milli : Time → ℤ
unix_milli (pos n) = pos (n / 1000000)
unix_milli (negsuc n) = negsuc (n / 1000000)

pub record Sample (F : Type 0) : Type 0 where
  pub metric : Text
  pub timestamp : Time
  pub value : Value F
  pub labels : Map Text

-- `prompb.TimeSeries` with one sample: labels in their order, a value and a time in milliseconds.
pub record TimeSeries (F : Type 0) : Type 0 where
  pub labels : List (Text × Text)
  pub samples : List (F × ℤ)

underscore : ℕ
underscore = b'_'

-- The bytes that `metricReplacer` and `labelReplacer` turn into `_`.
metric_replaced : ℕ → Bool
metric_replaced c = (c == b'-') || (c == b'.') || (c == 32) || (c == b'\'') || (c == b'"')

label_replaced : ℕ → Bool
label_replaced c = (c == b'-') || (c == b'.') || (c == 32) || (c == b'/')

replace : (ℕ → Bool) → Text → Text
unfolding underscore
replace p s = map (λ c. if p c then underscore else c) s

unfoldable pub metric_replacer : Text → Text
unfolding replace metric_replaced
metric_replacer s = replace metric_replaced s

unfoldable pub label_replacer : Text → Text
unfolding replace label_replaced
label_replacer s = replace label_replaced s

-- The loop of `NewSample` over its variadic label maps.
unfoldable pub merge_labels : List (Map Text) → Map Text → Map Text
unfolding insert_all
merge_labels [] to = to
merge_labels (m ∷ ms) to = merge_labels ms (insert_all m to)

unfoldable pub new_sample : {F : Type 0} → Text → Text → Value F → List (Map Text) → Sample F
unfolding metric_replacer merge_labels
new_sample prefix metric value labels = record {
  metric =
      if length prefix == 0
      then metric_replacer metric
      else prefix ++ b'_' ∷ metric_replacer metric;
  timestamp = zero_time_value;
  value = value;
  labels = merge_labels labels [];
}

-- The time of a series at a precision: whole seconds, whole minutes, or milliseconds.
unfoldable pub at_precision : Text → ℤ → ℤ
unfolding quot rem ◌*ℤ◌ ◌-ℤ◌ text_eq
at_precision precision t =
    if text_eq precision (codes "s")
    then quot t 1000 *ℤ pos 1000
    else if text_eq precision (codes "m")
    then (let ts = quot t 1000 *ℤ pos 1000 in ts -ℤ rem ts 60000)
    else t

-- `model.MetricNameLabel`.
abbrev pub metric_name_label : Text
metric_name_label = codes "__name__"

unfoldable pub convert_time_series :
    {F : Type 0} → ⦃fl : Floats F⦄ → Text → Sample F → Option (TimeSeries F)
unfolding at_precision label_replacer unix_milli
convert_time_series precision item = elim (to_float64 item.value) [
  | none ↦ none
  | some value ↦ some (record {
    labels =
        (metric_name_label, item.metric)
        ∷ map (λ (kv : Text × Text). (label_replacer kv.0, kv.1)) item.labels;
    samples = (value, at_precision precision (unix_milli item.timestamp)) ∷ [];
  })
]

-- `SetTime` leaves a sample alone at the zero time and at the Unix epoch.
unfoldable pub set_time : {F : Type 0} → Time → Sample F → Sample F
unfolding is_zero
set_time t s = if is_zero t || eq_ℤ t (pos 0) then s else record s { timestamp = t }

-- A `SampleList` holds pointers; `none` is a nil pointer.
abbrev pub SampleList : Type 0 → Type 0
SampleList F = SafeList (Option (Sample F))

unfoldable pub push_sample :
    {F : Type 0} → Text → Text → Value F → List (Map Text) → SampleList F → SampleList F
unfolding new_sample push_front
push_sample prefix metric value labels l =
    push_front (some (new_sample prefix metric value labels)) l

-- The fields of a map, in the order of its `range`.
unfoldable pub push_samples :
    {F : Type 0} → Text → Map (Value F) → List (Map Text) → SampleList F → SampleList F
unfolding new_sample push_front_n
push_samples {F} prefix fields labels l =
    push_front_n (map (λ (f : Text × Value F). some (new_sample prefix f.0 f.1 labels)) fields) l

-- `tagx.Copy` and `labels.Labels`.
unfoldable pub copy : Map Text → Map Text
unfolding insert_all
copy raw = insert_all raw []

-- `labels.GlobalLabels`.
unfoldable pub global_labels : Map Text
global_labels = (codes "source", codes "kubemonitor") ∷ []
