-- ===== src/Conv.antt =====
-- pkg/conv/conv.go: the conversions of configuration and command results to `int` and `float64`.
pub mod Laws
pub mod Tests
use kubemonitor.Common.{ℕ, ◌+◌, ◌-◌, ◌%◌, ◌^◌, Option, none, some, Text, ltb, if◌then◌else◌}
use kubemonitor.Common.Int.{ℤ, pos, sub_ℕ, pos_part, neg_part}
use kubemonitor.Strconv.{parse_int_any, parse_bool, atoi}
use kubemonitor.Value.{
  Floats, Value, text, float64, float32, uint64, uint32, uint16, uint8, uint, int64, int32, int16,
  int8, int, bool, null, other, parse_word, of_bool, nil_text,
}

-- `int(v)` of a `uint64` or a `uint`: the same bits.
unfoldable pub wrap_int : ℕ → ℤ
wrap_int n = if ltb n (2 ^ 63) then pos n else sub_ℕ n (2 ^ 64)

-- The number in the 64 bits of an `int64`.
unfoldable pub wrap64 : ℤ → ℤ
wrap64 i = wrap_int ((pos_part i + (2 ^ 64 - neg_part i % 2 ^ 64)) % 2 ^ 64)

-- The case `string` of `ToInt`.
unfoldable pub text_to_int : {F : Type 0} → Floats F → Text → Option ℤ
text_to_int fl v = elim (atoi v) [
  | some i ↦ some i
  | none ↦ elim (fl.parse_float v) [
    | some f ↦ some (fl.to_int f)
    | none ↦ elim (parse_bool v) [
      | some b ↦ some (if b then pos 1 else pos 0)
      | none ↦ elim (parse_word v) [ some b ↦ some (if b then pos 1 else pos 0) | none ↦ none ]
    ]
  ]
]

module _ {F : Type 0} ⦃fl : Floats F⦄ where
  -- `ToInt` of pkg/conv/conv.go.
  unfoldable pub to_int : Value F → Option ℤ
  unfolding text_to_int wrap_int
  to_int (text v) = text_to_int fl v
  to_int (int v) = some v
  to_int (int64 v) = some v
  to_int (int32 v) = some v
  to_int (int16 v) = some v
  to_int (int8 v) = some v
  to_int (uint v) = some (wrap_int v)
  to_int (uint64 v) = some (wrap_int v)
  to_int (uint32 v) = some (pos v)
  to_int (uint16 v) = some (pos v)
  to_int (uint8 v) = some (pos v)
  to_int (bool v) = some (if v then pos 1 else pos 0)
  to_int (float32 v) = some (fl.to_int v)
  to_int (float64 v) = some (fl.to_int v)
  to_int null = atoi nil_text
  to_int (other v) = atoi v

  -- The case `string` of `ToFloat64`.
  unfoldable pub text_to_float64 : Text → Option F
  text_to_float64 v = elim (fl.parse_float v) [
    | some f ↦ some f
    | none ↦ elim (parse_int_any v) [
      | some i ↦ some (fl.of_int i)
      | none ↦ elim (parse_bool v) [
        | some b ↦ some (of_bool b)
        | none ↦ elim (parse_word v) [ some b ↦ some (of_bool b) | none ↦ none ]
      ]
    ]
  ]

  -- `ToFloat64` of pkg/conv/conv.go.
  unfoldable pub to_float64 : Value F → Option F
  unfolding text_to_float64
  to_float64 (text v) = text_to_float64 v
  to_float64 (float64 v) = some v
  to_float64 (uint64 v) = some (fl.of_int (pos v))
  to_float64 (uint32 v) = some (fl.of_int (pos v))
  to_float64 (uint16 v) = some (fl.of_int (pos v))
  to_float64 (uint8 v) = some (fl.of_int (pos v))
  to_float64 (uint v) = some (fl.of_int (pos v))
  to_float64 (int64 v) = some (fl.of_int v)
  to_float64 (int32 v) = some (fl.of_int v)
  to_float64 (int16 v) = some (fl.of_int v)
  to_float64 (int8 v) = some (fl.of_int v)
  to_float64 (bool v) = some (of_bool v)
  to_float64 (int v) = some (fl.of_int v)
  to_float64 (float32 v) = some v
  to_float64 null = fl.parse_float nil_text
  to_float64 (other v) = fl.parse_float v
