-- ===== src/Value.antt =====
-- pkg/types/utils.go: values of dynamic type, and their conversion to `float64`. Floats are a
-- parameter: a type, and what the program does with its values.
use kubemonitor.Common.{
  ℕ, Bool, true, false, Option, none, some, List, [], ◌∷◌, Text, codes, one_of, text_eq,
  if◌then◌else◌,
}
use kubemonitor.Common.Int.{ℤ, pos}
use kubemonitor.Strconv.{parse_int_any, parse_bool}

-- The `float64` operations of Go that the program uses: `strconv.ParseFloat(s, 64)` (an error is
-- `none`), `float64(i)`, `int(f)`, and arithmetic.
pub record Floats (F : Type 0) : Type 0 where
  pub parse_float : Text → Option F
  pub of_int : ℤ → F
  pub to_int : F → ℤ
  pub add : F → F → F
  pub sub : F → F → F
  pub mul : F → F → F
  pub div : F → F → F
  pub is_zero : F → Bool

-- `interface{}`: the dynamic types that the conversions tell apart. A `float32` is held as the
-- `float64` of the same value. `other` is a value of any other type, with what `fmt.Sprint` prints.
pub data Value (F : Type 0) : Type 0 where
  text : Text → Value F
  float64 float32 : F → Value F
  uint64 uint32 uint16 uint8 uint : ℕ → Value F
  int64 int32 int16 int8 int : ℤ → Value F
  bool : Bool → Value F
  null : Value F
  other : Text → Value F

abbrev pub yes_words : List Text
yes_words =
    codes "Yes"
    ∷ codes "yes"
    ∷ codes "YES"
    ∷ codes "Y"
    ∷ codes "ON"
    ∷ codes "on"
    ∷ codes "On"
    ∷ codes "ok"
    ∷ codes "up"
    ∷ []

abbrev pub no_words : List Text
no_words =
    codes "No"
    ∷ codes "no"
    ∷ codes "NO"
    ∷ codes "N"
    ∷ codes "OFF"
    ∷ codes "off"
    ∷ codes "Off"
    ∷ codes "fail"
    ∷ codes "err"
    ∷ codes "down"
    ∷ []

-- The words that both packages read last: 1, 0 or an error.
unfoldable pub parse_word : Text → Option Bool
unfolding text_eq
parse_word v =
    if one_of yes_words v then some true else if one_of no_words v then some false else none

-- `fmt.Sprint(nil)`.
abbrev pub nil_text : Text
nil_text = codes "<nil>"

module _ {F : Type 0} ⦃fl : Floats F⦄ where
  abbrev pub of_bool : Bool → F
  of_bool true = fl.of_int (pos 1)
  of_bool false = fl.of_int (pos 0)

  -- The case `string` of `ToFloat64`.
  unfoldable pub text_to_float64 : Text → Option F
  text_to_float64 v = elim (fl.parse_float v) [
    | some f ↦ some f
    | none ↦ elim (parse_int_any v) [
      | some i ↦ some (fl.of_int i)
      | none ↦ elim (parse_bool v) [
        | some b ↦ some (of_bool b)
        | none ↦ elim (parse_word v) [ some b ↦ some (of_bool b) | none ↦ none ]
      ]
    ]
  ]

  -- `ToFloat64` of pkg/types/utils.go.
  unfoldable pub to_float64 : Value F → Option F
  unfolding text_to_float64
  to_float64 (text v) = text_to_float64 v
  to_float64 (float64 v) = some v
  to_float64 (uint64 v) = some (fl.of_int (pos v))
  to_float64 (uint32 v) = some (fl.of_int (pos v))
  to_float64 (uint16 v) = some (fl.of_int (pos v))
  to_float64 (uint8 v) = some (fl.of_int (pos v))
  to_float64 (uint v) = some (fl.of_int (pos v))
  to_float64 (int64 v) = some (fl.of_int v)
  to_float64 (int32 v) = some (fl.of_int v)
  to_float64 (int16 v) = some (fl.of_int v)
  to_float64 (int8 v) = some (fl.of_int v)
  to_float64 (bool v) = some (of_bool v)
  to_float64 (int v) = some (fl.of_int v)
  to_float64 (float32 v) = some v
  to_float64 null = fl.parse_float nil_text
  to_float64 (other v) = fl.parse_float v
