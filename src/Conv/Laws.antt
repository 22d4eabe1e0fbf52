-- ===== src/Conv/Laws.antt =====
-- What the conversions of pkg/conv/conv.go give, and how they stand to one another.
use kubemonitor.Common.{ℕ, ◌<◌, ◌^◌, ◌≤◌, ◌≡◌, refl, ap, true, false, some, arith, Text}
use kubemonitor.Common.Int.{ℤ, pos, pos_part, neg_part}
use kubemonitor.Strconv.{parse_int-InInt64, atoi, InInt64}
use kubemonitor.Value.{
  Floats, Value, text, float64, float32, uint64, uint32, uint16, uint8, uint, int64, int32, int16,
  int8, int, bool, null, other, parse_word, of_bool, nil_text,
}
use kubemonitor.Value
use kubemonitor.Conv.{to_float64, to_int, text_to_int, wrap_int}

-- A value holds a number of its machine type.
abbrev pub InRange : {F : Type 0} → Value F → Type 0
InRange (uint64 n) = n < 2 ^ 64
InRange (uint n) = n < 2 ^ 64
InRange (uint32 n) = n < 2 ^ 32
InRange (uint16 n) = n < 2 ^ 16
InRange (uint8 n) = n < 2 ^ 8
InRange (int64 i) = InInt64 i
InRange (int i) = InInt64 i
InRange (int32 i) = (pos_part i < 2 ^ 31) × (neg_part i ≤ 2 ^ 31)
InRange (int16 i) = (pos_part i < 2 ^ 15) × (neg_part i ≤ 2 ^ 15)
InRange (int8 i) = (pos_part i < 2 ^ 7) × (neg_part i ≤ 2 ^ 7)
InRange _ = Unit {0}

atoi-InInt64 : (s : Text) (i : ℤ) → atoi s ≡ some i → InInt64 i
unfolding atoi
atoi-InInt64 s i h = parse_int-InInt64 s i h

wrap_int-InInt64 : (n : ℕ) → n < 2 ^ 64 → InInt64 (wrap_int n)
unfolding wrap_int
wrap_int-InInt64 n h = ground arith

-- The integer types and `bool`, at a number that `int` holds too.
abbrev pub IsExact : {F : Type 0} → Value F → Type 0
IsExact (text v) = ⊥
IsExact (float64 v) = ⊥
IsExact (float32 v) = ⊥
IsExact (uint64 n) = n < 2 ^ 63
IsExact (uint n) = n < 2 ^ 63
IsExact null = ⊥
IsExact (other v) = ⊥
IsExact _ = Unit {0}

wrap_int_small : (n : ℕ) → n < 2 ^ 63 → wrap_int n ≡ pos n
unfolding wrap_int
wrap_int_small n h = ground arith

module _ {F : Type 0} ⦃fl : Floats F⦄ where
  text_to_int-InInt64 :
      ((f : F) → InInt64 (fl.to_int f)) → (s : Text) (i : ℤ) → text_to_int fl s ≡ some i → InInt64 i
  unfolding text_to_int
  text_to_int-InInt64 h s i e = grind (arith, h, atoi-InInt64 s)

  -- If `int(f)` is always an `int64`, then every `int` that `ToInt` returns is one, for a value
  -- that holds a number of its machine type.
  to_int-InInt64 :
      ((f : F) → InInt64 (fl.to_int f))
      → (v : Value F) (i : ℤ) → InRange v
      → to_int v ≡ some i
      → InInt64 i
  unfolding to_int
  to_int-InInt64 h (text s) i r e = text_to_int-InInt64 h s i e
  to_int-InInt64 h (float64 f) i r e = ground (arith, h f)
  to_int-InInt64 h (float32 f) i r e = ground (arith, h f)
  to_int-InInt64 h (uint64 n) i r e = ground (arith, wrap_int-InInt64 n)
  to_int-InInt64 h (uint n) i r e = ground (arith, wrap_int-InInt64 n)
  to_int-InInt64 h null i r e = atoi-InInt64 nil_text i e
  to_int-InInt64 h (other s) i r e = atoi-InInt64 s i e
  to_int-InInt64 h _ i r e = ground arith

  -- At every integer type and at `bool`, if the number fits an `int`, `ToInt` succeeds and
  -- `ToFloat64` returns the float of the `int` that it returns.
  to_float64-to_int :
      (v : Value F)
      → IsExact v
      → (i : ℤ) × (to_int v ≡ some i) × (to_float64 v ≡ some (fl.of_int i))
  unfolding to_int to_float64
  to_float64-to_int (uint64 n) h = (pos n, ap some (wrap_int_small n h), refl)
  to_float64-to_int (uint n) h = (pos n, ap some (wrap_int_small n h), refl)
  to_float64-to_int (bool true) h = (pos 1, refl, refl)
  to_float64-to_int (bool false) h = (pos 0, refl, refl)
  to_float64-to_int (text v) h = absurd h
  to_float64-to_int (float64 v) h = absurd h
  to_float64-to_int (float32 v) h = absurd h
  to_float64-to_int null h = absurd h
  to_float64-to_int (other v) h = absurd h
  to_float64-to_int (uint32 v) h = (pos v, refl, refl)
  to_float64-to_int (uint16 v) h = (pos v, refl, refl)
  to_float64-to_int (uint8 v) h = (pos v, refl, refl)
  to_float64-to_int (int64 v) h = (v, refl, refl)
  to_float64-to_int (int32 v) h = (v, refl, refl)
  to_float64-to_int (int16 v) h = (v, refl, refl)
  to_float64-to_int (int8 v) h = (v, refl, refl)
  to_float64-to_int (int v) h = (v, refl, refl)

  -- The copies of `ToFloat64` in pkg/conv and pkg/types agree at every value.
  to_float64_agree : (v : Value F) → to_float64 v ≡ Value.to_float64 v
  unfolding to_float64 Value.to_float64
  to_float64_agree v = ground arith
