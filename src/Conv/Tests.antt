-- ===== src/Conv/Tests.antt =====
-- Runs of the conversions, with integers for floats.
use kubemonitor.Common.{◌+◌, ◌^◌, arith}
use kubemonitor.Common.Int.{ℤ}
use kubemonitor.Strconv.{InInt64}
use kubemonitor.Value.{Value, uint64}
use kubemonitor.Toy.{int_floats, saturate}

saturate-InInt64 : (i : ℤ) → InInt64 (saturate i)
saturate-InInt64 i = ground arith

abbrev big : Value ℤ
big = uint64 (2 ^ 63 + 1)
