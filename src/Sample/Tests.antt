-- ===== src/Sample/Tests.antt =====
-- Runs on one sample.
use kubemonitor.Common.{
  ◌≡◌, ◌≢◌, false, List, [], ◌∷◌, arith, Text, codes, text_eq, text_eq_iff, Map,
}
use kubemonitor.Common.Int.{ℤ, pos}
use kubemonitor.Value.{Value, int}
use kubemonitor.Sample.{Sample}
use kubemonitor.Toy.{int_floats}

abbrev five : Value ℤ
five = int (pos 5)

abbrev label_maps : List (Map Text)
label_maps =
    ((codes "db", codes "a") ∷ []) ∷ ((codes "db", codes "b") ∷ (codes "port", codes "1") ∷ []) ∷ []

text_eq_ne_of : {a b : Text} → text_eq a b ≡ false → a ≢ b
text_eq_ne_of {a} {b} h e = ground (arith, text_eq_iff a b)

abbrev clashing : Sample ℤ
clashing = record {
  metric = codes "up";
  timestamp = pos 0;
  value = five;
  labels = (codes "a-b", codes "1") ∷ (codes "a.b", codes "2") ∷ [];
}
