-- ===== src/Strconv/Decimal.antt =====
-- `strconv.ParseUint(s, 10, 64)`, and the decimal digits that `strconv.Itoa` and `fmt.Sprint` print.
use kubemonitor.Common.{
  ℕ, zero, suc, ◌+◌, ◌*◌, ◌/◌, ◌%◌, ◌^◌, ◌≤◌, ◌<◌, ◌≡◌, inl, inr, refl, ap, ◌∙◌, false, Option,
  some, [], ◌∷◌, ◌++◌, append_assoc, append-nil, arith, ltb, if◌then◌else◌, Bool-cases, All,
  All-append, Text,
}
use kubemonitor.Common.Int.{ℤ, pos, negsuc}
use kubemonitor.Strconv.{scan, digit, uint_ten}

unfoldable pub parse_uint : Text → Option ℕ
unfolding uint_ten
parse_uint s = uint_ten s

-- The fuel is the number of digits at most.
print_digits : ℕ → ℕ → Text
print_digits zero n = []
print_digits (suc fuel) n =
    let rest = print_digits fuel (n / 10) in
    if ltb n 10 then (n + b'0') ∷ [] else rest ++ (n % 10 + b'0') ∷ []

-- A number has at most as many digits as its value and one.
unfoldable pub print_uint : ℕ → Text
unfolding print_digits
print_uint n = print_digits (suc n) n

unfoldable pub itoa : ℤ → Text
itoa (pos n) = print_uint n
itoa (negsuc n) = b'-' ∷ print_uint (suc n)

digit_lem : (d : ℕ) → d < 10 → digit (d + b'0') ≡ some d
unfolding digit
digit_lem d h = ground arith

scan-digit :
    (d m : ℕ) (rest : Text)
    → d < 10
    → m * 10 + d < 2 ^ 64
    → scan false 10 ((d + b'0') ∷ rest) m ≡ scan false 10 rest (m * 10 + d)
unfolding scan
scan-digit d m rest h k = rw (digit_lem d h, scan) (ground arith)

scan-print_digits :
    (fuel n : ℕ) (rest : Text)
    → n < fuel
    → n < 2 ^ 64
    → scan false 10 (print_digits fuel n ++ rest) 0 ≡ scan false 10 rest n
unfolding print_digits
scan-print_digits zero n rest h k = absurd (omega arith)
scan-print_digits (suc fuel) n rest h k = elim (Bool-cases (ltb n 10)) [
  | inl small ↦
      rw (small, print_digits)
        (scan-digit n 0 rest (ground arith) (ground arith) ∙ ap (scan false 10 rest) (omega arith))
  | inr large ↦
      rw (large, print_digits, append_assoc)
        (scan-print_digits fuel (n / 10) ((n % 10 + b'0') ∷ rest) (ground arith) (ground arith)
          ∙ scan-digit (n % 10) (n / 10) rest (omega arith) (omega arith)
          ∙ ap (scan false 10 rest) (omega arith))
]

snoc_cons : (s : Text) (c : ℕ) → (d : ℕ) × (t : Text) × (s ++ c ∷ [] ≡ d ∷ t)
snoc_cons [] c = (c, [], refl)
snoc_cons (d ∷ s) c = (d, s ++ c ∷ [], refl)

print_digits_some : (fuel n : ℕ) → (d : ℕ) × (t : Text) × (print_digits (suc fuel) n ≡ d ∷ t)
unfolding print_digits
print_digits_some fuel n = elim (Bool-cases (ltb n 10)) [
  | inl small ↦ (n + b'0', [], rw (small, print_digits) refl)
  | inr large ↦
      let (d, t, e) = snoc_cons (print_digits fuel (n / 10)) (n % 10 + b'0') in
      (d, t, rw (large, print_digits) e)
]

uint_ten-scan : (s : Text) → ((d : ℕ) × (t : Text) × (s ≡ d ∷ t)) → uint_ten s ≡ scan false 10 s 0
unfolding uint_ten
uint_ten-scan [] (d, t, e) = cc
uint_ten-scan (c ∷ s) some_digit = refl

-- Every number below 2 ^ 64 is read back from its digits.
pub parse_uint-print_uint : (n : ℕ) → n < 2 ^ 64 → parse_uint (print_uint n) ≡ some n
unfolding parse_uint print_uint scan
parse_uint-print_uint n h =
    uint_ten-scan (print_digits (suc n) n) (print_digits_some n n)
    ∙ rw append-nil at (scan-print_digits (suc n) n [] (omega arith) h)

-- No byte of the digits is any other than a digit.
print_digits-All : (fuel n : ℕ) → All (λ c. (b'0' ≤ c) × (c ≤ b'9')) (print_digits fuel n)
unfolding print_digits
print_digits-All zero n = tt
print_digits-All (suc fuel) n = elim (Bool-cases (ltb n 10)) [
  | inl small ↦ rw (small, print_digits) (ground arith)
  | inr large ↦
      rw (large, print_digits)
        (All-append (λ c. (b'0' ≤ c) × (c ≤ b'9')) (print_digits fuel (n / 10)) _
          (print_digits-All fuel (n / 10)) ((omega arith, omega arith), tt))
]

pub print_uint-All : (n : ℕ) → All (λ c. (b'0' ≤ c) × (c ≤ b'9')) (print_uint n)
unfolding print_uint
print_uint-All n = print_digits-All (suc n) n
