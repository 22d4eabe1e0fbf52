-- ===== src/Strconv.antt =====
-- The functions of Go's package `strconv` that the program calls on strings of bytes: `ParseInt`
-- with its bases and underscores, `Atoi`, `ParseBool`. `ParseFloat` is a field of `Value.Floats`.
pub mod Decimal
use kubemonitor.Common.{
  ℕ, ◌+◌, ◌-◌, ◌*◌, ◌^◌, ◌≤◌, ◌<◌, ◌≡◌, refl, Bool, true, false, ◌&&◌, ◌||◌, Option, none, some, [],
  ◌∷◌, arith, ltb, leb, ◌==◌, if◌then◌else◌, Text, codes, one_of, lower_byte, text_eq,
}
use kubemonitor.Common.Int.{ℤ, pos, negsuc, pos_part, neg_part, sub_ℕ}

infixl 5 ◌>>=◌
abbrev ◌>>=◌ {ℓ κ} : {A : Type ℓ} {B : Type κ} → Option A → (A → Option B) → Option B
none >>= f = none
some a >>= f = f a

-- The value of a digit or a letter, as a digit of a base up to 36.
digit : ℕ → Option ℕ
unfolding lower_byte
digit c =
    let l = lower_byte c in
    if leb b'0' c && leb c b'9'
    then some (c - b'0')
    else if leb b'a' l && leb l b'z'
    then some (l - b'a' + 10)
    else none

-- The digits of `ParseUint`: the flag allows `_`; the value may not reach 2 ^ 64.
scan : Bool → ℕ → Text → ℕ → Option ℕ
unfolding digit
scan under base [] n = some n
scan under base (c ∷ s) n =
    let skip = scan under base s n in
    let next = (do
      d ← digit c
      let m = n * base + d
      let rest = scan under base s m
      if ltb d base && ltb m (2 ^ 64) then rest else none) in
    if under && (c == b'_') then skip else next

pub data Saw : Type 0 where
  start digit_seen under other : Saw

-- `underscoreOK` behind the base prefix: each `_` stands behind a digit or the prefix and in front
-- of a digit.
under_ok : Bool → Text → Saw → Bool
unfolding lower_byte
under_ok hex [] under = false
under_ok hex [] _ = true
under_ok hex (c ∷ s) saw =
    let l = lower_byte c in
    let after_digit = under_ok hex s digit_seen in
    let after_under = under_ok hex s under in
    let after_other = under_ok hex s other in
    if (leb b'0' c && leb c b'9') || (hex && leb b'a' l && leb l b'f')
    then after_digit
    else elim saw [
      | digit_seen ↦ if c == b'_' then after_under else after_other
      | under ↦ false
      | _ ↦ if c == b'_' then false else after_other
    ]

parse_based : Bool → ℕ → Text → Saw → Option ℕ
unfolding scan under_ok
parse_based hex base s saw = if under_ok hex s saw then scan true base s 0 else none

-- `ParseUint(s, 0, 64)` of a non-empty text.
uint_any : Text → Option ℕ
unfolding parse_based lower_byte
uint_any (z ∷ p ∷ d ∷ s) =
    if z == b'0'
    then if lower_byte p == b'b'
      then parse_based false 2 (d ∷ s) digit_seen
      else if lower_byte p == b'o'
      then parse_based false 8 (d ∷ s) digit_seen
      else if lower_byte p == b'x'
      then parse_based true 16 (d ∷ s) digit_seen
      else parse_based false 8 (p ∷ d ∷ s) digit_seen
    else parse_based false 10 (z ∷ p ∷ d ∷ s) start
uint_any (z ∷ s) = parse_based false (if z == b'0' then 8 else 10) (z ∷ s) start
uint_any [] = none

uint_ten : Text → Option ℕ
unfolding scan
uint_ten [] = none
uint_ten (c ∷ s) = scan false 10 (c ∷ s) 0

signed : Bool → ℕ → Option ℤ
signed true n = if leb n (2 ^ 63) then some (sub_ℕ 0 n) else none
signed false n = if ltb n (2 ^ 63) then some (pos n) else none

parse_signed : (Text → Option ℕ) → Text → Option ℤ
unfolding signed
parse_signed uint [] = none
parse_signed uint (c ∷ s) =
    if c == b'-'
    then uint s >>= signed true
    else if c == b'+'
    then uint s >>= signed false
    else uint (c ∷ s) >>= signed false

-- `strconv.ParseInt(s, 0, 64)`, `strconv.ParseInt(s, 10, 64)`; an error is `none`.
unfoldable pub parse_int_any : Text → Option ℤ
unfolding parse_signed uint_any
parse_int_any s = parse_signed uint_any s

unfoldable pub parse_int : Text → Option ℤ
unfolding parse_signed uint_ten
parse_int s = parse_signed uint_ten s

-- `strconv.Atoi`, where an `int` has 64 bits.
unfoldable pub atoi : Text → Option ℤ
unfolding parse_int
atoi s = parse_int s

-- `strconv.ParseBool`.
unfoldable pub parse_bool : Text → Option Bool
unfolding text_eq
parse_bool s =
    if one_of (codes "1" ∷ codes "t" ∷ codes "T" ∷ codes "TRUE" ∷ codes "true" ∷ codes "True" ∷ [])
      s
    then some true
    else if one_of
        (codes "0" ∷ codes "f" ∷ codes "F" ∷ codes "FALSE" ∷ codes "false" ∷ codes "False" ∷ []) s
    then some false
    else none

-- The range of `int64`.
abbrev pub InInt64 : ℤ → Type 0
InInt64 i = (pos_part i < 2 ^ 63) × (neg_part i ≤ 2 ^ 63)

signed-InInt64 : (neg : Bool) (n : ℕ) (i : ℤ) → signed neg n ≡ some i → InInt64 i
unfolding signed
signed-InInt64 true n i h = ground arith
signed-InInt64 false n i h = ground arith

parse_signed-InInt64 :
    (uint : Text → Option ℕ) (s : Text) (i : ℤ) → parse_signed uint s ≡ some i → InInt64 i
unfolding parse_signed
parse_signed-InInt64 uint [] i h = cc
parse_signed-InInt64 uint (c ∷ s) i h = grind (arith, signed-InInt64)

pub parse_int-InInt64 : (s : Text) (i : ℤ) → parse_int s ≡ some i → InInt64 i
unfolding parse_int
parse_int-InInt64 s i h = parse_signed-InInt64 uint_ten s i h

ints :
    (parse_int (codes "-42") ≡ some (negsuc 41))
    × (parse_int (codes "4x") ≡ none)
    × (parse_int (codes "9223372036854775808") ≡ none)
    × (parse_int_any (codes "0x1F") ≡ some (pos 31))
    × (parse_int_any (codes "1_000") ≡ some (pos 1000))
    × (parse_int_any (codes "1__0") ≡ none)
    × (parse_int_any (codes "017") ≡ some (pos 15))
    × (parse_int_any (codes "0") ≡ some (pos 0))
unfolding parse_int parse_int_any
ints = (refl, refl, refl, refl, refl, refl, refl, refl)
