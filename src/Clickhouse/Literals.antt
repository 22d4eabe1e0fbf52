-- ===== src/Clickhouse/Literals.antt =====
-- The texts that the handler makes: literals of SQL, names, and numbers it reads.
use kubemonitor.Common.{
  ℕ, ◌^◌, ◌≤◌, ◌<◌, ◌≡◌, inl, inr, refl, sym, ap, subst, ◌∙◌, false, Option, none, some, [], ◌∷◌,
  ◌++◌, reverse, append_assoc, arith, ◌==◌, if◌then◌else◌, Bool-cases, length, take, All,
  length-append, All-append, All-imp, Text, has_prefix, has_suffix, trim_prefix, trim_suffix,
}
use mathlib.Core.List.{reverse-cons, reverse-append}
use kubemonitor.Strconv.Decimal.{print_uint-All, print_uint, parse_uint-print_uint}
use kubemonitor.Clickhouse.{escape_bytes, escape, unmarshal_ch_uint64}

-- How ClickHouse reads a string literal, behind its first quote: a backslash stands for the byte
-- behind it, and a quote ends it. The text of the literal, and what is left behind it.
unfoldable pub read_bytes : Text → Option (Text × Text)
read_bytes [] = none
read_bytes (c ∷ []) = if c == b'\'' then some ([], []) else none
read_bytes (c ∷ d ∷ s) =
    let escaped = read_bytes s in
    let plain = read_bytes (d ∷ s) in
    if c == b'\''
    then some ([], d ∷ s)
    else if c == b'\\'
    then elim escaped [ none ↦ none | some (t, rest) ↦ some (d ∷ t, rest) ]
    else elim plain [ none ↦ none | some (t, rest) ↦ some (c ∷ t, rest) ]

unfoldable pub read_literal : Text → Option (Text × Text)
read_literal [] = none
read_literal (q ∷ s) = if q == b'\'' then read_bytes s else none

quote_read : (rest : Text) → read_bytes (b'\'' ∷ rest) ≡ some ([], rest)
unfolding read_bytes
quote_read [] = refl
quote_read (d ∷ s) = refl

read_plain :
    (c : ℕ) (s : Text) (r : Text × Text)
    → c == b'\'' ≡ false
    → c == b'\\' ≡ false
    → read_bytes s ≡ some r
    → read_bytes (c ∷ s) ≡ some (c ∷ r.0, r.1)
unfolding read_bytes
read_plain c [] r q b h = cc
read_plain c (d ∷ s) r q b h = rw (q, b, h, read_bytes)

read_escape_bytes : (s rest : Text) → read_bytes (escape_bytes s ++ b'\'' ∷ rest) ≡ some (s, rest)
unfolding escape_bytes read_bytes
read_escape_bytes [] rest = quote_read rest
read_escape_bytes (c ∷ s) rest = elim (Bool-cases (c == b'\\')) [
  | inl slash ↦ rw (slash, escape_bytes) (rw (read_escape_bytes s rest) (ground arith))
  | inr other ↦ elim (Bool-cases (c == b'\'')) [
    | inl quote ↦ rw (other, quote, escape_bytes) (rw (read_escape_bytes s rest) (ground arith))
    | inr plain ↦
        rw (other, plain, escape_bytes)
          (read_plain c _ (s, rest) plain other (read_escape_bytes s rest))
  ]
]

-- A name in a filter is read back as it is, whatever bytes it has, and what stands behind the
-- literal is left as it is: no name ends its literal early.
pub read_literal-escape : (s rest : Text) → read_literal (escape s ++ rest) ≡ some (s, rest)
unfolding read_literal escape
read_literal-escape s rest =
    rw (append_assoc (escape_bytes s) (b'\'' ∷ []) rest) (read_escape_bytes s rest)

NoQuote : Text → Type 0
NoQuote = All (λ c. c == b'"' ≡ false)

NoQuote-reverse : (s : Text) → NoQuote s → NoQuote (reverse s)
unfolding NoQuote
NoQuote-reverse [] h = tt
NoQuote-reverse (c ∷ s) h =
    subst (All (λ c. c == b'"' ≡ false)) (sym (reverse-cons c s))
      (All-append (λ c. c == b'"' ≡ false) (reverse s) (c ∷ []) (NoQuote-reverse s h.1) (h.0, tt))

no_prefix : (s : Text) → NoQuote s → has_prefix s (b'"' ∷ []) ≡ false
unfolding NoQuote has_prefix
no_prefix [] h = refl
no_prefix (c ∷ s) h = rw h.0

take_front : (s t : Text) → take (length s) (s ++ t) ≡ s
take_front [] t = take_nothing t
  where
    take_nothing : (t : Text) → take 0 t ≡ []
    take_nothing [] = refl
    take_nothing (c ∷ t) = refl
take_front (c ∷ s) t = ap (◌∷◌ c) (take_front s t)

trim_none : (s : Text) → NoQuote s → trim_suffix (trim_prefix s (b'"' ∷ [])) (b'"' ∷ []) ≡ s
unfolding trim_prefix trim_suffix has_suffix
trim_none s h = rw (no_prefix s h) (rw (no_prefix (reverse s) (NoQuote-reverse s h)) refl)

trim_quotes :
    (s : Text) → trim_suffix (trim_prefix (b'"' ∷ s ++ b'"' ∷ []) (b'"' ∷ [])) (b'"' ∷ []) ≡ s
unfolding trim_prefix trim_suffix has_suffix has_prefix
trim_quotes s =
    rw (reverse-append s (b'"' ∷ []), length-append s (b'"' ∷ []))
      (ap (λ n. take n (s ++ b'"' ∷ [])) (omega arith) ∙ take_front s (b'"' ∷ []))

print_uint-NoQuote : (n : ℕ) → NoQuote (print_uint n)
unfolding NoQuote
print_uint-NoQuote n =
    All-imp (λ c. (b'0' ≤ c) × (c ≤ b'9')) (λ c. c == b'"' ≡ false) (λ c h. ground arith)
      (print_uint n) (print_uint-All n)

-- Every number of 64 bits is read back from its digits, in quotes and without them.
pub unmarshal-print_uint :
    (n : ℕ)
    → n < 2 ^ 64
    → (unmarshal_ch_uint64 (print_uint n) ≡ some n)
      × (unmarshal_ch_uint64 (b'"' ∷ print_uint n ++ b'"' ∷ []) ≡ some n)
unfolding unmarshal_ch_uint64
unmarshal-print_uint n h = (
  rw (trim_none (print_uint n) (print_uint-NoQuote n)) (parse_uint-print_uint n h),
  rw (trim_quotes (print_uint n)) (parse_uint-print_uint n h),
)
