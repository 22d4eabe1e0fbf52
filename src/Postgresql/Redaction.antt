-- ===== src/Postgresql/Redaction.antt =====
-- What is left of a secret in the address of PostgreSQL.
use kubemonitor.Common.{
  ℕ, ◌-◌, zero, ◌≡◌, ◌≢◌, refl, sym, ap, ◌∙◌, append_assoc, false, some, [], ◌∷◌, ◌++◌, All, arith,
  length, length-append, Text, codes, has_prefix,
}
use kubemonitor.Postgresql.Address.{secrets, is_blank, behind_value, value_at, secret_at, redact}

-- A value without a blank, and not empty.
abbrev pub IsWord : Text → Type 0
IsWord value = (value ≢ []) × All (λ c. is_blank c ≡ false) value

behind_value_lem :
    (value rest : Text)
    → All (λ c. is_blank c ≡ false) value
    → behind_value (value ++ 32 ∷ rest) ≡ rest
unfolding behind_value
behind_value_lem [] rest h = refl
behind_value_lem (c ∷ value) rest h = rw h.0 (behind_value_lem value rest h.1)

value_at_lem : (value rest : Text) → IsWord value → value_at (value ++ 32 ∷ rest) ≡ some rest
unfolding value_at
value_at_lem [] rest h = absurd (h.0 refl)
value_at_lem (c ∷ value) rest h = rw h.1.0 (ap (λ s. some s) (behind_value_lem value rest h.1.1))

-- The bytes of a match are left out.
redact_match : (a rest : Text) → redact (length a) (a ++ rest) ≡ redact zero rest
unfolding redact
redact_match [] [] = refl
redact_match [] (c ∷ rest) = refl
redact_match (c ∷ a) rest = redact_match a rest

redact_behind :
    (a rest : Text) → redact (length (a ++ rest) - length rest) (a ++ rest) ≡ redact zero rest
redact_behind a rest =
    ap (λ n. redact n (a ++ rest)) (omega (arith, length-append a rest)) ∙ redact_match a rest

redact_found :
    (c : ℕ) (a rest : Text)
    → secret_at secrets (c ∷ (a ++ rest)) ≡ some rest
    → redact zero (c ∷ (a ++ rest)) ≡ redact zero rest
unfolding redact
redact_found c a rest e = rw (e, redact) (redact_behind a rest)

at_word :
    (c : ℕ) (tail value rest : Text)
    → secret_at secrets (c ∷ (tail ++ (value ++ 32 ∷ rest))) ≡ some rest
    → redact zero (c ∷ (tail ++ (value ++ 32 ∷ rest))) ≡ redact zero rest
at_word c tail value rest e =
    let whole : tail ++ (value ++ 32 ∷ rest) ≡ (tail ++ (value ++ 32 ∷ [])) ++ rest =
      ap (λ v. tail ++ v) (sym (append_assoc value (32 ∷ []) rest))
      ∙ sym (append_assoc tail (value ++ 32 ∷ []) rest) in
    ap (λ s. redact zero (c ∷ s)) whole
    ∙ redact_found c (tail ++ (value ++ 32 ∷ [])) rest
        (ap (λ s. secret_at secrets (c ∷ s)) (sym whole) ∙ e)

-- Where one of the six words stands at the front, behind it an `=` and a value that is a word, the word, the
-- value and one space behind it are left out, and the search goes on behind them.
pub redact-secrets :
    (value rest : Text)
    → IsWord value
    → All (λ word. redact zero (word ++ (b'=' ∷ value ++ 32 ∷ rest)) ≡ redact zero rest) secrets
unfolding secret_at has_prefix
redact-secrets value rest h = (
  at_word b'u' (codes "ser=") value rest (rw (value_at_lem value rest h) refl),
  (
    at_word b'p' (codes "assword=") value rest (rw (value_at_lem value rest h) refl),
    (
      at_word b's' (codes "slcert=") value rest (rw (value_at_lem value rest h) refl),
      (
        at_word b's' (codes "slkey=") value rest (rw (value_at_lem value rest h) refl),
        (
          at_word b's' (codes "slmode=") value rest (rw (value_at_lem value rest h) refl),
          (at_word b's' (codes "slrootcert=") value rest (rw (value_at_lem value rest h) refl), tt),
        ),
      ),
    ),
  ),
)
