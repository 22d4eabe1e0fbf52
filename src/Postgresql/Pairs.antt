-- ===== src/Postgresql/Pairs.antt =====
-- A connection string of pairs without its secrets.
use kubemonitor.Common.{
  zero, ◌≡◌, inl, inr, refl, sym, ap, ◌∙◌, subst, append_assoc, Bool, true, false, ◌&&◌, Option,
  none, some, List, [], ◌∷◌, ◌++◌, All, All-imp, arith, ◌==◌, if◌then◌else◌, any, length, drop,
  Bool-cases, Text, codes, text_eq, text_eq_sound, one_of, has_prefix,
}
use kubemonitor.Postgresql.Address.{secrets, is_blank, value_at, secret_at, redact}
use kubemonitor.Postgresql.Redaction.{IsWord, redact-secrets}

-- No space.
abbrev IsTight : Text → Type 0
IsTight w = All (λ c. (c == 32) ≡ false) w

-- The pattern matches at no place of a text that a space follows.
abbrev pub IsClean : Text → Type 0
IsClean [] = Unit
IsClean (c ∷ t) = (secret_at secrets (c ∷ (t ++ 32 ∷ [])) ≡ none) × IsClean t

prefix_tight :
    (t rest w : Text) → IsTight w → has_prefix (t ++ 32 ∷ rest) w ≡ has_prefix (t ++ 32 ∷ []) w
unfolding has_prefix
prefix_tight t rest [] h = refl
prefix_tight [] rest (p ∷ ps) h = ground (arith, h.0)
prefix_tight (c ∷ t) rest (p ∷ ps) h = ap (λ b. (c == p) && b) (prefix_tight t rest ps h.1)

unless_none :
    (b : Bool) (x y : Text)
    → (if b then none else some x) ≡ none
    → (if b then none else some y) ≡ none
unless_none true x y h = refl
unless_none false x y h = cc

and_right : (a b : Bool) → a && b ≡ true → b ≡ true
and_right a b h = ground arith

-- Whether a value starts behind a tight prefix does not depend on what stands behind the space.
value_tight :
    (t rest w : Text)
    → IsTight w
    → has_prefix (t ++ 32 ∷ []) w ≡ true
    → value_at (drop (length w) (t ++ 32 ∷ [])) ≡ none
    → value_at (drop (length w) (t ++ 32 ∷ rest)) ≡ none
unfolding has_prefix value_at
value_tight [] rest [] h p n = refl
value_tight (c ∷ t) rest [] h p n = unless_none (is_blank c) _ _ n
value_tight [] rest (q ∷ ws) h p n = absurd (ground (arith, h.0))
value_tight (c ∷ t) rest (q ∷ ws) h p n = value_tight t rest ws h.1 (and_right (c == q) _ p) n

-- The choice that `secret_at` makes at a word.
abbrev pick : Bool → Option Text → Option Text → Option Text
pick b v rest = if b then elim v [ some left ↦ some left | none ↦ rest ] else rest

pick-none :
    (b : Bool) (v rest : Option Text) → pick b v rest ≡ none → (rest ≡ none) × (b ≡ true → v ≡ none)
pick-none true none rest h = (h, λ e. refl)
pick-none true (some v) rest h = cc
pick-none false v rest h = (h, λ e. cc)

none-pick :
    (b : Bool) (v rest : Option Text) → rest ≡ none → (b ≡ true → v ≡ none) → pick b v rest ≡ none
none-pick true v rest h k = rw (k refl) h
none-pick false v rest h k = h

secret_tight :
    (words : List Text) (t rest : Text)
    → All (λ word. IsTight (word ++ b'=' ∷ [])) words
    → secret_at words (t ++ 32 ∷ []) ≡ none
    → secret_at words (t ++ 32 ∷ rest) ≡ none
unfolding secret_at
secret_tight [] t rest h n = refl
secret_tight (word ∷ words) t rest h n =
    let head = word ++ b'=' ∷ [] in
    let (later, here) =
      pick-none (has_prefix (t ++ 32 ∷ []) head) (value_at (drop (length head) (t ++ 32 ∷ [])))
        (secret_at words (t ++ 32 ∷ [])) n in
    none-pick (has_prefix (t ++ 32 ∷ rest) head) (value_at (drop (length head) (t ++ 32 ∷ rest)))
      (secret_at words (t ++ 32 ∷ rest)) (secret_tight words t rest h.1 later)
      (λ e.
        let p = sym (prefix_tight t rest head h.0) ∙ e in value_tight t rest head h.0 p (here p))

any-IsTight : (w : Text) → any (λ c. c == 32) w ≡ false → IsTight w
any-IsTight [] h = tt
any-IsTight (c ∷ w) h = (ground (arith, h), any-IsTight w (ground (arith, h)))

secrets-IsTight : All (λ word. IsTight (word ++ b'=' ∷ [])) secrets
secrets-IsTight = (
  any-IsTight (codes "user=") refl,
  (
    any-IsTight (codes "password=") refl,
    (
      any-IsTight (codes "sslcert=") refl,
      (
        any-IsTight (codes "sslkey=") refl,
        (any-IsTight (codes "sslmode=") refl, (any-IsTight (codes "sslrootcert=") refl, tt)),
      ),
    ),
  ),
)

-- A clean text and the space behind it stay.
redact_clean :
    (t rest : Text) → IsClean t → redact zero (t ++ 32 ∷ rest) ≡ t ++ 32 ∷ redact zero rest
unfolding redact
redact_clean [] rest h = unfold secret_at has_prefix in refl
redact_clean (c ∷ t) rest h =
    rw (secret_tight secrets (c ∷ t) rest secrets-IsTight h.0, redact)
      (ap (◌∷◌ c) (redact_clean t rest h.1))

pub record Pair : Type 0 where
  pub key : Text
  pub value : Text

abbrev pub pair_text : Pair → Text
pair_text p = p.key ++ b'=' ∷ p.value

-- The pairs, each with a space behind it.
abbrev pub spaced : List Pair → Text
spaced [] = []
spaced (p ∷ ps) = pair_text p ++ 32 ∷ spaced ps

abbrev pub is_secret : Pair → Bool
is_secret p = one_of secrets p.key

abbrev pub kept : List Pair → List Pair
kept [] = []
kept (p ∷ ps) = if is_secret p then kept ps else p ∷ kept ps

-- A secret has a value without a blank, and in any other pair the pattern matches nowhere.
abbrev pub IsFine : Pair → Type 0
IsFine p = (is_secret p ≡ true → IsWord p.value) × (is_secret p ≡ false → IsClean (pair_text p))

All-one_of {ℓ} :
    (P : Text → Type ℓ) (words : List Text) (k : Text) → All P words → one_of words k ≡ true → P k
All-one_of P [] k h e = cc
All-one_of P (word ∷ words) k h e = elim (Bool-cases (text_eq k word)) [
  | inl same ↦ subst P (sym (text_eq_sound k word same)) h.0
  | inr other ↦ All-one_of P words k h.1 (ground (arith, e, other))
]

-- Of a connection string of pairs `k=v`, each with a space behind it, exactly the pairs whose key is
-- no secret are left, as they were and in their order, if the value of every secret is not empty and
-- has no blank, and the pattern matches nowhere in the other pairs.
pub redact-spaced : (ps : List Pair) → All IsFine ps → redact zero (spaced ps) ≡ spaced (kept ps)
redact-spaced [] h = unfold redact in refl
redact-spaced (p ∷ ps) h =
    let choice = λ (b : Bool). spaced (if b then kept ps else p ∷ kept ps) in
    elim (Bool-cases (is_secret p)) [
      | inl e ↦
          ap (redact zero) (append_assoc p.key (b'=' ∷ p.value) (32 ∷ spaced ps))
          ∙ All-one_of
              (λ word.
                redact zero (word ++ (b'=' ∷ p.value ++ 32 ∷ spaced ps)) ≡ redact zero (spaced ps))
              secrets p.key (redact-secrets p.value (spaced ps) (h.0.0 e)) e
          ∙ redact-spaced ps h.1
          ∙ sym (ap choice e)
      | inr e ↦
          redact_clean (pair_text p) (spaced ps) (h.0.1 e)
          ∙ ap (λ s. pair_text p ++ 32 ∷ s) (redact-spaced ps h.1)
          ∙ sym (ap choice e)
    ]

-- Where one of the six words stands in front of an `=` and a value that is not empty and has no
-- blank, and behind a text in which the pattern matches nowhere and a space, the word, the `=`, the
-- value and the space behind it are left out, and the text in front of them stays, byte for byte. A
-- text behind them in which the pattern matches nowhere stays too, and the search goes on behind
-- its space. So a secret goes up to its first blank only: the rest of one that has a space, which
-- `parseURL` escapes by a backslash in front of it, stays in the label.
pub redact-leak :
    (pre value rest more : Text)
    → IsClean pre
    → IsWord value
    → IsClean rest
    → All
        (λ word.
          redact zero (pre ++ 32 ∷ (word ++ (b'=' ∷ value ++ 32 ∷ (rest ++ 32 ∷ more))))
          ≡ pre ++ 32 ∷ (rest ++ 32 ∷ redact zero more))
        secrets
redact-leak pre value rest more clean is_word clean_rest =
    let left = λ (word : Text). word ++ (b'=' ∷ value ++ 32 ∷ (rest ++ 32 ∷ more)) in
    All-imp (λ word. redact zero (left word) ≡ redact zero (rest ++ 32 ∷ more))
      (λ word. redact zero (pre ++ 32 ∷ left word) ≡ pre ++ 32 ∷ (rest ++ 32 ∷ redact zero more))
      (λ word e.
        redact_clean pre (left word) clean
        ∙ ap (λ s. pre ++ 32 ∷ s) (e ∙ redact_clean rest more clean_rest))
      secrets (redact-secrets value (rest ++ 32 ∷ more) is_word)
