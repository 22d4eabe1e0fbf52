-- ===== src/Clickhouse/Names.antt =====
-- The suffix that a custom query takes from a field.
use kubemonitor.Common.{
  ℕ, ◌≡◌, inl, inr, refl, sym, ap, subst, ◌∙◌, true, [], ◌∷◌, ◌++◌, ◌==◌, if◌then◌else◌, ==_iff,
  Bool-cases, Text, codes, lower_byte, to_lower, replace_bytes,
}
use kubemonitor.Goroutines.{collect}
use kubemonitor.Clickhouse.{clean_name}

-- What becomes of one byte.
abbrev pub clean_byte : ℕ → Text
clean_byte c =
    if c == 32
    then b'_' ∷ []
    else if c == b'('
    then []
    else if c == b')'
    then []
    else if c == b'/'
    then []
    else if c == b'*'
    then []
    else if c == b'%'
    then codes "percent"
    else lower_byte c ∷ []

-- The first byte is cleaned by itself.
FirstAlone : Text → ℕ → Type 0
FirstAlone s c = clean_name (c ∷ s) ≡ clean_byte c ++ clean_name s

at_byte : (s : Text) (c b : ℕ) → c == b ≡ true → FirstAlone s b → FirstAlone s c
at_byte s c b same h = subst (FirstAlone s) (sym ((==_iff c b).0 same)) h

first_alone : (s : Text) (c : ℕ) → FirstAlone s c
unfolding clean_name replace_bytes to_lower lower_byte FirstAlone
first_alone s c = elim (Bool-cases (c == 32)) [
  | inl h ↦ at_byte s c 32 h refl
  | inr space ↦ elim (Bool-cases (c == b'(')) [
    | inl h ↦ at_byte s c b'(' h refl
    | inr open_ ↦ elim (Bool-cases (c == b')')) [
      | inl h ↦ at_byte s c b')' h refl
      | inr close ↦ elim (Bool-cases (c == b'/')) [
        | inl h ↦ at_byte s c b'/' h refl
        | inr slash ↦ elim (Bool-cases (c == b'*')) [
          | inl h ↦ at_byte s c b'*' h refl
          | inr star ↦ elim (Bool-cases (c == b'%')) [
            | inl h ↦ at_byte s c b'%' h refl
            | inr percent ↦ rw (space, open_, close, slash, star, percent) refl
          ]
        ]
      ]
    ]
  ]
]

-- The seven passes are one pass that turns a space into `_`, drops brackets, slashes and
-- asterisks, writes `percent` for `%`, and lowers the other letters.
clean_name-collect : (s : Text) → clean_name s ≡ collect clean_byte s
unfolding clean_name replace_bytes to_lower FirstAlone
clean_name-collect [] = refl
clean_name-collect (c ∷ s) = first_alone s c ∙ ap (λ t. clean_byte c ++ t) (clean_name-collect s)
