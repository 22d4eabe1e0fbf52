-- ===== src/Stringx.antt =====
-- pkg/stringx/strx.go: names in snake case. A string is its list of runes; the tables of package
-- unicode are a parameter.
pub mod Snake
pub mod Tests
use kubemonitor.Common.{
  ℕ, Bool, true, false, not, ◌&&◌, ◌||◌, List, [], ◌∷◌, ◌++◌, ◌==◌, if◌then◌else◌, to_lower,
}

-- `unicode.IsUpper`, `unicode.IsLower` and `unicode.ToLower`.
pub record Unicode : Type 0 where
  pub is_upper : ℕ → Bool
  pub is_lower : ℕ → Bool
  pub to_lower : ℕ → ℕ

-- The rune behind is there, and lower.
abbrev next_is_lower : Unicode → List ℕ → Bool
next_is_lower u [] = false
next_is_lower u (d ∷ rest) = u.is_lower d

abbrev at_end : List ℕ → Bool
at_end [] = true
at_end (d ∷ rest) = false

-- The `_` in front of a rune that is not the first.
abbrev separator : Unicode → ℕ → ℕ → List ℕ → List ℕ
separator u p c rest =
    if u.is_upper c && (next_is_lower u rest || u.is_lower p) && not (p == b'_')
    then b'_' ∷ []
    else []

-- A rune that is passed over behind the first one.
abbrev skipped : ℕ → ℕ → List ℕ → Bool
skipped p c rest = ((c == b'_') && (p == b'_')) || (at_end rest && (c == b'_'))

-- The loop from the second rune on, with the rune in front.
unfoldable pub snake_from : Unicode → ℕ → List ℕ → List ℕ
snake_from u p [] = []
snake_from u p (c ∷ rest) =
    let out = snake_from u c rest in
    if c == b'.'
    then out
    else if skipped p c rest
    then out
    else separator u p c rest ++ u.to_lower c ∷ out

unfoldable pub snake_case : Unicode → List ℕ → List ℕ
snake_case u [] = []
snake_case u (c ∷ rest) =
    let out = snake_from u c rest in if c == b'.' then out else u.to_lower c ∷ out
