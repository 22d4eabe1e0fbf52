-- ===== src/Stringx/Snake.antt =====
-- What a name in snake case does not hold.
use kubemonitor.Common.{ℕ, ◌≡◌, ◌≢◌, refl, Bool, false, ◌&&◌, List, [], ◌∷◌, arith, ◌==◌, All}
use kubemonitor.Stringx.{Unicode, snake_from, snake_case}

-- What the tables say of `.` and `_`, and of what `ToLower` gives.
pub record IsSane (u : Unicode) : Type 0 where
  pub dot : (c : ℕ) → u.to_lower c ≡ b'.' → c ≡ b'.'
  pub underscore : (c : ℕ) → u.to_lower c ≡ b'_' → c ≡ b'_'
  pub not_upper : u.is_upper b'_' ≡ false
  pub lowered : (c : ℕ) → u.is_upper (u.to_lower c) ≡ false

-- Neither `.` nor an upper-case rune.
abbrev pub IsSnake : Unicode → ℕ → Type 0
IsSnake u c = (c ≢ b'.') × (u.is_upper c ≡ false)

abbrev pub starts_with_underscore : List ℕ → Bool
starts_with_underscore [] = false
starts_with_underscore (c ∷ s) = c == b'_'

-- No two `_` in a row.
abbrev pub NoDouble : List ℕ → Type 0
NoDouble [] = Unit
NoDouble (c ∷ s) = ((c == b'_') && starts_with_underscore s ≡ false) × NoDouble s

module _ (u : Unicode) (sane : IsSane u) where
  snake_from-IsSnake : (p : ℕ) (s : List ℕ) → All (IsSnake u) (snake_from u p s)
  unfolding snake_from
  snake_from-IsSnake p [] = tt
  snake_from-IsSnake p (c ∷ rest) =
      ground (arith, snake_from-IsSnake c rest, sane.dot c, sane.lowered c, sane.not_upper)

  snake_from-NoDouble :
      (p : ℕ) (s : List ℕ)
      → All (λ c. c ≢ b'.') s
      → NoDouble (snake_from u p s) × (p ≡ b'_' → starts_with_underscore (snake_from u p s) ≡ false)
  unfolding snake_from
  snake_from-NoDouble p [] h = (tt, λ e. refl)
  snake_from-NoDouble p (c ∷ rest) h =
      let (doubles, start) = snake_from-NoDouble c rest h.1 in
      (
        ground (arith, doubles, start, sane.underscore c, sane.not_upper, h.0),
        λ e. ground (arith, start, sane.underscore c, sane.not_upper, h.0),
      )

  -- If the tables of runes are sane, a name in snake case holds no `.` and no upper-case rune; and
  -- if the name that it is made of holds no `.`, it has no two `_` in a row.
  snake_case_lem :
      (s : List ℕ)
      → All (IsSnake u) (snake_case u s) × (All (λ c. c ≢ b'.') s → NoDouble (snake_case u s))
  unfolding snake_case
  snake_case_lem [] = (tt, λ h. tt)
  snake_case_lem (c ∷ rest) = (
    ground (arith, snake_from-IsSnake c rest, sane.dot c, sane.lowered c),
    λ h. ground (arith, snake_from-NoDouble c rest h.1, sane.underscore c, h.0),
  )
