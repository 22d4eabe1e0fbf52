-- ===== src/Common/Strings.antt =====
-- Go strings: a string is the list of its bytes. The functions are those of package `strings`
-- that the program calls, at ASCII (`to_lower` leaves the bytes above 127 alone).
use Prim.Native.Nat.{ℕ, ◌+◌, ◌-◌}
use Prim.Native.Char.{code}
use Prim.Native.String.{String}
use mathlib.Core.Path.{◌≡◌, refl}
use mathlib.Core.Logic.{◌≢◌, ◌↔◌}
use mathlib.Core.Bool.{Bool, true, false, ◌&&◌, ◌||◌}
use mathlib.Core.List.{List, [], ◌∷◌, ◌++◌, map, reverse}
use native.Mathlib.Omega.{arith}
use kubemonitor.Common.Tests.{◌==◌, leb, if◌then◌else◌}
use kubemonitor.Common.Lists.{length, drop, take, any}

abbrev pub Text : Type 0
Text = List ℕ

-- The bytes of an ASCII literal.
abbrev pub codes : String → Text
codes String.[] = []
codes (String.◌∷◌ c s) = code c ∷ codes s

-- `a == b` on strings.
unfoldable pub text_eq : Text → Text → Bool
text_eq [] [] = true
text_eq [] (b ∷ bs) = false
text_eq (a ∷ as') [] = false
text_eq (a ∷ as') (b ∷ bs) = (a == b) && text_eq as' bs

pub text_eq_refl : (a : Text) → text_eq a a ≡ true
unfolding text_eq
text_eq_refl [] = refl
text_eq_refl (a ∷ s) = ground (arith, text_eq_refl s)

pub text_eq_sound : (a b : Text) → text_eq a b ≡ true → a ≡ b
unfolding text_eq
text_eq_sound [] [] h = refl
text_eq_sound [] (b ∷ bs) h = cc
text_eq_sound (a ∷ s) [] h = cc
text_eq_sound (a ∷ s) (b ∷ t) h = ground (arith, text_eq_sound s t)

pub text_eq_iff : (a b : Text) → (text_eq a b ≡ true) ↔ (a ≡ b)
text_eq_iff a b = (text_eq_sound a b, λ e. rw e (text_eq_refl b))

pub text_eq_ne : (a b : Text) → a ≢ b → text_eq a b ≡ false
text_eq_ne a b ne = ground (arith, text_eq_iff a b)

-- A Go `switch` over string cases, or a chain of `==` joined by `||`.
abbrev pub one_of : List Text → Text → Bool
one_of ks s = any (text_eq s) ks

unfoldable pub has_prefix : Text → Text → Bool
has_prefix s [] = true
has_prefix [] (p ∷ ps) = false
has_prefix (c ∷ s) (p ∷ ps) = (c == p) && has_prefix s ps

unfoldable pub has_suffix : Text → Text → Bool
unfolding has_prefix
has_suffix s p = has_prefix (reverse s) (reverse p)

-- `strings.Contains`.
unfoldable pub contains : Text → Text → Bool
unfolding has_prefix
contains [] p = has_prefix [] p
contains (c ∷ s) p = has_prefix (c ∷ s) p || contains s p

-- `strings.TrimPrefix` and `strings.TrimSuffix`.
unfoldable pub trim_prefix : Text → Text → Text
unfolding has_prefix
trim_prefix s p = if has_prefix s p then drop (length p) s else s

unfoldable pub trim_suffix : Text → Text → Text
unfolding has_suffix
trim_suffix s p = if has_suffix s p then take (length s - length p) s else s

-- `strings.TrimLeft(s, cutset)`: as long as the first byte is in the set.
unfoldable pub trim_left : (ℕ → Bool) → Text → Text
trim_left p [] = []
trim_left p (c ∷ s) = if p c then trim_left p s else c ∷ s

pub is_space : ℕ → Bool
is_space c = (c == 32) || (leb 9 c && leb c 13)

-- `strings.TrimSpace`, of the spaces of ASCII.
unfoldable pub trim_space : Text → Text
unfolding trim_left is_space
trim_space s = reverse (trim_left is_space (reverse (trim_left is_space s)))

unfoldable pub lower_byte : ℕ → ℕ
lower_byte c = if leb b'A' c && leb c b'Z' then c + 32 else c

unfoldable pub upper_byte : ℕ → ℕ
upper_byte c = if leb b'a' c && leb c b'z' then c - 32 else c

unfoldable pub to_lower : Text → Text
unfolding lower_byte
to_lower s = map lower_byte s

-- `strings.Split(s, sep)` at a separator of one byte: always at least one part.
unfoldable pub split_byte : ℕ → Text → Text × List Text
split_byte sep [] = ([], [])
split_byte sep (c ∷ s) =
    let (cur, parts) = split_byte sep s in if c == sep then ([], cur ∷ parts) else (c ∷ cur, parts)

unfoldable pub split : Text → ℕ → List Text
unfolding split_byte
split s sep = let (first, rest) = split_byte sep s in first ∷ rest

-- A replacer, or `strings.Replace(s, old, new, -1)`, whose old strings are single bytes.
unfoldable pub replace_bytes : (ℕ → Bool) → Text → Text → Text
replace_bytes p new [] = []
replace_bytes p new (c ∷ s) = (if p c then new else c ∷ []) ++ replace_bytes p new s

unfoldable pub join : List Text → Text → Text
join [] sep = []
join (s ∷ []) sep = s
join (s ∷ t ∷ r) sep = s ++ sep ++ join (t ∷ r) sep
