-- ===== src/Http.antt =====
-- The parts of Go's `net/http` that `post` uses: header maps with canonical keys, and basic
-- authentication.
use kubemonitor.Common.{
  ℕ, ◌+◌, ◌*◌, ◌/◌, ◌%◌, ◌≡◌, refl, Bool, true, not, ◌&&◌, ◌||◌, Option, none, some, List, [], ◌∷◌,
  ◌++◌, leb, ◌==◌, if◌then◌else◌, get_elem?, any, Text, codes, text_eq, lower_byte, upper_byte, Map,
  lookup, insert, lookup-insert,
}

abbrev pub Header : Type 0
Header = Map (List Text)

is_alnum : ℕ → Bool
is_alnum c = (leb b'0' c && leb c b'9') || (leb b'a' c && leb c b'z') || (leb b'A' c && leb c b'Z')

-- The bytes of a header name.
is_token : ℕ → Bool
unfolding is_alnum
is_token c = is_alnum c || any (λ p. p == c) (codes "!#$%&'*+-.^_`|~")

canonical : Bool → Text → Text
unfolding upper_byte lower_byte
canonical up [] = []
canonical up (c ∷ s) = (if up then upper_byte c else lower_byte c) ∷ canonical (c == b'-') s

-- `textproto.CanonicalMIMEHeaderKey`: a name with a byte that no name holds is kept.
unfoldable pub canonical_key : Text → Text
unfolding is_token canonical
canonical_key k = if any (λ c. not (is_token c)) k then k else canonical true k

abbrev pub values : Option (List Text) → List Text
values none = []
values (some vs) = vs

-- `Header.Add` and `Header.Set`.
unfoldable pub header_add : Text → Text → Header → Header
header_add k v h = insert (canonical_key k) (values (lookup (canonical_key k) h) ++ v ∷ []) h

unfoldable pub header_set : Text → Text → Header → Header
header_set k v h = insert (canonical_key k) (v ∷ []) h

pub lookup-header_add :
    (k j u : Text) (h : Header)
    → lookup j (header_add k u h) ≡ (
        if text_eq (canonical_key k) j
        then some (values (lookup (canonical_key k) h) ++ u ∷ [])
        else lookup j h)
unfolding header_add
lookup-header_add k j u h = lookup-insert (canonical_key k) j _ h

pub lookup-header_set :
    (k j u : Text) (h : Header)
    → lookup j (header_set k u h)
      ≡ (if text_eq (canonical_key k) j then some (u ∷ []) else lookup j h)
unfolding header_set
lookup-header_set k j u h = lookup-insert (canonical_key k) j _ h

alphabet : Text
alphabet = codes "ABCDEFGHIJKLMNOPQRSTUVWXYZabcdefghijklmnopqrstuvwxyz0123456789+/"

sextet : ℕ → ℕ
unfolding alphabet
sextet i = elim (get_elem? alphabet i) [ some c ↦ c | none ↦ b'=' ]

-- Base64 with padding.
unfoldable pub base64 : Text → Text
unfolding sextet
base64 [] = []
base64 (a ∷ []) = sextet (a / 4) ∷ sextet (a % 4 * 16) ∷ b'=' ∷ b'=' ∷ []
base64 (a ∷ b ∷ []) =
    sextet (a / 4) ∷ sextet (a % 4 * 16 + b / 16) ∷ sextet (b % 16 * 4) ∷ b'=' ∷ []
base64 (a ∷ b ∷ c ∷ s) =
    sextet (a / 4)
    ∷ sextet (a % 4 * 16 + b / 16)
    ∷ sextet (b % 16 * 4 + c / 64)
    ∷ sextet (c % 64)
    ∷ base64 s

-- The value that `SetBasicAuth` gives the header `Authorization`.
unfoldable pub basic_auth : Text → Text → Text
unfolding base64
basic_auth user pass = codes "Basic " ++ base64 (user ++ b':' ∷ pass)

base64_tests :
    (base64 (codes "Man") ≡ codes "TWFu")
    × (base64 (codes "Ma") ≡ codes "TWE=")
    × (base64 (codes "M") ≡ codes "TQ==")
    × (canonical_key (codes "x-scope-ORGID") ≡ codes "X-Scope-Orgid")
unfolding base64 canonical_key
base64_tests = (refl, refl, refl, refl)
