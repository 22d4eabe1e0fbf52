-- ===== src/Writer/Prepare.antt =====
-- Which requests are made, and which options make the code panic.
use kubemonitor.Common.{◌≡◌, ◌≢◌, refl, true, none, some, List, [], ◌∷◌, arith, Text}
use kubemonitor.Writer.{
  WriterOption, Request, Transport, add_headers, fixed_headers, prepare, crashed,
}

-- Names and values alternate.
abbrev pub IsEven {ℓ} : {A : Type ℓ} → List A → Type 0
IsEven [] = Unit
IsEven (x ∷ []) = ⊥
IsEven (x ∷ y ∷ r) = IsEven r

pub add_headers-some :
    (hs : List Text) (r : Request) → IsEven hs → (r' : Request) × (add_headers hs r ≡ some r')
unfolding add_headers
add_headers-some [] r h = (r, refl)
add_headers-some (k ∷ []) r h = absurd h
add_headers-some (k ∷ v ∷ hs) r h = add_headers-some hs _ h

add_headers-none : (hs : List Text) (r : Request) → ¬ IsEven hs → add_headers hs r ≡ none
unfolding add_headers
add_headers-none [] r h = absurd (h tt)
add_headers-none (k ∷ []) r h = refl
add_headers-none (k ∷ v ∷ hs) r h = add_headers-none hs _ h

module _ {C F : Type 0} (net : Transport C F) where
  pub prepare-crashed :
      (opts : WriterOption) (req : Text)
      → net.url_is_valid opts.url ≡ true
      → ¬ IsEven opts.headers
      → prepare net opts req ≡ crashed
  unfolding prepare
  prepare-crashed opts req valid odd = rw (valid, add_headers-none opts.headers _ odd)

  pub prepare-total :
      (opts : WriterOption) (req : Text) → IsEven opts.headers → prepare net opts req ≢ crashed
  unfolding prepare
  prepare-total opts req even =
      let r : Request = record {
        url = opts.url;
        body = req;
        header = fixed_headers;
        host = none;
      } in
      ground (arith, add_headers-some opts.headers r even)
