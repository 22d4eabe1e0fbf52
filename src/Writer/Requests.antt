-- ===== src/Writer/Requests.antt =====
-- The request of a post: what the option's header list and credentials put into it.
use kubemonitor.Common.{
  ◌≡◌, ◌≢◌, ◌⊎◌, inl, inr, refl, sym, subst, ◌∙◌, false, none, some, List, [], ◌∷◌, ◌++◌, arith,
  ◌==◌, if◌then◌else◌, suc_test, Bool-cases, Option-cases, length, Text, codes, text_eq,
  text_eq_refl, text_eq_sound, text_eq_ne, lookup,
}
use mathlib.Core.Option
use kubemonitor.Http.{
  Header, canonical_key, basic_auth, values, header_add, header_set, lookup-header_add,
  lookup-header_set,
}
use kubemonitor.Writer.{
  WriterOption, Request, Transport, prepared, add_headers, fixed_headers, authorize, prepare,
}

abbrev pub In : Text → List Text → Type 0
In v [] = ⊥
In v (w ∷ ws) = (v ≡ w) ⊎ In v ws

-- The request has the value under the name.
abbrev pub Holds : Text → Text → Header → Type 0
Holds k v h = In v (values (lookup (canonical_key k) h))

-- Every pair of a name and a value satisfies the predicate.
abbrev pub Pairs : (Text → Text → Type 0) → List Text → Type 0
Pairs P [] = Unit
Pairs P (k ∷ []) = Unit
Pairs P (k ∷ v ∷ r) = P k v × Pairs P r

In-append_left : (v : Text) (xs ys : List Text) → In v xs → In v (xs ++ ys)
In-append_left v [] ys h = absurd h
In-append_left v (x ∷ xs) ys (inl e) = inl e
In-append_left v (x ∷ xs) ys (inr h) = inr (In-append_left v xs ys h)

In-snoc : (v : Text) (xs : List Text) → In v (xs ++ v ∷ [])
In-snoc v [] = inl refl
In-snoc v (x ∷ xs) = inr (In-snoc v xs)

Holds-header_add : (k v j u : Text) (h : Header) → Holds k v h → Holds k v (header_add j u h)
Holds-header_add k v j u h p = elim (Bool-cases (text_eq (canonical_key j) (canonical_key k))) [
  | inl e ↦
      rw (lookup-header_add j (canonical_key k) u h, e)
        (rw (text_eq_sound (canonical_key j) (canonical_key k) e)
          (In-append_left v (values (lookup (canonical_key k) h)) (u ∷ []) p))
  | inr e ↦ rw (lookup-header_add j (canonical_key k) u h, e) p
]

header_add-Holds : (k v : Text) (h : Header) → Holds k v (header_add k v h)
header_add-Holds k v h =
    rw (lookup-header_add k (canonical_key k) v h, text_eq_refl (canonical_key k))
      (In-snoc v (values (lookup (canonical_key k) h)))

-- What `add_headers` keeps of a request, and what it adds to it.
add_headers-Holds :
    (k v : Text) (hs : List Text) (r r' : Request)
    → add_headers hs r ≡ some r'
    → Holds k v r.header
    → Holds k v r'.header
unfolding add_headers
add_headers-Holds k v [] r r' e h =
    subst (λ (q : Request). Holds k v q.header) (Option.some-injective r r' e) h
add_headers-Holds k v (j ∷ []) r r' e h = cc
add_headers-Holds k v (j ∷ u ∷ hs) r r' e h =
    add_headers-Holds k v hs _ r' e (Holds-header_add k v j u r.header h)

add_headers-Pairs :
    (hs : List Text) (r r' : Request)
    → add_headers hs r ≡ some r'
    → Pairs (λ k v. Holds k v r'.header) hs
unfolding add_headers
add_headers-Pairs [] r r' e = tt
add_headers-Pairs (k ∷ []) r r' e = tt
add_headers-Pairs (k ∷ v ∷ hs) r r' e =
    (add_headers-Holds k v hs _ r' e (header_add-Holds k v r.header), add_headers-Pairs hs _ r' e)

add_headers-same :
    (hs : List Text) (r r' : Request)
    → add_headers hs r ≡ some r'
    → (r'.url ≡ r.url) × (r'.body ≡ r.body)
unfolding add_headers
add_headers-same [] r r' e = ground arith
add_headers-same (k ∷ []) r r' e = cc
add_headers-same (k ∷ v ∷ hs) r r' e = add_headers-same hs _ r' e

abbrev authorization : Text
authorization = codes "Authorization"

authorization-canonical : canonical_key authorization ≡ authorization
unfolding canonical_key
authorization-canonical = refl

lookup-set_authorization :
    (j u : Text) (h : Header)
    → lookup j (header_set authorization u h)
      ≡ (if text_eq authorization j then some (u ∷ []) else lookup j h)
lookup-set_authorization j u h = lookup-header_set authorization j u h ∙ rw authorization-canonical

authorize-Holds :
    (opts : WriterOption) (r : Request) (k v : Text)
    → Holds k v r.header
    → canonical_key k ≢ authorization
    → Holds k v (authorize opts r).header
unfolding authorize
authorize-Holds opts r k v h ne = elim (Bool-cases (length opts.basic_auth_user == 0)) [
  | inl e ↦ rw (e, authorize) h
  | inr e ↦
      rw
        (
          e,
          lookup-set_authorization (canonical_key k)
              (basic_auth opts.basic_auth_user opts.basic_auth_pass) r.header,
          text_eq_ne authorization (canonical_key k) (λ c. ne (sym c)),
        )
        h
]

length_pos : (s : Text) → s ≢ [] → (length s == 0) ≡ false
length_pos [] h = absurd (h refl)
length_pos (c ∷ s) h = suc_test (length s)

authorize-set :
    (opts : WriterOption) (r : Request)
    → opts.basic_auth_user ≢ []
    → lookup authorization (authorize opts r).header
      ≡ some (basic_auth opts.basic_auth_user opts.basic_auth_pass ∷ [])
unfolding authorize
authorize-set opts r ne =
    rw (length_pos opts.basic_auth_user ne)
      (rw (lookup-set_authorization, text_eq_refl authorization))

Pairs-map :
    {P Q : Text → Text → Type 0} (hs : List Text)
    → ((k v : Text) → P k v → Q k v)
    → Pairs P hs
    → Pairs Q hs
Pairs-map [] f p = tt
Pairs-map (k ∷ []) f p = tt
Pairs-map (k ∷ v ∷ hs) f p = (f k v p.0, Pairs-map hs f p.1)

-- The request that the loop over the headers starts from.
abbrev blank : WriterOption → Text → Request
blank opts req = record { url = opts.url; body = req; header = fixed_headers; host = none }

authorize-same :
    (opts : WriterOption) (r : Request)
    → ((authorize opts r).url ≡ r.url) × ((authorize opts r).body ≡ r.body)
unfolding authorize
authorize-same opts r = ground arith

prepare-inv :
    {C F : Type 0} (net : Transport C F) (opts : WriterOption) (req : Text) (r : Request)
    → prepare net opts req ≡ prepared r
    → (r' : Request) × (add_headers opts.headers (blank opts req) ≡ some r')
      × (r ≡ authorize opts r')
unfolding prepare
prepare-inv net opts req r e = elim (Option-cases (add_headers opts.headers (blank opts req))) [
  | inl bad ↦ absurd (ground arith)
  | inr (r', good) ↦ (r', good, ground arith)
]

-- A request that `post` sends has the URL of the options and the given body; every name and value
-- of the options' header list, except under `Authorization`; and under that, if there is a user,
-- the credentials of the options and nothing else.
pub prepare-prepared :
    {C F : Type 0} (net : Transport C F) (opts : WriterOption) (req : Text) (r : Request)
    → prepare net opts req ≡ prepared r
    → (r.url ≡ opts.url)
      × (r.body ≡ req)
      × Pairs (λ k v. canonical_key k ≢ authorization → Holds k v r.header) opts.headers
      × (opts.basic_auth_user ≢ []
          → lookup authorization r.header
            ≡ some (basic_auth opts.basic_auth_user opts.basic_auth_pass ∷ []))
prepare-prepared net opts req r e =
    let (r', built, same) = prepare-inv net opts req r e in
    let (url, body) = add_headers-same opts.headers (blank opts req) r' built in
    let (url', body') = authorize-same opts r' in
    rw same (
      url' ∙ url,
      body' ∙ body,
      Pairs-map opts.headers (λ k v. authorize-Holds opts r' k v)
          (add_headers-Pairs opts.headers (blank opts req) r' built),
      authorize-set opts r',
    )
