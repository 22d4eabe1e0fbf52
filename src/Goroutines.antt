-- ===== src/Goroutines.antt =====
-- Goroutines as lists of atomic actions: every order in which a Go program may run them.
use kubemonitor.Common.{
  ℕ, ◌+◌, ◌≡◌, refl, ap, sym, ◌∙◌, subst, append_assoc, Bool, false, List, [], ◌∷◌, ◌++◌, any,
  arith, All, if◌then◌else◌, map,
}
use mathlib.Core.List.{Permᴰ}
use mathlib.Core.List.Permᴰ

module _ {ℓ} {A : Type ℓ} where
  -- The third list is the first two, each in its order.
  pub data Merge : List A → List A → List A → Type ℓ where
    stop : Merge [] [] []
    left : {x : A} {xs ys zs : List A} → Merge xs ys zs → Merge (x ∷ xs) ys (x ∷ zs)
    right : {y : A} {xs ys zs : List A} → Merge xs ys zs → Merge xs (y ∷ ys) (y ∷ zs)

  -- The list is a run of all goroutines to their ends.
  pub data Interleave : List (List A) → List A → Type ℓ where
    no_goroutine : Interleave [] []
    goroutine :
        {g : List A} {gs : List (List A)} {ys zs : List A}
        → Merge g ys zs
        → Interleave gs ys
        → Interleave (g ∷ gs) zs

  unfoldable pub flatten : List (List A) → List A
  flatten [] = []
  flatten (xs ∷ xss) = xs ++ flatten xss

  -- How often the test holds.
  abbrev pub count : (A → Bool) → List A → ℕ
  count p [] = 0
  count p (x ∷ xs) = (if p x then 1 else 0) + count p xs

  abbrev pub total : (A → Bool) → List (List A) → ℕ
  total p [] = 0
  total p (xs ∷ xss) = count p xs + total p xss

  Merge-count :
      (p : A → Bool) {xs ys zs : List A} → Merge xs ys zs → count p zs ≡ count p xs + count p ys
  Merge-count p stop = refl
  Merge-count p (left m) = omega (arith, Merge-count p m)
  Merge-count p (right m) = omega (arith, Merge-count p m)

  pub Interleave-count :
      (p : A → Bool) {gs : List (List A)} {zs : List A} → Interleave gs zs → count p zs ≡ total p gs
  Interleave-count p no_goroutine = refl
  Interleave-count p (goroutine m i) = omega (arith, Merge-count p m, Interleave-count p i)

  Merge-Permᴰ : {xs ys zs : List A} → Merge xs ys zs → Permᴰ zs (xs ++ ys)
  Merge-Permᴰ stop = Permᴰ.nil
  Merge-Permᴰ (left m) = Permᴰ.cons refl (Merge-Permᴰ m)
  Merge-Permᴰ (right {y} {xs} {ys} m) =
      Permᴰ.trans (Permᴰ.cons refl (Merge-Permᴰ m)) (to_middle y xs ys)
    where
      to_middle : (y : A) (xs ys : List A) → Permᴰ (y ∷ xs ++ ys) (xs ++ y ∷ ys)
      to_middle y [] ys = Permᴰ.refl (y ∷ ys)
      to_middle y (x ∷ xs) ys =
          Permᴰ.trans (Permᴰ.swap refl refl) (Permᴰ.cons refl (to_middle y xs ys))

  Interleave-Permᴰ : {gs : List (List A)} {zs : List A} → Interleave gs zs → Permᴰ zs (flatten gs)
  unfolding flatten
  Interleave-Permᴰ no_goroutine = Permᴰ.nil
  Interleave-Permᴰ (goroutine {g} m i) =
      Permᴰ.trans (Merge-Permᴰ m) (Permᴰ.append_left g (Interleave-Permᴰ i))

  -- One goroutine behind the other is a run.
  pub Merge-append : (xs ys : List A) → Merge xs ys (xs ++ ys)
  Merge-append [] [] = stop
  Merge-append [] (y ∷ ys) = right (Merge-append [] ys)
  Merge-append (x ∷ xs) ys = left (Merge-append xs ys)

  pub in_turn : (gs : List (List A)) → Interleave gs (flatten gs)
  unfolding flatten
  in_turn [] = no_goroutine
  in_turn (g ∷ gs) = goroutine (Merge-append g (flatten gs)) (in_turn gs)

module _ {ℓ κ} {A : Type ℓ} {B : Type κ} (f : A → List B) where
  abbrev pub collect : List A → List B
  collect [] = []
  collect (x ∷ xs) = f x ++ collect xs

  pub collect-append : (xs ys : List A) → collect (xs ++ ys) ≡ collect xs ++ collect ys
  collect-append [] ys = refl
  collect-append (x ∷ xs) ys =
      ap (λ l. f x ++ l) (collect-append xs ys) ∙ sym (append_assoc (f x) (collect xs) (collect ys))

  swap_blocks : (xs ys zs : List B) → Permᴰ (xs ++ (ys ++ zs)) (ys ++ (xs ++ zs))
  swap_blocks [] ys zs = Permᴰ.refl (ys ++ zs)
  swap_blocks (x ∷ xs) ys zs =
      Permᴰ.trans (Permᴰ.cons refl (swap_blocks xs ys zs)) (past x ys (xs ++ zs))
    where
      past : (y : B) (xs ys : List B) → Permᴰ (y ∷ xs ++ ys) (xs ++ y ∷ ys)
      past y [] ys = Permᴰ.refl (y ∷ ys)
      past y (x ∷ xs) ys = Permᴰ.trans (Permᴰ.swap refl refl) (Permᴰ.cons refl (past y xs ys))

  collect-Permᴰ : {xs ys : List A} → Permᴰ xs ys → Permᴰ (collect xs) (collect ys)
  collect-Permᴰ Permᴰ.nil = Permᴰ.nil
  collect-Permᴰ (Permᴰ.cons {a} {l₁ = l₁} {l₂ = l₂} e d) =
      subst (λ b. Permᴰ (collect (a ∷ l₁)) (f b ++ collect l₂)) e
        (Permᴰ.append_left (f a) (collect-Permᴰ d))
  collect-Permᴰ (Permᴰ.swap {a} {b} {a' = a'} {b' = b'} {l = l} e₁ e₂) =
      subst (λ c. Permᴰ (f a ++ (f b ++ collect l)) (f c ++ (f b' ++ collect l))) e₂
        (subst (λ c. Permᴰ (f a ++ (f b ++ collect l)) (f b ++ (f c ++ collect l))) e₁
          (swap_blocks (f a) (f b) (collect l)))
  collect-Permᴰ (Permᴰ.trans d₁ d₂) = Permᴰ.trans (collect-Permᴰ d₁) (collect-Permᴰ d₂)

  -- A run collects what the goroutines collect, in some order.
  pub Interleave-collect :
      {gs : List (List A)} {zs : List A}
      → Interleave gs zs
      → Permᴰ (collect zs) (collect (flatten gs))
  Interleave-collect i = collect-Permᴰ (Interleave-Permᴰ i)

-- No action of a run passes a test that no action of the goroutines passes.
pub any-Interleave {ℓ} :
    {A : Type ℓ} (p : A → Bool) {gs : List (List A)} {zs : List A}
    → Interleave gs zs
    → total p gs ≡ 0
    → any p zs ≡ false
any-Interleave {A = A} p {gs} {zs} i none_there =
    none_counted zs (omega (arith, Interleave-count p i))
  where
    none_counted : (xs : List A) → count p xs ≡ 0 → any p xs ≡ false
    none_counted [] h = refl
    none_counted (x ∷ xs) h = ground (arith, none_counted xs)

pub any-prefix {ℓ} :
    {A : Type ℓ} (p : A → Bool) (xs ys : List A) → any p (xs ++ ys) ≡ false → any p xs ≡ false
any-prefix p [] ys h = refl
any-prefix p (x ∷ xs) ys h = ground (arith, any-prefix p xs ys)

pub total-zero {ℓ κ} :
    {A : Type ℓ} {B : Type κ} (p : A → Bool) (go : B → List A) (xs : List B)
    → All (λ x. count p (go x) ≡ 0) xs
    → total p (map go xs) ≡ 0
total-zero p go [] h = refl
total-zero p go (x ∷ xs) h = omega (arith, h.0, total-zero p go xs h.1)

pub Interleave-All {ℓ κ} :
    {A : Type ℓ} (P : A → Type κ) {gs : List (List A)} {zs : List A}
    → Interleave gs zs
    → All (All P) gs
    → All P zs
Interleave-All P no_goroutine h = tt
Interleave-All {A = A} P (goroutine m i) h = merged m h.0 (Interleave-All P i h.1)
  where
    merged : {xs ys zs : List A} → Merge xs ys zs → All P xs → All P ys → All P zs
    merged stop h k = tt
    merged (left m) h k = (h.0, merged m h.1 k)
    merged (right m) h k = (k.0, merged m h k.1)

module _ {ℓ κ} {A : Type ℓ} {B : Type κ} (f : A → List B) where
  -- The goroutines collect nothing, but for one.
  pub data Sole (bs : List B) : List (List A) → Type (ℓ ⊔ κ) where
    sole :
        {g : List A} {gs : List (List A)}
        → collect f g ≡ bs
        → All (λ h. collect f h ≡ []) gs
        → Sole bs (g ∷ gs)
    other : {g : List A} {gs : List (List A)} → collect f g ≡ [] → Sole bs gs → Sole bs (g ∷ gs)

  split_nil : (xs ys : List B) → xs ++ ys ≡ [] → (xs ≡ []) × (ys ≡ [])
  split_nil [] ys e = (refl, e)
  split_nil (x ∷ xs) ys e = absurd (cc)

  Merge-left :
      {xs ys zs : List A} → Merge xs ys zs → collect f ys ≡ [] → collect f zs ≡ collect f xs
  Merge-left stop e = refl
  Merge-left (left {x} m) e = ap (λ bs. f x ++ bs) (Merge-left m e)
  Merge-left (right {y} {ys = ys} {zs = zs} m) e =
      let (here, later) = split_nil (f y) (collect f ys) e in
      ap (λ bs. bs ++ collect f zs) here ∙ Merge-left m later

  Merge-right :
      {xs ys zs : List A} → Merge xs ys zs → collect f xs ≡ [] → collect f zs ≡ collect f ys
  Merge-right stop e = refl
  Merge-right (right {y} m) e = ap (λ bs. f y ++ bs) (Merge-right m e)
  Merge-right (left {x} {xs = xs} {zs = zs} m) e =
      let (here, later) = split_nil (f x) (collect f xs) e in
      ap (λ bs. bs ++ collect f zs) here ∙ Merge-right m later

  Interleave-nil :
      {gs : List (List A)} {zs : List A}
      → Interleave gs zs
      → All (λ h. collect f h ≡ []) gs
      → collect f zs ≡ []
  Interleave-nil no_goroutine h = refl
  Interleave-nil (goroutine m i) h = Merge-right m h.0 ∙ Interleave-nil i h.1

  -- What one goroutine collects is collected in its order, if the others collect nothing.
  pub Interleave-Sole :
      {bs : List B} {gs : List (List A)} {zs : List A}
      → Interleave gs zs
      → Sole bs gs
      → collect f zs ≡ bs
  Interleave-Sole no_goroutine s = elim s [ ]
  Interleave-Sole (goroutine m i) (sole e h) = Merge-left m (Interleave-nil i h) ∙ e
  Interleave-Sole (goroutine m i) (other e s) = Merge-right m e ∙ Interleave-Sole i s
