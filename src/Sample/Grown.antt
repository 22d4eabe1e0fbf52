-- ===== src/Sample/Grown.antt =====
-- What a method only adds to a list of samples.
use kubemonitor.Common.{
  ◌≡◌, refl, sym, ap, ◌∙◌, some, List, [], ◌∷◌, ◌++◌, map, append_assoc, append-nil, All,
  All-append, Text, codes, text_eq, Map, lookup, insert_all, Distinct, insert_all-Distinct,
  lookup-insert_all,
}
use kubemonitor.SafeList.{push_front}
use kubemonitor.SafeList.Fifo.{queue, queue-push_front}
use kubemonitor.Sample.{Sample, SampleList}

abbrev pub address : Text
address = codes "address"

-- A map without a key twice, with the address of the server.
abbrev pub IsTagged : Text → Map Text → Type 0
IsTagged addr tags = Distinct tags × (lookup address tags ≡ some addr)

pub copy-IsTagged :
    (addr : Text) (tags : Map Text) → IsTagged addr tags → IsTagged addr (insert_all tags [])
copy-IsTagged addr tags (d, h) =
    (insert_all-Distinct tags [] tt, lookup-insert_all address tags [] d ∙ rw h)

pub address-IsTagged : (addr : Text) → IsTagged addr ((address, addr) ∷ [])
address-IsTagged addr = unfold lookup text_eq in ((refl, tt), refl)

module _ {F : Type 0} where
  -- The second list is the first, with samples of a kind behind it.
  pub record Grown (P : Sample F → Type 0) (l l' : SampleList F) : Type 0 where
    pub more : List (Sample F)
    pub added : queue l' ≡ queue l ++ map (λ s. some s) more
    pub all_are : All P more

  pub Grown-refl : (P : Sample F → Type 0) (l : SampleList F) → Grown P l l
  Grown-refl P l = record { more = []; added = sym (append-nil (queue l)); all_are = tt }

  pub map-append :
      (xs ys : List (Sample F))
      → map (λ s. some s) (xs ++ ys) ≡ map (λ s. some s) xs ++ map (λ s. some s) ys
  map-append [] ys = refl
  map-append (x ∷ xs) ys = ap (◌∷◌ (some x)) (map-append xs ys)

  pub Grown-trans :
      (P : Sample F → Type 0) {a b c : SampleList F} → Grown P a b → Grown P b c → Grown P a c
  Grown-trans P {a} g h = record {
    more = g.more ++ h.more;
    added =
        h.added
        ∙ ap (λ l. l ++ map (λ s. some s) h.more) g.added
        ∙ append_assoc (queue a) (map (λ s. some s) g.more) (map (λ s. some s) h.more)
        ∙ ap (λ l. queue a ++ l) (sym (map-append g.more h.more));
    all_are = All-append P g.more h.more g.all_are h.all_are;
  }

  pub push-Grown :
      (P : Sample F → Type 0) (s : Sample F) (l : SampleList F)
      → P s
      → Grown P l (push_front (some s) l)
  push-Grown P s l p = record { more = s ∷ []; added = queue-push_front _ l; all_are = (p, tt) }
