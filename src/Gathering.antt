-- ===== src/Gathering.antt =====
-- What one goroutine of a handler does to its list: the calls of pkg/types/sample_list.go that it
-- makes, in order, and how it ends. Other goroutines may call in between.
use kubemonitor.Common.{
  ◌≡◌, refl, ap, sym, ◌∙◌, subst, append_assoc, All, All-append, List, [], ◌∷◌, ◌++◌, map, some,
  Text, Map,
}
use kubemonitor.Value.{Value}
use kubemonitor.SafeList.{push_front, push_front_n}
use kubemonitor.Sample.{Sample, SampleList, new_sample}
use kubemonitor.Writer.{Outcome, ok, failed, panicked}

-- `PushSample` and `PushSamples` of a list, each in one hold of its lock.
pub data Push (F : Type 0) : Type 0 where
  push_one : Sample F → Push F
  push_many : List (Sample F) → Push F

abbrev pub Gathered : Type 0 → Type 0
Gathered F = Outcome × List (Push F)

module _ {F : Type 0} where
  unfoldable pub perform_push : Push F → SampleList F → SampleList F
  unfolding push_front push_front_n
  perform_push (push_one s) slist = push_front (some s) slist
  perform_push (push_many samples) slist = push_front_n (map (λ s. some s) samples) slist

  -- `slist.PushSample(prefix, metric, value, labels...)`.
  abbrev pub sample_pushed : Text → Text → Value F → List (Map Text) → Push F
  sample_pushed prefix metric value labels = push_one (new_sample prefix metric value labels)

  -- `slist.PushSamples(prefix, fields, labels...)`.
  abbrev pub samples_pushed : Text → Map (Value F) → List (Map Text) → Push F
  samples_pushed prefix fields labels =
      push_many (map (λ (f : Text × Value F). new_sample prefix f.0 f.1 labels) fields)

  -- `if err := ...; err != nil { return err }`, and the rest.
  unfoldable pub then_do : Gathered F → Gathered F → Gathered F
  then_do (ok, pushes) (o, more) = (o, pushes ++ more)
  then_do (failed, pushes) rest = (failed, pushes)
  then_do (panicked, pushes) rest = (panicked, pushes)

  -- A loop over a slice or a map that returns the first error.
  unfoldable pub for_each {ℓ} : {A : Type ℓ} → (A → Gathered F) → List A → Gathered F
  unfolding then_do
  for_each body [] = (ok, [])
  for_each body (x ∷ xs) = then_do (body x) (for_each body xs)

  -- The fields of a flattened value, each pushed, or the error of the flattening.
  unfoldable pub push_flattened : (Text × Value F → Push F) → Outcome × Map (Value F) → Gathered F
  push_flattened push (ok, fields) = (ok, map push fields)
  push_flattened push (failed, fields) = (failed, [])
  push_flattened push (panicked, fields) = (panicked, [])

  -- The samples of the calls, in order.
  abbrev pub pushed_samples : List (Push F) → List (Sample F)
  pushed_samples [] = []
  pushed_samples (push_one s ∷ pushes) = s ∷ pushed_samples pushes
  pushed_samples (push_many samples ∷ pushes) = samples ++ pushed_samples pushes

module _ {F : Type 0} where
  pub pushed_samples-append :
      (xs ys : List (Push F)) → pushed_samples (xs ++ ys) ≡ pushed_samples xs ++ pushed_samples ys
  pushed_samples-append [] ys = refl
  pushed_samples-append (push_one s ∷ xs) ys = ap (◌∷◌ s) (pushed_samples-append xs ys)
  pushed_samples-append (push_many samples ∷ xs) ys =
      ap (λ l. samples ++ l) (pushed_samples-append xs ys)
      ∙ sym (append_assoc samples (pushed_samples xs) (pushed_samples ys))

-- What holds of every sample that a part pushes.
module _ {F : Type 0} (P : Sample F → Type 0) where
  abbrev pub AllPushed : Gathered F → Type 0
  AllPushed g = All P (pushed_samples g.1)

  pub then_do-AllPushed : (g h : Gathered F) → AllPushed g → AllPushed h → AllPushed (then_do g h)
  unfolding then_do
  then_do-AllPushed (ok, ps) (o, qs) a b =
      subst (All P) (sym (pushed_samples-append ps qs))
        (All-append P (pushed_samples ps) (pushed_samples qs) a b)
  then_do-AllPushed (failed, ps) h a b = a
  then_do-AllPushed (panicked, ps) h a b = a

  pub for_each-AllPushed {ℓ} :
      {A : Type ℓ} (body : A → Gathered F) (xs : List A)
      → ((x : A) → AllPushed (body x))
      → AllPushed (for_each body xs)
  unfolding for_each
  for_each-AllPushed body [] h = tt
  for_each-AllPushed body (x ∷ xs) h =
      then_do-AllPushed (body x) (for_each body xs) (h x) (for_each-AllPushed body xs h)

  pub cons-AllPushed :
      (push : Push F) (ps : List (Push F))
      → All P (pushed_samples (push ∷ []))
      → All P (pushed_samples ps)
      → All P (pushed_samples (push ∷ ps))
  cons-AllPushed push ps a b =
      subst (All P) (sym (pushed_samples-append (push ∷ []) ps))
        (All-append P (pushed_samples (push ∷ [])) (pushed_samples ps) a b)

  pub map-AllPushed {ℓ} :
      {A : Type ℓ} (push : A → Push F) (xs : List A)
      → ((x : A) → All P (pushed_samples (push x ∷ [])))
      → All P (pushed_samples (map push xs))
  map-AllPushed push [] h = tt
  map-AllPushed push (x ∷ xs) h =
      cons-AllPushed (push x) (map push xs) (h x) (map-AllPushed push xs h)

  pub push_flattened-AllPushed :
      (push : Text × Value F → Push F) (r : Outcome × Map (Value F))
      → ((f : Text × Value F) → All P (pushed_samples (push f ∷ [])))
      → AllPushed (push_flattened push r)
  unfolding push_flattened
  push_flattened-AllPushed push (ok, fields) h = map-AllPushed push fields h
  push_flattened-AllPushed push (failed, fields) h = tt
  push_flattened-AllPushed push (panicked, fields) h = tt

  pub samples_pushed-All :
      (prefix : Text) (fields : Map (Value F)) (labels : List (Map Text))
      → ((k : Text) (v : Value F) → P (new_sample prefix k v labels))
      → All P (pushed_samples (samples_pushed prefix fields labels ∷ []))
  samples_pushed-All prefix [] labels h = tt
  samples_pushed-All prefix ((k, v) ∷ fields) labels h =
      (h k v, samples_pushed-All prefix fields labels h)
