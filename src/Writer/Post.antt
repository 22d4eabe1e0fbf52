-- ===== src/Writer/Post.antt =====
-- What `Write` reports of a post, and what the request of a post holds.
use kubemonitor.Common.{
  ◌≡◌, ◌≢◌, ◌↔◌, ◌⊎◌, inl, inr, refl, true, none, some, List, [], ◌∷◌, arith, Option-cases, Text,
}
use kubemonitor.Sample.{TimeSeries}
use kubemonitor.Writer.{Transport, Writer, Outcome, ok, failed, panicked, post, write}
use kubemonitor.Writer.Prepare.{IsEven, prepare-crashed, prepare-total}

Outcome-cases : (o : Outcome) → (o ≡ panicked) ⊎ ((o ≡ ok) ⊎ (o ≡ failed))
Outcome-cases panicked = inl refl
Outcome-cases ok = inr (inl refl)
Outcome-cases failed = inr (inr refl)

module _ {C F : Type 0} (net : Transport C F) where
  post-ne-panicked : (w : Writer C) (req : Text) → IsEven w.opts.headers → post net w req ≢ panicked
  unfolding post
  post-ne-panicked w req even = ground (arith, prepare-total net w.opts req even)

  -- With an even number of header words, `Write` never panics, and it reports an error exactly when
  -- there is something to write and it cannot be marshalled: an endpoint that refuses the post, or
  -- cannot be reached, is reported as a success.
  pub write_outcome :
      (w : Writer C) (items : List (TimeSeries F))
      → IsEven w.opts.headers
      → (write net w items ≢ panicked)
        × ((write net w items ≡ failed) ↔ ((items ≢ []) × (net.marshal items ≡ none)))
  unfolding write
  write_outcome w [] even = (λ e. cc, (λ e. cc, λ p. absurd (p.0 refl)))
  write_outcome w (item ∷ items) even = elim (Option-cases (net.marshal (item ∷ items))) [
    | inl e ↦ rw (e, write) (λ c. cc, (λ _. ((λ c. cc), refl), λ _. refl))
    | inr (b, e) ↦ elim (Outcome-cases (post net w (net.encode b))) [
      | inl c ↦ absurd (post-ne-panicked w (net.encode b) even c)
      | inr (inl c) ↦ rw (e, c, write) ((λ f. cc), ((λ f. cc), λ p. cc (p.1)))
      | inr (inr c) ↦ rw (e, c, write) ((λ f. cc), ((λ f. cc), λ p. cc (p.1)))
    ]
  ]

  -- An odd number of header words makes every non-empty write panic that can be marshalled, if the
  -- URL is one.
  write_odd :
      (w : Writer C) (items : List (TimeSeries F)) (bytes : Text)
      → ¬ IsEven w.opts.headers
      → net.url_is_valid w.opts.url ≡ true
      → items ≢ []
      → net.marshal items ≡ some bytes
      → write net w items ≡ panicked
  unfolding write post
  write_odd w [] bytes odd valid some_items e = absurd (some_items refl)
  write_odd w (item ∷ items) bytes odd valid some_items e =
      rw (e, write) (rw (prepare-crashed net w.opts (net.encode bytes) valid odd, post))
