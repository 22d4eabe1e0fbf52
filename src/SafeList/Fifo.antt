-- ===== src/SafeList/Fifo.antt =====
-- The list as a queue: new items at the front, the oldest taken from the back.
use mathlib.Core.List.{reverse-cons, reverse-reverse, reverse-append}
use kubemonitor.Common.{
  ℕ, zero, suc, ◌≤◌, ◌≡◌, refl, sym, ap, ◌∙◌, ◌⊎◌, inl, inr, none, some, List, [], ◌∷◌, ◌++◌,
  append_assoc, append-nil, reverse, length, take, drop, arith, if◌then◌else◌, length-reverse,
  take_all, drop_all, suc_test,
}
use kubemonitor.Common.Int.{pos, ltb_ℤ}
use kubemonitor.SafeList.{
  SafeList, remove_back, pop_loop, popped, push_front, push_front_n, pop_back, pop_back_n,
  pop_back_all, new_safe_list,
}

-- `if count > n { count = n }`.
clip :
    (n c : ℕ)
    → (((if ltb_ℤ (pos n) (pos c) then pos n else pos c) ≡ pos n) × (n ≤ c))
      ⊎ (((if ltb_ℤ (pos n) (pos c) then pos n else pos c) ≡ pos c) × (c ≤ n))
clip n c = ground arith

module _ {ℓ} {T : Type ℓ} where
  -- Oldest first.
  abbrev pub queue : SafeList T → List T
  queue sl = reverse sl.items

  remove_back_cases :
      (x : T) (l : List T)
      → (v : T) × (r : List T) × (remove_back (x ∷ l) ≡ some (v, r)) × (x ∷ l ≡ r ++ v ∷ [])
  unfolding remove_back
  remove_back_cases x [] = (x, [], refl, refl)
  remove_back_cases x (y ∷ l) =
      let (v, r, e, split) = remove_back_cases y l in (v, x ∷ r, rw e, ap (◌∷◌ x) split)

  remove_back-snoc : (l : List T) (v : T) → remove_back (l ++ v ∷ []) ≡ some (v, l)
  unfolding remove_back
  remove_back-snoc [] v = refl
  remove_back-snoc (x ∷ []) v = refl
  remove_back-snoc (x ∷ y ∷ l) v = rw (remove_back-snoc (y ∷ l) v)

  remove_back-reverse : (q : List T) (v : T) → remove_back (reverse (v ∷ q)) ≡ some (v, reverse q)
  remove_back-reverse q v = rw reverse-cons (remove_back-snoc (reverse q) v)

  pop_loop-reverse :
      (n : ℕ) (q items : List T)
      → n ≤ length q
      → pop_loop n (reverse q) items ≡ some (items ++ take n q, reverse (drop n q))
  unfolding pop_loop
  pop_loop-reverse zero q items h = rw append-nil
  pop_loop-reverse (suc n) [] items h = absurd (omega arith)
  pop_loop-reverse (suc n) (v ∷ q) items h =
      rw (remove_back-reverse q v, pop_loop)
        (pop_loop-reverse n q (items ++ v ∷ []) (omega arith) ∙ rw append_assoc)

  pub queue-push_front : (v : T) (sl : SafeList T) → queue (push_front v sl) ≡ queue sl ++ v ∷ []
  unfolding push_front
  queue-push_front v sl = reverse-cons v sl.items

  -- `PushFrontN` appends the items in their order.
  pub queue-push_front_n :
      (vs : List T) (sl : SafeList T) → queue (push_front_n vs sl) ≡ queue sl ++ vs
  unfolding push_front_n
  queue-push_front_n [] sl = sym (append-nil (queue sl))
  queue-push_front_n (v ∷ vs) sl =
      queue-push_front_n vs (push_front v sl)
      ∙ (rw queue-push_front (append_assoc (queue sl) (v ∷ []) vs))

  pub length-queue : (sl : SafeList T) → length (queue sl) ≡ length sl.items
  length-queue sl = length-reverse sl.items

  pop_loop-queue :
      (n : ℕ) (sl : SafeList T)
      → n ≤ length sl.items
      → pop_loop n sl.items [] ≡ some (take n (queue sl), reverse (drop n (queue sl)))
  pop_loop-queue n sl h =
      rw (reverse-reverse sl.items) at
        (pop_loop-reverse n (queue sl) [] (omega (arith, length-queue sl)))

  -- What a pop leaves behind.
  rest_of : ℕ → SafeList T → SafeList T
  rest_of n sl = record { items = reverse (drop n (queue sl)) }

  queue-rest_of : (n : ℕ) (sl : SafeList T) → queue (rest_of n sl) ≡ drop n (queue sl)
  unfolding rest_of
  queue-rest_of n sl = reverse-reverse (drop n (queue sl))

  rest_of_all : (n : ℕ) (sl : SafeList T) → length sl.items ≤ n → rest_of n sl ≡ new_safe_list
  unfolding rest_of
  rest_of_all n sl h = rw (drop_all n (queue sl) (omega (arith, length-queue sl)))

  pop_some :
      (n : ℕ) (sl : SafeList T)
      → n ≤ length sl.items
      → popped (pop_loop n sl.items []) ≡ some (take n (queue sl), rest_of n sl)
  unfolding popped rest_of
  pop_some n sl h = rw (pop_loop-queue n sl h)

  pop_items :
      (l : List T)
      → pop_back_all (record { items = l }) ≡ some (queue (record { items = l }), new_safe_list)
  unfolding pop_back_all
  pop_items [] = refl
  pop_items (x ∷ l) =
      let sl : SafeList T = record { items = x ∷ l } in
      let n : ℕ = length (x ∷ l) in
      ground (
        arith,
        pop_some n sl (omega arith),
        rest_of_all n sl (omega arith),
        take_all n (queue sl) (omega (arith, length-queue sl)),
      )

  -- `PopBackAll` takes every item, the oldest first, and leaves the list empty.
  pub pop_back_all_lem : (sl : SafeList T) → pop_back_all sl ≡ some (queue sl, new_safe_list)
  pop_back_all_lem sl = pop_items sl.items

  pop_n_items :
      (n : ℕ) (l : List T)
      → let sl : SafeList T = record { items = l } in
        pop_back_n (pos n) sl ≡ some (take n (queue sl), rest_of n sl)
  unfolding pop_back_n
  pop_n_items n [] = ground (arith, take_all {A = T} n [], rest_of_all n (record { items = [] }))
  pop_n_items n (x ∷ l) =
      let sl : SafeList T = record { items = x ∷ l } in
      let c : ℕ = length (x ∷ l) in
      elim (clip n c) [
        | inl (e, h) ↦ rw (suc_test (length l), e) (pop_some n sl h)
        | inr (e, h) ↦
            rw (suc_test (length l), e)
              (pop_some c sl (omega arith)
                ∙ rw (
                  rest_of_all c sl (omega arith),
                  rest_of_all n sl h,
                  take_all c (queue sl) (omega (arith, length-queue sl)),
                  take_all n (queue sl) (omega (arith, length-queue sl)),
                ))
      ]

  -- `PopBackN` takes the `n` oldest items, or all if there are fewer, and leaves the others.
  pub pop_back_n_lem :
      (n : ℕ) (sl : SafeList T)
      → (rest : SafeList T) × (pop_back_n (pos n) sl ≡ some (take n (queue sl), rest))
        × (queue rest ≡ drop n (queue sl))
  pop_back_n_lem n sl = (rest_of n sl, pop_n_items n sl.items, queue-rest_of n sl)

  pop_back_items :
      (l : List T)
      → let sl : SafeList T = record { items = l } in
        ((queue sl ≡ []) × (pop_back sl ≡ (none, sl)))
        ⊎ ((v : T) × (r : SafeList T) × (pop_back sl ≡ (some v, r)) × (queue sl ≡ v ∷ queue r))
  unfolding pop_back
  pop_back_items [] = inl (refl, refl)
  pop_back_items (x ∷ l) =
      let (v, r, e, split) = remove_back_cases x l in
      inr (v, record { items = r }, rw (e, pop_back), ap reverse split ∙ reverse-append r (v ∷ []))

  -- `PopBack` takes the oldest item, if there is one.
  pub pop_back_cases :
      (sl : SafeList T)
      → ((queue sl ≡ []) × (pop_back sl ≡ (none, sl)))
        ⊎ ((v : T) × (r : SafeList T) × (pop_back sl ≡ (some v, r)) × (queue sl ≡ v ∷ queue r))
  pop_back_cases sl = pop_back_items sl.items
