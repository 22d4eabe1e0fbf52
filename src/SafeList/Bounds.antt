-- ===== src/SafeList/Bounds.antt =====
-- The size of the limited list. The limit is tested once, before a whole batch is pushed.
use kubemonitor.Common.{
  Option, ℕ, ◌+◌, ◌-◌, ◌≤◌, ◌≡◌, refl, ap, inl, inr, not, some, List, [], ◌∷◌, ◌++◌, length, arith,
  if◌then◌else◌, length-drop, Bool-cases,
}
use kubemonitor.Common.Int.{pos}
use kubemonitor.SafeList.{
  SafeList, SafeListLimited, push_front, push_front_n, limited_push_front_n, limited_pop_back_n,
  is_full, new_safe_list_limited, limited_push_front, limited_pop_back, limited_pop_back_all,
  limited_remove_all, remove_all,
}
use kubemonitor.SafeList.Fifo.{
  queue, queue-push_front_n, length-queue, pop_back_n_lem, pop_back_all_lem, pop_back_cases,
}

module _ {ℓ} {T : Type ℓ} where
  pub length-push_front_n :
      (vs : List T) (sl : SafeList T)
      → length (push_front_n vs sl).items ≡ length sl.items + length vs
  unfolding push_front_n push_front
  length-push_front_n [] sl = omega arith
  length-push_front_n (v ∷ vs) sl = omega (arith, length-push_front_n vs (push_front v sl))

  abbrev pub size : SafeListLimited T → ℕ
  size sll = length sll.sl.items

  -- `PushFrontN` on the limited list: below the limit it appends the whole batch to the queue, also
  -- past the limit, and returns true; at or above the limit it changes nothing and returns false.
  limited_push_front_n_lem :
      (vs : List T) (sll : SafeListLimited T)
      → let (ok, after) = limited_push_front_n vs sll in
        (is_full sll ≡ not ok)
        × (after.max_size ≡ sll.max_size)
        × (queue after.sl ≡ (if ok then queue sll.sl ++ vs else queue sll.sl))
  unfolding limited_push_front_n
  limited_push_front_n_lem vs sll = elim (Bool-cases (is_full sll)) [
    | inl full ↦ rw full (refl, refl, refl)
    | inr room ↦ rw room (refl, refl, queue-push_front_n vs sll.sl)
  ]

  -- A call that changes a limited list; a batch that is pushed has at most `k` items.
  pub data Use (k : ℕ) : SafeListLimited T → SafeListLimited T → Type ℓ where
    push_n :
        (vs : List T) (sll : SafeListLimited T)
        → length vs ≤ k
        → Use k sll (limited_push_front_n vs sll).1
    pop_n :
        {sll rest : SafeListLimited T} (n : ℕ) (items : List T)
        → limited_pop_back_n (pos n) sll ≡ some (items, rest)
        → Use k sll rest
    push : (v : T) (sll : SafeListLimited T) → 1 ≤ k → Use k sll (limited_push_front v sll).1
    pop : (sll : SafeListLimited T) → Use k sll (limited_pop_back sll).1
    pop_all :
        {sll rest : SafeListLimited T} (items : List T)
        → limited_pop_back_all sll ≡ some (items, rest)
        → Use k sll rest
    clear : (sll : SafeListLimited T) → Use k sll (limited_remove_all sll)

  pub data Uses (k : ℕ) (first : SafeListLimited T) : SafeListLimited T → Type ℓ where
    here : Uses k first first
    next : {s t : SafeListLimited T} → Uses k first s → Use k s t → Uses k first t

  -- The list holds fewer items than the limit and one batch together.
  pub record IsBounded (m k : ℕ) (sll : SafeListLimited T) : Type 0 where
    pub limit : sll.max_size ≡ pos m
    pub within : size sll ≤ m + k - 1

  push_n-IsBounded :
      (m k : ℕ) (vs : List T) (sll : SafeListLimited T)
      → length vs ≤ k
      → IsBounded m k sll
      → IsBounded m k (limited_push_front_n vs sll).1
  unfolding limited_push_front_n
  push_n-IsBounded m k vs sll h b = ground (arith, length-push_front_n vs sll.sl)

  limited_pop_back_n-some :
      (n : ℕ) (sll : SafeListLimited T) {items : List T} {rest : SafeListLimited T}
      → limited_pop_back_n (pos n) sll ≡ some (items, rest)
      → (rest.max_size ≡ sll.max_size) × (size rest ≤ size sll)
  unfolding limited_pop_back_n
  limited_pop_back_n-some n sll e =
      let (r, e', left) = pop_back_n_lem n sll.sl in
      ground (
        arith,
        e',
        ap length left,
        length-drop n (queue sll.sl),
        length-queue sll.sl,
        length-queue r,
      )

  push-IsBounded :
      (m k : ℕ) (v : T) (sll : SafeListLimited T)
      → 1 ≤ k
      → IsBounded m k sll
      → IsBounded m k (limited_push_front v sll).1
  unfolding limited_push_front push_front
  push-IsBounded m k v sll h b = ground arith

  pop-IsBounded :
      (m k : ℕ) (sll : SafeListLimited T)
      → IsBounded m k sll
      → IsBounded m k (limited_pop_back sll).1
  unfolding limited_pop_back
  pop-IsBounded m k sll b = elim (pop_back_cases sll.sl) [
    | inl (e, p) ↦ record {
      limit = b.limit;
      within = omega (arith, ap (λ (r : Option T × SafeList T). length r.1.items) p, b.within);
    }
    | inr (v, r, p, e) ↦ record {
      limit = b.limit;
      within = omega (
        arith,
        ap (λ (r : Option T × SafeList T). length r.1.items) p,
        ap length e,
        length-queue sll.sl,
        length-queue r,
        b.within,
      );
    }
  ]

  pop_all-IsBounded :
      (m k : ℕ) (sll : SafeListLimited T) {items : List T} {rest : SafeListLimited T}
      → limited_pop_back_all sll ≡ some (items, rest)
      → IsBounded m k sll
      → IsBounded m k rest
  unfolding limited_pop_back_all
  pop_all-IsBounded m k sll e b = ground (arith, pop_back_all_lem sll.sl)

  clear-IsBounded :
      (m k : ℕ) (sll : SafeListLimited T)
      → IsBounded m k sll
      → IsBounded m k (limited_remove_all sll)
  unfolding limited_remove_all remove_all
  clear-IsBounded m k sll b = record { limit = b.limit; within = omega arith }

  Use-IsBounded :
      (m k : ℕ) {s t : SafeListLimited T} → Use k s t → IsBounded m k s → IsBounded m k t
  Use-IsBounded m k (push_n vs sll h) b = push_n-IsBounded m k vs sll h b
  Use-IsBounded m k (pop_n {sll = s} n items e) b = ground (arith, limited_pop_back_n-some n s e)
  Use-IsBounded m k (push v sll h) b = push-IsBounded m k v sll h b
  Use-IsBounded m k (pop sll) b = pop-IsBounded m k sll b
  Use-IsBounded m k (pop_all {sll = s} items e) b = pop_all-IsBounded m k s e b
  Use-IsBounded m k (clear sll) b = clear-IsBounded m k sll b

  -- Whatever calls are made one after another, with batches of at most `k` items, from a new list
  -- of limit `m` on: the list never holds more than `m + k - 1` items.
  pub Uses-IsBounded :
      (m k : ℕ) {t : SafeListLimited T} → Uses k (new_safe_list_limited (pos m)) t → IsBounded m k t
  Uses-IsBounded m k here = record { limit = refl; within = omega arith }
  Uses-IsBounded m k (next r u) = Use-IsBounded m k u (Uses-IsBounded m k r)
