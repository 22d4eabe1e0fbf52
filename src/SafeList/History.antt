-- ===== src/SafeList/History.antt =====
-- Histories of calls on one list, against a first-in, first-out queue.
use kubemonitor.Common.{
  ℕ, zero, suc, ◌≡◌, refl, subst, sym, ap, inl, inr, Option, none, some, List, [], ◌∷◌, ◌++◌,
  length, take, drop, arith,
}
use kubemonitor.Common.Int.{ℤ, pos, negsuc}
use kubemonitor.SafeList.{
  SafeList, push_front, push_front_n, pop_back, pop_back_n, pop_back_all, remove_all, new_safe_list,
  safe_len,
}
use kubemonitor.SafeList.Fifo.{
  queue, queue-push_front, queue-push_front_n, length-queue, pop_back_all_lem, pop_back_n_lem,
  pop_back_cases,
}

-- The methods, as calls on one list, and what each returns.
pub data Call {ℓ} (T : Type ℓ) : Type ℓ where
  push : T → Call T
  push_n : List T → Call T
  pop : Call T
  pop_n : ℤ → Call T
  pop_all clear size : Call T

pub data Reply {ℓ} (T : Type ℓ) : Type ℓ where
  done : Reply T
  one : Option T → Reply T
  many : List T → Reply T
  count : ℕ → Reply T

module _ {ℓ} {T : Type ℓ} where
  abbrev reply_many : Option (List T × SafeList T) → Option (Reply T × SafeList T)
  reply_many none = none
  reply_many (some (items, sl)) = some (many items, sl)

  -- A call of the code.
  unfoldable pub call : Call T → SafeList T → Option (Reply T × SafeList T)
  call (push v) sl = some (done, push_front v sl)
  call (push_n vs) sl = some (done, push_front_n vs sl)
  call pop sl = let (v, rest) = pop_back sl in some (one v, rest)
  call (pop_n n) sl = reply_many (pop_back_n n sl)
  call pop_all sl = reply_many (pop_back_all sl)
  call clear sl = some (done, remove_all sl)
  call size sl = some (count (safe_len sl), sl)

  -- The specification: a first-in, first-out queue; `none` is a panic.
  abbrev pub queue_call : Call T → List T → Option (Reply T × List T)
  queue_call (push v) q = some (done, q ++ v ∷ [])
  queue_call (push_n vs) q = some (done, q ++ vs)
  queue_call pop [] = some (one none, [])
  queue_call pop (v ∷ q) = some (one (some v), q)
  queue_call (pop_n n) [] = some (many [], [])
  queue_call (pop_n (pos n)) (v ∷ q) = some (many (take n (v ∷ q)), drop n (v ∷ q))
  queue_call (pop_n (negsuc n)) (v ∷ q) = none
  queue_call pop_all q = some (many q, [])
  queue_call clear q = some (done, [])
  queue_call size q = some (count (length q), q)

  -- The result of the list is that of the queue, with a list whose items are the queue's.
  abbrev pub Shows {κ} : {R : Type κ} → Option (R × SafeList T) → Option (R × List T) → Type (ℓ ⊔ κ)
  Shows r none = r ≡ none
  Shows r (some (reply, q)) = (sl : SafeList T) × (r ≡ some (reply, sl)) × (queue sl ≡ q)

  pop_n_pos : (n : ℕ) (q : List T) → queue_call (pop_n (pos n)) q ≡ some (many (take n q), drop n q)
  pop_n_pos zero [] = refl
  pop_n_pos (suc n) [] = refl
  pop_n_pos n (v ∷ q) = refl

  pop_n_negsuc :
      (n : ℕ) (l : List T)
      → let sl : SafeList T = record { items = l } in
        Shows (call (pop_n (negsuc n)) sl) (queue_call (pop_n (negsuc n)) (queue sl))
  unfolding call pop_back_n
  pop_n_negsuc n [] = (record { items = [] }, refl, refl)
  pop_n_negsuc n (x ∷ l) =
      let sl : SafeList T = record { items = x ∷ l } in
      elim (pop_back_cases sl) [
        | inl (e, p) ↦ absurd (omega (arith, length-queue sl, ap length e))
        | inr (v, r, p, e) ↦
            subst (λ q. Shows (call (pop_n (negsuc n)) sl) (queue_call (pop_n (negsuc n)) q))
              (sym e) (ground arith)
      ]

  pop_n-Shows :
      (n : ℤ) (sl : SafeList T) → Shows (call (pop_n n) sl) (queue_call (pop_n n) (queue sl))
  unfolding call
  pop_n-Shows (pos n) sl =
      let (r, p, e) = pop_back_n_lem n sl in
      subst (Shows (call (pop_n (pos n)) sl)) (sym (pop_n_pos n (queue sl))) (r, rw (p, call), e)
  pop_n-Shows (negsuc n) sl = pop_n_negsuc n sl.items

  -- Every call returns what the queue returns, and keeps the view.
  call-queue_call : (c : Call T) (sl : SafeList T) → Shows (call c sl) (queue_call c (queue sl))
  unfolding call
  call-queue_call (push v) sl = (push_front v sl, refl, queue-push_front v sl)
  call-queue_call (push_n vs) sl = (push_front_n vs sl, refl, queue-push_front_n vs sl)
  call-queue_call pop sl = elim (pop_back_cases sl) [
    | inl (e, p) ↦ subst (λ q. Shows (call pop sl) (queue_call pop q)) (sym e) (sl, rw (p, call), e)
    | inr (v, r, p, e) ↦
        subst (λ q. Shows (call pop sl) (queue_call pop q)) (sym e) (r, rw (p, call), refl)
  ]
  call-queue_call (pop_n n) sl = pop_n-Shows n sl
  call-queue_call pop_all sl = (new_safe_list, rw (pop_back_all_lem sl, call), refl)
  call-queue_call clear sl = (remove_all sl, refl, unfold remove_all in refl)
  call-queue_call size sl =
      (sl, unfold safe_len in ap (λ n. some (count n, sl)) (sym (length-queue sl)), refl)

  -- A history of calls, with the replies in order; a panic ends it.
  unfoldable pub run : List (Call T) → SafeList T → Option (List (Reply T) × SafeList T)
  unfolding call
  run [] sl = some ([], sl)
  run (c ∷ cs) sl = elim (call c sl) [
    | none ↦ none
    | some (r, sl') ↦ elim (run cs sl') [ none ↦ none | some (rs, last) ↦ some (r ∷ rs, last) ]
  ]

  abbrev pub queue_run : List (Call T) → List T → Option (List (Reply T) × List T)
  queue_run [] q = some ([], q)
  queue_run (c ∷ cs) q = elim (queue_call c q) [
    | none ↦ none
    | some (r, q') ↦ elim (queue_run cs q') [ none ↦ none | some (rs, last) ↦ some (r ∷ rs, last) ]
  ]

  run_rest :
      (r : Reply T) (o : Option (List (Reply T) × SafeList T))
      (p : Option (List (Reply T) × List T))
      → Shows o p
      → Shows
          (elim o [ none ↦ none | some (rs, last) ↦ some (r ∷ rs, last) ])
          (elim p [ none ↦ none | some (rs, last) ↦ some (r ∷ rs, last) ])
  run_rest r o none h = rw h
  run_rest r o (some (rs, q)) (last, e, v) = (last, rw e, v)

  run_first :
      (c : Call T) (cs : List (Call T)) (sl : SafeList T)
      → ((sl : SafeList T) → Shows (run cs sl) (queue_run cs (queue sl)))
      → (o : Option (Reply T × List T)) → Shows (call c sl) o
      → Shows (run (c ∷ cs) sl) (elim o [
        | none ↦ none
        | some (r, q) ↦ elim (queue_run cs q) [
          | none ↦ none
          | some (rs, last) ↦ some (r ∷ rs, last)
        ]
      ])
  unfolding run
  run_first c cs sl rest none h = rw (h, run)
  run_first c cs sl rest (some (r, q)) (sl', e, v) =
      rw (e, run)
        (run_rest r (run cs sl') (queue_run cs q)
          (subst (λ q. Shows (run cs sl') (queue_run cs q)) v (rest sl')))

  -- Any history of calls on a list gives the replies that the queue of its items gives, and ends in
  -- a list whose items are those of the queue; it panics exactly where the queue does, at a
  -- `PopBackN` of a negative number of items from a queue that is not empty.
  pub run-queue_run :
      (cs : List (Call T)) (sl : SafeList T) → Shows (run cs sl) (queue_run cs (queue sl))
  unfolding run
  run-queue_run [] sl = (sl, refl, refl)
  run-queue_run (c ∷ cs) sl =
      run_first c cs sl (run-queue_run cs) (queue_call c (queue sl)) (call-queue_call c sl)
