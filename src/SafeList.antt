-- ===== src/SafeList.antt =====
-- pkg/types/safe_list.go: the list behind a mutex, and its limited version. Each method holds the
-- lock for its whole body, so a call is one step on the list. `container/list` is a list here, its
-- front first. `none` is a panic.
pub mod Fifo
pub mod History
pub mod Bounds
pub mod Tests
use kubemonitor.Common.{
  ℕ, zero, suc, Bool, true, false, Option, none, some, List, [], ◌∷◌, ◌++◌, length, ◌==◌,
  if◌then◌else◌,
}
use kubemonitor.Common.Int.{ℤ, pos, negsuc, ltb_ℤ}

pub record SafeList {ℓ} (T : Type ℓ) : Type ℓ where
  pub items : List T

-- `L.Remove(L.Back())`; `none` where `Back()` is nil.
remove_back {ℓ} : {T : Type ℓ} → List T → Option (T × List T)
remove_back [] = none
remove_back (x ∷ []) = some (x, [])
remove_back (x ∷ y ∷ r) = elim (remove_back (y ∷ r)) [
  | some (v, rest) ↦ some (v, x ∷ rest)
  | none ↦ none
]

-- The loop of `PopBackN` and `PopBackAll`, with the rounds left and the items so far.
pop_loop {ℓ} : {T : Type ℓ} → ℕ → List T → List T → Option (List T × List T)
unfolding remove_back
pop_loop zero l items = some (items, l)
pop_loop (suc n) l items = elim (remove_back l) [
  | some (x, rest) ↦ pop_loop n rest (items ++ x ∷ [])
  | none ↦ none
]

module _ {ℓ} {T : Type ℓ} where
  abbrev pub new_safe_list : SafeList T
  new_safe_list = record { items = [] }

  unfoldable pub push_front : T → SafeList T → SafeList T
  push_front v sl = record { items = v ∷ sl.items }

  unfoldable pub push_front_n : List T → SafeList T → SafeList T
  unfolding push_front
  push_front_n [] sl = sl
  push_front_n (item ∷ vs) sl = push_front_n vs (push_front item sl)

  unfoldable pub pop_back : SafeList T → Option T × SafeList T
  unfolding remove_back
  pop_back sl = elim (remove_back sl.items) [
    | some (v, rest) ↦ (some v, record { items = rest })
    | none ↦ (none, sl)
  ]

  -- `count` items, popped one by one.
  popped : Option (List T × List T) → Option (List T × SafeList T)
  popped (some (items, rest)) = some (items, record { items = rest })
  popped none = none

  -- `make([]T, 0, count)` panics at a negative count.
  unfoldable pub pop_back_n : ℤ → SafeList T → Option (List T × SafeList T)
  unfolding pop_loop popped
  pop_back_n n sl =
      let count = length sl.items in
      if count == 0 then some ([], sl) else elim (if ltb_ℤ n (pos count) then n else pos count) [
        | pos k ↦ popped (pop_loop k sl.items [])
        | negsuc k ↦ none
      ]

  unfoldable pub pop_back_all : SafeList T → Option (List T × SafeList T)
  unfolding pop_loop popped
  pop_back_all sl =
      let count = length sl.items in
      if count == 0 then some ([], sl) else popped (pop_loop count sl.items [])

  unfoldable pub remove_all : SafeList T → SafeList T
  remove_all sl = new_safe_list

  unfoldable pub safe_len : SafeList T → ℕ
  safe_len sl = length sl.items

pub record SafeListLimited {ℓ} (T : Type ℓ) : Type ℓ where
  pub max_size : ℤ
  pub sl : SafeList T

module _ {ℓ} {T : Type ℓ} where
  abbrev pub new_safe_list_limited : ℤ → SafeListLimited T
  new_safe_list_limited max_size = record { max_size = max_size; sl = new_safe_list }

  -- `sll.SL.Len() >= sll.maxSize`.
  abbrev pub is_full : SafeListLimited T → Bool
  is_full sll = if ltb_ℤ (pos (length sll.sl.items)) sll.max_size then false else true

  unfoldable pub limited_push_front : T → SafeListLimited T → Bool × SafeListLimited T
  unfolding push_front
  limited_push_front v sll =
      if is_full sll then (false, sll) else (true, record sll { sl = push_front v sll.sl })

  unfoldable pub limited_push_front_n : List T → SafeListLimited T → Bool × SafeListLimited T
  limited_push_front_n vs sll =
      if is_full sll then (false, sll) else (true, record sll { sl = push_front_n vs sll.sl })

  unfoldable pub limited_pop_back_n : ℤ → SafeListLimited T → Option (List T × SafeListLimited T)
  limited_pop_back_n n sll = elim (pop_back_n n sll.sl) [
    | some (items, rest) ↦ some (items, record sll { sl = rest })
    | none ↦ none
  ]

  unfoldable pub limited_pop_back : SafeListLimited T → Option T × SafeListLimited T
  limited_pop_back sll = let (v, rest) = pop_back sll.sl in (v, record sll { sl = rest })

  unfoldable pub limited_pop_back_all : SafeListLimited T → Option (List T × SafeListLimited T)
  limited_pop_back_all sll = elim (pop_back_all sll.sl) [
    | none ↦ none
    | some (items, rest) ↦ some (items, record sll { sl = rest })
  ]

  unfoldable pub limited_remove_all : SafeListLimited T → SafeListLimited T
  limited_remove_all sll = record sll { sl = remove_all sll.sl }

  unfoldable pub limited_len : SafeListLimited T → ℕ
  limited_len sll = safe_len sll.sl
