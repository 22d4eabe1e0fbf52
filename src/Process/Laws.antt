-- ===== src/Process/Laws.antt =====
-- What `Process` does to each sample, and to their order.
use kubemonitor.Common.{
  ◌≡◌, inl, inr, refl, sym, ap, ◌∙◌, Option, none, some, List, [], ◌∷◌, ◌++◌, map, append_assoc,
  append-nil, arith, if◌then◌else◌, suc_test, Option-cases, if_same, length, Text, codes, text_eq,
  text_eq_iff, Map, lookup, insert, lookup-insert, or_else,
}
use kubemonitor.SafeList.{new_safe_list, push_front}
use kubemonitor.SafeList.Fifo.{queue, queue-push_front, pop_back_all_lem}
use kubemonitor.Sample.{Sample, SampleList, Time, is_zero, global_labels}
use kubemonitor.Process.{add_missing, set_address, process_sample, process_loop, process}

lookup-add_missing :
    (j : Text) (from to : Map Text)
    → lookup j (add_missing from to) ≡ or_else (lookup j to) (lookup j from)
unfolding add_missing lookup
lookup-add_missing j [] to = ground (arith)
lookup-add_missing j ((k, v) ∷ from) to = elim (Option-cases (lookup k to)) [
  | inl e ↦
      rw (e, add_missing)
        (lookup-add_missing j from (insert k v to)
          ∙ ground (arith, lookup-insert k j v to, text_eq_iff k j))
  | inr (w, e) ↦
      rw (e, add_missing) (lookup-add_missing j from to ∙ ground (arith, text_eq_iff k j))
]

lookup-set_address :
    (j : Text) (labels : Map Text)
    → lookup j (set_address labels) ≡ (
        if text_eq (codes "address") j
        then or_else (lookup (codes "instance") labels) (lookup j labels)
        else lookup j labels)
unfolding set_address
lookup-set_address j labels = elim (Option-cases (lookup (codes "instance") labels)) [
  | inl e ↦ rw (e, set_address) (sym (if_same (text_eq (codes "address") j) (lookup j labels)))
  | inr (v, e) ↦ rw (e, set_address) (lookup-insert (codes "address") j v labels)
]

-- What a label is before the address is set: the sample's own, then the global, then the
-- additional.
abbrev pub merged : Map Text → Map Text → Text → Option Text
merged extra labels k =
    or_else (or_else (lookup k labels) (lookup k global_labels)) (lookup k extra)

lookup-merged :
    (extra labels : Map Text) (k : Text)
    → lookup k (add_missing extra (add_missing global_labels labels)) ≡ merged extra labels k
lookup-merged extra labels k =
    lookup-add_missing k extra (add_missing global_labels labels)
    ∙ ap (λ o. or_else o (lookup k extra)) (lookup-add_missing k global_labels labels)

module _ {F : Type 0} where
  -- A processed sample keeps its metric, its value and its time, if that is set; if not, it gets
  -- the time of the round. It keeps its own labels, except that `address` is overwritten by the
  -- label `instance` if there is one; a label that it lacks comes from the global labels, and one
  -- that these lack too from the additional labels.
  process_sample_lem :
      (now : Time) (extra : Map Text) (s : Sample F) (k : Text)
      → let after = process_sample now extra s in
        let base = merged extra s.labels in
        (after.metric ≡ s.metric)
        × (after.value ≡ s.value)
        × (after.timestamp ≡ (if is_zero s.timestamp then now else s.timestamp))
        × (lookup k after.labels ≡ (
            if text_eq (codes "address") k
            then or_else (base (codes "instance")) (base k)
            else base k))
  unfolding process_sample
  process_sample_lem now extra s k = (
    refl,
    refl,
    refl,
    lookup-set_address k _
        ∙ rw (lookup-merged extra s.labels k, lookup-merged extra s.labels (codes "instance")),
  )

  -- The samples behind the pointers that are not nil.
  abbrev pub present : List (Option (Sample F)) → List (Sample F)
  present [] = []
  present (none ∷ ss) = present ss
  present (some s ∷ ss) = s ∷ present ss

  process_loop-queue :
      (now : Time) (extra : Map Text) (ss : List (Option (Sample F))) (nlst : SampleList F)
      → queue (process_loop now extra ss nlst)
        ≡ queue nlst ++ map (λ s. some (process_sample now extra s)) (present ss)
  unfolding process_loop
  process_loop-queue now extra [] nlst = sym (append-nil (queue nlst))
  process_loop-queue now extra (none ∷ ss) nlst = process_loop-queue now extra ss nlst
  process_loop-queue now extra (some s ∷ ss) nlst =
      process_loop-queue now extra ss (push_front (some (process_sample now extra s)) nlst)
      ∙ rw (queue-push_front, append_assoc)

  process_items :
      (now : Time) (extra : Map Text) (l : List (Option (Sample F)))
      → let slist : SampleList F = record { items = l } in
        process now extra slist
        ≡ some (process_loop now extra (queue slist) new_safe_list, new_safe_list)
  unfolding process
  process_items now extra [] = refl
  process_items now extra (x ∷ l) =
      rw (suc_test (length l), pop_back_all_lem (record { items = x ∷ l }))

  -- `Process` empties the list that it is given, and returns its samples without the nil pointers,
  -- each processed, in the order in which they were pushed.
  pub process_lem :
      (now : Time) (extra : Map Text) (slist : SampleList F)
      → (nlst : SampleList F) × (process now extra slist ≡ some (nlst, new_safe_list))
        × (queue nlst ≡ map (λ s. some (process_sample now extra s)) (present (queue slist)))
  process_lem now extra slist = (
    process_loop now extra (queue slist) new_safe_list,
    process_items now extra slist.items,
    process_loop-queue now extra (queue slist) new_safe_list,
  )
