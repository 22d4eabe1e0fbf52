-- ===== src/Elastic/Ends.antt =====
-- How the rounds of `Gather` end: the sends and the crashes of the goroutines, counted, and the
-- three ends that a round with two errors may have.
use kubemonitor.Common.{
  ◌+◌, ◌≤◌, ◌≡◌, refl, sym, ap, subst, ◌∙◌, Bool, true, false, List, [], ◌∷◌, ◌++◌, map,
  append_assoc, append-nil, arith, if◌then◌else◌, length, any, Text,
}
use kubemonitor.Writer.{Outcome, ok, failed, panicked}
use kubemonitor.Gathering.{Push, Gathered}
use kubemonitor.Goroutines.{Interleave, flatten, in_turn, count, total, any-Interleave}
use kubemonitor.Elastic.Gather.{
  Action, pushes, set_info, sends, crashes, actions_of, is_send, is_crash, Trace, whole, IsTrace,
  round_outcome,
}

pub count-append :
    {A : Type 0} (p : A → Bool) (xs ys : List A) → count p (xs ++ ys) ≡ count p xs + count p ys
count-append p [] ys = omega arith
count-append p (x ∷ xs) ys = omega (arith, count-append p xs ys)

abbrev pub is_failed : Outcome → Bool
is_failed failed = true
is_failed _ = false

abbrev pub is_panicked : Outcome → Bool
is_panicked panicked = true
is_panicked _ = false

module _ {F : Type 0} where
  -- A test on the actions but the pushes.
  PushFree : (Action F → Bool) → Type 0
  PushFree p = (x : Push F) → p (pushes x) ≡ false

  count-pushes :
      (p : Action F → Bool) (ps : List (Push F)) → PushFree p → count p (map (λ x. pushes x) ps) ≡ 0
  unfolding PushFree
  count-pushes p [] h = refl
  count-pushes p (x ∷ ps) h = ground (arith, h x, count-pushes p ps h)

  pub sends-actions_of :
      (g : Gathered F) → count is_send (actions_of g) ≡ (if is_failed g.0 then 1 else 0)
  unfolding actions_of PushFree
  sends-actions_of (ok, ps) = count-pushes is_send ps (λ _. refl)
  sends-actions_of (failed, ps) = omega (
    arith,
    count-append is_send (map (λ x. pushes x) ps) (sends ∷ []),
    count-pushes is_send ps (λ _. refl),
  )
  sends-actions_of (panicked, ps) = omega (
    arith,
    count-append is_send (map (λ x. pushes x) ps) (crashes ∷ []),
    count-pushes is_send ps (λ _. refl),
  )

  pub crashes-actions_of :
      (g : Gathered F) → count is_crash (actions_of g) ≡ (if is_panicked g.0 then 1 else 0)
  unfolding actions_of PushFree
  crashes-actions_of (ok, ps) = count-pushes is_crash ps (λ _. refl)
  crashes-actions_of (failed, ps) = omega (
    arith,
    count-append is_crash (map (λ x. pushes x) ps) (sends ∷ []),
    count-pushes is_crash ps (λ _. refl),
  )
  crashes-actions_of (panicked, ps) = omega (
    arith,
    count-append is_crash (map (λ x. pushes x) ps) (crashes ∷ []),
    count-pushes is_crash ps (λ _. refl),
  )

  pub total-count :
      (p : Action F → Bool) (q : Text → Bool) (go : Text → List (Action F)) (servers : List Text)
      → ((s : Text) → count p (go s) ≡ (if q s then 1 else 0))
      → total p (map go servers) ≡ count q servers
  total-count p q go [] h = refl
  total-count p q go (s ∷ servers) h = omega (arith, h s, total-count p q go servers h)

  split_later :
      (a : Action F) {actions : List (Action F)}
      → is_send a ≡ false
      → ((before after : List (Action F)) × (actions ≡ before ++ sends ∷ after)
          × (count is_send before ≡ 0))
      → (before after : List (Action F)) × (a ∷ actions ≡ before ++ sends ∷ after)
        × (count is_send before ≡ 0)
  split_later a other (before, after, e, quiet) =
      (a ∷ before, after, ap (◌∷◌ a) e, ground (arith, other))

  -- The first send of a list.
  split_send :
      (actions : List (Action F))
      → 1 ≤ count is_send actions
      → (before after : List (Action F)) × (actions ≡ before ++ sends ∷ after)
        × (count is_send before ≡ 0)
  split_send [] h = absurd (omega arith)
  split_send (sends ∷ actions) h = ([], actions, refl, refl)
  split_send (pushes x ∷ actions) h = split_later (pushes x) refl (split_send actions (omega arith))
  split_send (set_info s i ∷ actions) h =
      split_later (set_info s i) refl (split_send actions (omega arith))
  split_send (crashes ∷ actions) h = split_later crashes refl (split_send actions (omega arith))

count-pos : {A : Type 0} (p : A → Bool) (xs : List A) → 1 ≤ count p xs → any p xs ≡ true
count-pos p [] h = absurd (omega arith)
count-pos p (x ∷ xs) h = ground (arith, count-pos p xs)

pub count-le : {A : Type 0} (p : A → Bool) (xs : List A) → count p xs ≤ length xs
count-le p [] = omega arith
count-le p (x ∷ xs) = ground (arith, count-le p xs)

module _ {F : Type 0} where
  -- The three ends of a round that nothing crashes.
  lost-ok :
      (t : Trace F)
      → any is_crash (whole t) ≡ false
      → any is_send t.before ≡ false
      → round_outcome t ≡ ok
  unfolding round_outcome
  lost-ok t calm unsent = rw (calm, unsent, round_outcome)

  seen-failed :
      (t : Trace F)
      → any is_crash (whole t) ≡ false
      → any is_send t.before ≡ true
      → any is_send t.after ≡ false
      → round_outcome t ≡ failed
  unfolding round_outcome
  seen-failed t calm early quiet = rw (calm, early, quiet, round_outcome)

  late-panicked :
      (t : Trace F)
      → any is_crash (whole t) ≡ false
      → any is_send t.before ≡ true
      → any is_send t.after ≡ true
      → round_outcome t ≡ panicked
  unfolding round_outcome
  late-panicked t calm early late = rw (calm, early, late, round_outcome)

  any-middle : (xs : List (Action F)) → any is_send (xs ++ sends ∷ []) ≡ true
  any-middle [] = refl
  any-middle (x ∷ xs) = ground (arith, any-middle xs)

  -- A trace whose goroutines run one behind the other.
  in_turn_at :
      (gs : List (List (Action F))) (t : Trace F)
      → flatten gs ≡ whole t
      → total is_crash gs ≡ 0
      → IsTrace gs t × (any is_crash (whole t) ≡ false)
  in_turn_at gs t e sound =
      let run : IsTrace gs t = subst (λ actions. Interleave gs actions) e (in_turn gs) in
      (run, any-Interleave is_crash run sound)

  after_first :
      (actions before after : List (Action F))
      → actions ≡ before ++ sends ∷ after
      → count is_send before ≡ 0
      → 2 ≤ count is_send actions
      → any is_send after ≡ true
  after_first actions before after e quiet two = count-pos is_send after (
      let split : count is_send actions ≡ count is_send before + count is_send (sends ∷ after) =
        rw e (count-append is_send before (sends ∷ after)) in
      omega (arith, split))

  pub races :
      (gs : List (List (Action F)))
      → 2 ≤ count is_send (flatten gs)
      → total is_crash gs ≡ 0
      → (lost : Trace F) × (seen : Trace F) × (late : Trace F) × (IsTrace gs lost
          × (round_outcome lost ≡ ok))
        × (IsTrace gs seen × (round_outcome seen ≡ failed))
        × IsTrace gs late
        × (round_outcome late ≡ panicked)
  races gs two sound =
      let (before, after, e, quiet) = split_send (flatten gs) (omega arith) in
      let lost : Trace F = record { before = []; after = flatten gs } in
      let seen : Trace F = record { before = flatten gs; after = [] } in
      let late : Trace F = record { before = before ++ sends ∷ []; after = after } in
      let (lost_run, lost_calm) = in_turn_at gs lost refl sound in
      let (seen_run, seen_calm) = in_turn_at gs seen (sym (append-nil (flatten gs))) sound in
      let (late_run, late_calm) =
        in_turn_at gs late (e ∙ sym (append_assoc before (sends ∷ []) after)) sound in
      (
        lost,
        seen,
        late,
        (lost_run, lost-ok lost lost_calm refl),
        (seen_run, seen-failed seen seen_calm (count-pos is_send (flatten gs) (omega arith)) refl),
        late_run,
        late-panicked late late_calm (any-middle before)
            (after_first (flatten gs) before after e quiet two),
      )
