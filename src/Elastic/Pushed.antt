-- ===== src/Elastic/Pushed.antt =====
-- What the actions of a round push, in the order of the round.
use kubemonitor.Common.{
  ◌≡◌, refl, sym, ap, ◌∙◌, Bool, false, Option, some, List, [], ◌∷◌, ◌++◌, map, append_assoc,
  append-nil, arith, Text,
}
use kubemonitor.SafeList.Fifo.{queue, queue-push_front, queue-push_front_n}
use kubemonitor.Sample.{Sample, SampleList}
use kubemonitor.Writer.{ok, failed, panicked}
use kubemonitor.Gathering.{Push, push_one, push_many, Gathered, perform_push, pushed_samples}
use kubemonitor.Goroutines.{
  collect, collect-append, count, total, any-Interleave, any-prefix, flatten,
}
use kubemonitor.Elastic.Gather.{
  Action, pushes, set_info, sends, crashes, actions_of, perform, perform_all, Trace, IsTrace,
  round_outcome, is_send, is_crash,
}

module _ {F : Type 0} where
  abbrev pub samples_of : Action F → List (Sample F)
  samples_of (pushes p) = pushed_samples (p ∷ [])
  samples_of _ = []

  abbrev pub somes : List (Sample F) → List (Option (Sample F))
  somes = map (λ s. some s)

  somes-append : (xs ys : List (Sample F)) → somes (xs ++ ys) ≡ somes xs ++ somes ys
  somes-append [] ys = refl
  somes-append (x ∷ xs) ys = ap (◌∷◌ (some x)) (somes-append xs ys)

  queue-perform :
      (a : Action F) (slist : SampleList F)
      → queue (perform a slist) ≡ queue slist ++ somes (samples_of a)
  unfolding perform perform_push
  queue-perform (pushes (push_one s)) slist = queue-push_front (some s) slist
  queue-perform (pushes (push_many samples)) slist =
      queue-push_front_n (somes samples) slist ∙ rw append-nil
  queue-perform (set_info s info) slist = sym (append-nil (queue slist))
  queue-perform sends slist = sym (append-nil (queue slist))
  queue-perform crashes slist = sym (append-nil (queue slist))

  pub queue-perform_all :
      (actions : List (Action F)) (slist : SampleList F)
      → queue (perform_all actions slist) ≡ queue slist ++ somes (collect samples_of actions)
  unfolding perform_all
  queue-perform_all [] slist = sym (append-nil (queue slist))
  queue-perform_all (a ∷ actions) slist =
      queue-perform_all actions (perform a slist)
      ∙ rw (queue-perform a slist, somes-append)
          (append_assoc (queue slist) (somes (samples_of a)) (somes (collect samples_of actions)))

  collect-pushes :
      (ps : List (Push F)) → collect samples_of (map (λ p. pushes p) ps) ≡ pushed_samples ps
  collect-pushes [] = refl
  collect-pushes (push_one s ∷ ps) = ap (◌∷◌ s) (collect-pushes ps)
  collect-pushes (push_many samples ∷ ps) = rw (collect-pushes ps, append-nil)

  pub collect-actions_of : (g : Gathered F) → collect samples_of (actions_of g) ≡ pushed_samples g.1
  unfolding actions_of
  collect-actions_of (ok, ps) = collect-pushes ps
  collect-actions_of (failed, ps) =
      collect-append samples_of (map (λ p. pushes p) ps) (sends ∷ [])
      ∙ append-nil (collect samples_of (map (λ p. pushes p) ps))
      ∙ collect-pushes ps
  collect-actions_of (panicked, ps) =
      collect-append samples_of (map (λ p. pushes p) ps) (crashes ∷ [])
      ∙ append-nil (collect samples_of (map (λ p. pushes p) ps))
      ∙ collect-pushes ps

  -- What the goroutines of a round push, one behind the other.
  pub collect-flatten :
      (go : Text → List (Action F)) (f : Text → List (Sample F)) (servers : List Text)
      → ((s : Text) → collect samples_of (go s) ≡ f s)
      → collect samples_of (flatten (map go servers)) ≡ collect f servers
  unfolding flatten
  collect-flatten go f [] h = refl
  collect-flatten go f (s ∷ servers) h =
      collect-append samples_of (go s) (flatten (map go servers))
      ∙ rw (h s, collect-flatten go f servers h)

-- A round in which no goroutine fails or panics returns nil.
pub round-ok :
    {F : Type 0} (goroutines : List (List (Action F))) (t : Trace F)
    → IsTrace goroutines t
    → total is_send goroutines ≡ 0
    → total is_crash goroutines ≡ 0
    → round_outcome t ≡ ok
unfolding round_outcome
round-ok goroutines t trace sent crashed =
    rw (any-Interleave is_crash trace crashed)
      (rw (any-prefix is_send t.before t.after (any-Interleave is_send trace sent)))

pub actions_of-ok :
    {F : Type 0} (p : Action F → Bool) (g : Gathered F)
    → ((x : Push F) → p (pushes x) ≡ false)
    → g.0 ≡ ok
    → count p (actions_of g) ≡ 0
unfolding actions_of
actions_of-ok p (ok, []) h e = refl
actions_of-ok p (ok, x ∷ ps) h e = ground (arith, h x, actions_of-ok p (ok, ps) h e)
actions_of-ok p (failed, ps) h e = cc
actions_of-ok p (panicked, ps) h e = cc
