-- ===== src/Elastic/Rounds.antt =====
-- What the two rounds of goroutines of `Gather` do to the list, in every order they may run in.
use kubemonitor.Common.{
  ◌≡◌, ◌⊎◌, inl, inr, refl, ap, subst, ◌∙◌, Bool, true, false, ◌&&◌, some, List, [], ◌∷◌, ◌++◌, map,
  if◌then◌else◌, Option-cases, All, All-imp, Text, codes, is_some,
}
use mathlib.Core.List.{Permᴰ, Perm}
use kubemonitor.Common.Int.{pos}
use kubemonitor.Value.{int}
use kubemonitor.SafeList.Fifo.{queue}
use kubemonitor.Sample.{Sample, SampleList, new_sample}
use kubemonitor.Writer.{ok}
use kubemonitor.Gathering.{Push, pushed_samples}
use kubemonitor.Goroutines.{collect, count, total, total-zero, Interleave-collect}
use kubemonitor.Elastic.{Instance, ServerInfo, input_name}
use kubemonitor.Elastic.Requests.{Server, gather_node_id, get_cat_master}
use kubemonitor.Elastic.Stats.{address_tag}
use kubemonitor.Elastic.Gather.{
  Action, pushes, set_info, sends, push_up, actions_of, perform_all, Trace, whole, IsTrace,
  needs_info, info_goroutine, info_goroutines, gather_server, stats_goroutines, info_round,
  stats_round, gather, round_outcome, informed, is_send, is_crash,
}
use kubemonitor.Elastic.Pushed.{
  samples_of, somes, queue-perform_all, collect-actions_of, collect-flatten, round-ok,
  actions_of-ok,
}

module _ {B F : Type 0} (server : Server B F) where
  -- Both requests of the first round were answered.
  abbrev pub is_up : Instance → Text → Bool
  is_up ins s =
      is_some (gather_node_id server ins (s ++ codes "/_nodes/_local/name"))
      && is_some (get_cat_master server ins (s ++ codes "/_cat/master"))

  abbrev pub up_sample : Instance → Text → Sample F
  up_sample ins s =
      new_sample input_name (codes "up") (int (pos (if is_up ins s then 1 else 0)))
        (address_tag s ∷ [])

  pub info_goroutine_cases :
      (ins : Instance) (s : Text)
      → ((is_up ins s ≡ false) × (info_goroutine server ins s ≡ push_up 0 s ∷ sends ∷ []))
        ⊎ ((info : ServerInfo) × (is_up ins s ≡ true)
            × (info_goroutine server ins s ≡ push_up 1 s ∷ set_info s info ∷ []))
  unfolding info_goroutine
  info_goroutine_cases ins s =
      elim (Option-cases (gather_node_id server ins (s ++ codes "/_nodes/_local/name"))) [
        | inl e ↦ inl (rw e refl, rw (e, info_goroutine) refl)
        | inr (node, e) ↦
            elim (Option-cases (get_cat_master server ins (s ++ codes "/_cat/master"))) [
              | inl e' ↦ inl (rw e (rw e' refl), rw (e, info_goroutine) (rw e' refl))
              | inr (master, e') ↦ inr (
                record { node_id = node; master_id = master },
                rw e (rw e' refl),
                rw (e, info_goroutine) (rw e' refl),
              )
            ]
      ]

  info_goroutine-up :
      (ins : Instance) (s : Text)
      → collect samples_of (info_goroutine server ins s) ≡ up_sample ins s ∷ []
  info_goroutine-up ins s = elim (info_goroutine_cases ins s) [
    | inl (down, e) ↦ rw (e, down)
    | inr (info, up, e) ↦ rw (e, up)
  ]

  collect-one :
      (f : Text → Sample F) (servers : List Text) → collect (λ s. f s ∷ []) servers ≡ map f servers
  collect-one f [] = refl
  collect-one f (s ∷ servers) = ap (◌∷◌ (f s)) (collect-one f servers)

  -- In whatever order the goroutines of the first round run, it adds one sample `up` for each
  -- server, in some order, and nothing else: 1 where both requests were answered, otherwise 0.
  pub info_round-up :
      (ins : Instance) (t : Trace F) (slist : SampleList F)
      → needs_info ins ≡ true
      → IsTrace (info_goroutines server ins) t
      → (ups : List (Sample F)) × Perm ups (map (up_sample ins) ins.servers)
        × (queue (info_round ins t slist).2 ≡ queue slist ++ map (λ s. some s) ups)
  unfolding info_round
  info_round-up ins t slist need trace = (
    collect samples_of (whole t),
    ∣ subst (Permᴰ (collect samples_of (whole t)))
        (collect-flatten (info_goroutine server ins) (λ s. up_sample ins s ∷ []) ins.servers
            (info_goroutine-up ins)
          ∙ collect-one (up_sample ins) ins.servers)
        (Interleave-collect samples_of trace) ∣₁,
    rw (need, info_round) (queue-perform_all (whole t) slist),
  )

  up-sends :
      (ins : Instance) (s : Text)
      → is_up ins s ≡ true
      → count is_send (info_goroutine server ins s) ≡ 0
  up-sends ins s h = elim (info_goroutine_cases ins s) [
    | inl (down, e) ↦ absurd (cc)
    | inr (info, up, e) ↦ rw e
  ]

  info-crashes : (ins : Instance) (s : Text) → count is_crash (info_goroutine server ins s) ≡ 0
  info-crashes ins s = elim (info_goroutine_cases ins s) [
    | inl (down, e) ↦ rw e
    | inr (info, up, e) ↦ rw e
  ]

  info-ok :
      (ins : Instance) (t : Trace F)
      → IsTrace (info_goroutines server ins) t
      → All (λ s. is_up ins s ≡ true) ins.servers
      → round_outcome t ≡ ok
  info-ok ins t trace up =
      round-ok (info_goroutines server ins) t trace
        (total-zero is_send (info_goroutine server ins) ins.servers
          (All-imp (λ s. is_up ins s ≡ true) _ (up-sends ins) ins.servers up))
        (total-zero is_crash (info_goroutine server ins) ins.servers
          (All-imp (λ s. is_up ins s ≡ true) _ (λ s _. info-crashes ins s) ins.servers up))

  stats-ok :
      (ins : Instance) (t : Trace F)
      → IsTrace (stats_goroutines server ins) t
      → All (λ s. (gather_server server ins s).0 ≡ ok) ins.servers
      → round_outcome t ≡ ok
  stats-ok ins t trace fine =
      round-ok (stats_goroutines server ins) t trace (none is_send (λ _. refl))
        (none is_crash (λ _. refl))
    where
      none :
          (p : Action F → Bool)
          → ((x : Push F) → p (pushes x) ≡ false)
          → total p (stats_goroutines server ins) ≡ 0
      none p h =
          total-zero p (λ s. actions_of (gather_server server ins s)) ins.servers
            (All-imp (λ s. (gather_server server ins s).0 ≡ ok) _
              (λ s e. actions_of-ok p (gather_server server ins s) h e) ins.servers fine)

  -- If `Gather` asks for the infos, both requests of the first round are answered by every server,
  -- and no server's second round fails or panics, then `Gather` returns nil, whatever the order of
  -- the goroutines: the list gets the `up` of each server, and then the samples of each server's
  -- second round, each in some order.
  pub gather-ok :
      (ins : Instance) (infos stats : Trace F) (slist : SampleList F)
      → needs_info ins ≡ true
      → IsTrace (info_goroutines server ins) infos
      → All (λ s. is_up ins s ≡ true) ins.servers
      → IsTrace (stats_goroutines server (informed ins infos)) stats
      → All (λ s. (gather_server server (informed ins infos) s).0 ≡ ok) ins.servers
      → (ups more : List (Sample F)) × ((gather ins infos stats slist).0 ≡ ok)
        × Perm ups (map (up_sample ins) ins.servers)
        × Perm more (
            collect
              (λ s. pushed_samples (gather_server server (informed ins infos) s).1)
              ins.servers)
        × (queue (gather ins infos stats slist).2
            ≡ (queue slist ++ map (λ s. some s) ups) ++ map (λ s. some s) more)
  unfolding gather stats_round informed info_round
  gather-ok ins infos stats slist need t up t' fine =
      let (ups, perm, q) = info_round-up ins infos slist need t in
      (
        ups,
        collect samples_of (whole stats),
        rw (need, info-ok ins infos t up, gather) (stats-ok (informed ins infos) stats t' fine),
        perm,
        ∣ subst (Permᴰ (collect samples_of (whole stats)))
            (collect-flatten (λ s. actions_of (gather_server server (informed ins infos) s))
              (λ s. pushed_samples (gather_server server (informed ins infos) s).1) ins.servers
              (λ s. collect-actions_of (gather_server server (informed ins infos) s)))
            (Interleave-collect samples_of t') ∣₁,
        rw (need, info-ok ins infos t up, gather)
            (queue-perform_all (whole stats) (perform_all (whole infos) slist)
              ∙ ap (λ l. l ++ somes (collect samples_of (whole stats))) (rw need at q)),
      )
