-- ===== src/Factory/Pairing.antt =====
-- Every supported model has its list, and one object, which all monitors of the model share.
use kubemonitor.Common.{
  ◌≡◌, inl, inr, refl, ap, ◌∙◌, none, some, List, [], ◌∷◌, arith, Option-cases, OnSome, OnSome-at,
  Text, text_eq_iff, lookup, is_some, lookup-insert, lookup-insert_self,
}
use kubemonitor.SafeList.{new_safe_list}
use kubemonitor.SafeList.Fifo.{pop_back_all_lem}
use kubemonitor.Sample.{SampleList}
use kubemonitor.Writer.{Outcome, ok, failed, panicked}
use kubemonitor.Factory.{
  Handler, Registered, Factory, ConfigMap, new_handler_factory, gather, gather_into, init_config,
  then_gather, init_config_with_gather, register_handler, get_handler, pop_back_all_of, list,
}

module _ {S F : Type 0} where
  -- A model has a handler exactly when it has a list.
  abbrev pub IsPaired : Factory S F → Type 0
  IsPaired m = (k : Text) → is_some (lookup k m.support_model) ≡ is_some (lookup k m.root_list)

  register_handler-IsPaired :
      (h : Handler S F) (s : S) (m : Factory S F) → IsPaired m → IsPaired (register_handler h s m)
  unfolding register_handler
  register_handler-IsPaired h s m p k = ground (
    arith,
    p k,
    lookup-insert h.name k (record { handler = h; state = s }) m.support_model,
    lookup-insert h.name k new_safe_list m.root_list,
  )

  init_config-IsPaired :
      (model : Text) (cfg : ConfigMap) (m : Factory S F)
      → IsPaired m
      → IsPaired (init_config model cfg m).1
  unfolding init_config
  init_config-IsPaired model cfg m p k = elim (Option-cases (lookup model m.support_model)) [
    | inl e ↦ rw (e, init_config) (p k)
    | inr (r, e) ↦
        let r' : Registered S F = record r { state = (r.handler.init cfg r.state).1 } in
        rw (e, init_config)
          (ground (arith, p k, e, lookup-insert model k r' m.support_model, text_eq_iff model k))
  ]

  gather-IsPaired : (model : Text) (m : Factory S F) → IsPaired m → IsPaired (gather model m).1
  unfolding gather
  gather-IsPaired model m p k = elim (Option-cases (lookup model m.support_model)) [
    | inl e ↦ rw (e, gather) (p k)
    | inr (r, e) ↦ elim (Option-cases (lookup model m.root_list)) [
      | inl f ↦ rw (e, gather) (rw (f, gather) (p k))
      | inr (l, f) ↦
          let (o, s, l') = r.handler.gather r.state l in
          rw (e, gather)
            (rw (f, gather)
              (ground (
                arith,
                p k,
                lookup-insert model k (record r { state = s }) m.support_model,
                lookup-insert model k l' m.root_list,
              )))
    ]
  ]

  then_gather-IsPaired :
      (model : Text) (r : Outcome × Factory S F) → IsPaired r.1 → IsPaired (then_gather model r).1
  then_gather-IsPaired model (ok, m) p = gather-IsPaired model m p
  then_gather-IsPaired model (failed, m) p = p
  then_gather-IsPaired model (panicked, m) p = p

  init_config_with_gather-IsPaired :
      (model : Text) (cfg : ConfigMap) (m : Factory S F)
      → IsPaired m
      → IsPaired (init_config_with_gather model cfg m).1
  unfolding init_config_with_gather
  init_config_with_gather-IsPaired model cfg m p =
      then_gather-IsPaired model (init_config model cfg m) (init_config-IsPaired model cfg m p)

  pop_back_all_of-IsPaired :
      (model : Text) (m : Factory S F)
      → IsPaired m
      → OnSome (λ r. IsPaired r.1) (pop_back_all_of model m)
  unfolding pop_back_all_of
  pop_back_all_of-IsPaired model m p = elim (Option-cases (lookup model m.root_list)) [
    | inl e ↦ rw (e, pop_back_all_of) tt
    | inr (l, e) ↦
        rw (e, pop_back_all_of)
          (rw (pop_back_all_lem l) (λ k.
            ground (
              arith,
              p k,
              e,
              lookup-insert model k new_safe_list m.root_list,
              text_eq_iff model k,
            )))
  ]

-- The calls that change the registry.
pub data Call (S F : Type 0) : Type 0 where
  registers : Handler S F → S → Call S F
  inits inits_and_gathers : Text → ConfigMap → Call S F
  gathers pops : Text → Call S F

module _ {S F : Type 0} where
  unfoldable pub step : Call S F → Factory S F → Factory S F
  step (registers h s) m = register_handler h s m
  step (inits model cfg) m = (init_config model cfg m).1
  step (inits_and_gathers model cfg) m = (init_config_with_gather model cfg m).1
  step (gathers model) m = (gather model m).1
  step (pops model) m = elim (pop_back_all_of model m) [ none ↦ m | some (items, m') ↦ m' ]

  unfoldable pub steps : List (Call S F) → Factory S F → Factory S F
  steps [] m = m
  steps (c ∷ cs) m = steps cs (step c m)

  step-IsPaired : (c : Call S F) (m : Factory S F) → IsPaired m → IsPaired (step c m)
  unfolding step
  step-IsPaired (registers h s) m p = register_handler-IsPaired h s m p
  step-IsPaired (inits model cfg) m p = init_config-IsPaired model cfg m p
  step-IsPaired (inits_and_gathers model cfg) m p = init_config_with_gather-IsPaired model cfg m p
  step-IsPaired (gathers model) m p = gather-IsPaired model m p
  step-IsPaired (pops model) m p = elim (Option-cases (pop_back_all_of model m)) [
    | inl e ↦ rw (e, step) p
    | inr (r, e) ↦ rw (e, step) (OnSome-at _ (pop_back_all_of-IsPaired model m p) e)
  ]

  steps-IsPaired : (cs : List (Call S F)) (m : Factory S F) → IsPaired m → IsPaired (steps cs m)
  unfolding steps
  steps-IsPaired [] m p = p
  steps-IsPaired (c ∷ cs) m p = steps-IsPaired cs (step c m) (step-IsPaired c m p)

  gather_paired :
      (model : Text) (m : Factory S F) {r : Registered S F}
      → IsPaired m
      → lookup model m.support_model ≡ some r
      → (l : SampleList F) × (lookup model m.root_list ≡ some l)
        × (gather model m ≡ gather_into model r (r.handler.gather r.state l) m)
  unfolding gather
  gather_paired model m p e = elim (Option-cases (lookup model m.root_list)) [
    | inl f ↦ absurd (ground (arith, p model))
    | inr (l, f) ↦ (l, f, rw (e, gather) (rw f))
  ]

  -- After any history of calls on a new registry, a model that has a handler has a list too, and
  -- `Gather` runs the handler on it: the error that the data list is not found never occurs.
  pub gather-steps :
      (cs : List (Call S F)) (model : Text) {r : Registered S F}
      → let m = steps cs new_handler_factory in
        get_handler model m ≡ some r
        → (l : SampleList F) × (list model m ≡ some l)
          × ((gather model m).0 ≡ (r.handler.gather r.state l).0)
          × (list model (gather model m).1 ≡ some (r.handler.gather r.state l).2)
  unfolding get_handler list gather_into
  gather-steps cs model {r} e =
      let m : Factory S F = steps cs new_handler_factory in
      let (l, f, run) =
        gather_paired model m (steps-IsPaired cs _ (λ k. unfold lookup in refl)) e in
      let after = λ (g : Outcome × Factory S F). lookup model g.1.root_list in
      (
        l,
        f,
        ap (λ (g : Outcome × Factory S F). g.0) run,
        ap after run ∙ lookup-insert_self model (r.handler.gather r.state l).2 m.root_list,
      )
