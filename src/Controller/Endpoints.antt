-- ===== src/Controller/Endpoints.antt =====
-- The endpoints that the reconciliations of PrometheusPush resources leave registered.
use kubemonitor.Common.{
  ◌≡◌, ◌↔◌, inl, inr, refl, sym, ap, ◌∙◌, Option, none, List, [], ◌∷◌, arith, if◌then◌else◌,
  Option-cases, if_same, Text, text_eq, text_eq_iff, lookup, lookup-insert, lookup-delete, or_else,
}
use kubemonitor.Writer.{Writer, WriterOption, Transport, Outcome, failed, new_writer}
use kubemonitor.Writers.{Writers, register, de_register}
use kubemonitor.Controller.{
  Request, Fetched, found, not_found, broken, PrometheusPushSpec, option_of, reconcile_push,
}

module _ {C F : Type 0} (net : Transport C F) where
  -- The reconciliations, one after another, whatever they return.
  unfoldable pub push_all : List (Request × Fetched PrometheusPushSpec) → Writers C F → Writers C F
  push_all [] ws = ws
  push_all ((req, answer) ∷ more) ws = push_all more (reconcile_push net req answer ws).1

  -- What one name is registered with, from the events of that name alone: the writer of the last
  -- specification that was found and could be made a client of, and none behind a deletion.
  abbrev pub watch :
      Text → List (Request × Fetched PrometheusPushSpec) → Option (Writer C) → Option (Writer C)
  watch name [] w = w
  watch name ((req, not_found) ∷ more) w =
      watch name more (if text_eq req.name name then none else w)
  watch name ((req, broken) ∷ more) w = watch name more w
  watch name ((req, found spec) ∷ more) w =
      watch name more
        (if text_eq req.name name then or_else (new_writer net (option_of spec)) w else w)

  register-lookup :
      (req name : Text) (opt : WriterOption) (ws : Writers C F)
      → lookup name (register net req opt ws).1.writer_map ≡ (
          if text_eq req name
          then or_else (new_writer net opt) (lookup name ws.writer_map)
          else lookup name ws.writer_map)
  unfolding register
  register-lookup req name opt ws = elim (Option-cases (new_writer net opt)) [
    | inl e ↦ rw (e, register) (sym (if_same (text_eq req name) (lookup name ws.writer_map)))
    | inr (w, e) ↦ rw (e, register) (lookup-insert req name w ws.writer_map)
  ]

  de_register-lookup :
      (req name : Text) (ws : Writers C F)
      → lookup name (de_register req ws).1.writer_map
        ≡ (if text_eq req name then none else lookup name ws.writer_map)
  unfolding de_register
  de_register-lookup req name ws = elim (Option-cases (lookup req ws.writer_map)) [
    | inl e ↦ rw (e, de_register) (ground (arith, text_eq_iff req name))
    | inr (w, e) ↦ rw (e, de_register) (lookup-delete req name ws.writer_map)
  ]

  register_keeps :
      (req : Text) (opt : WriterOption) (ws : Writers C F)
      → let after = (register net req opt ws).1 in
        (after.queue ≡ ws.queue) × (after.counters ≡ ws.counters)
  unfolding register
  register_keeps req opt ws = ground arith

  de_register_keeps :
      (req : Text) (ws : Writers C F)
      → let after = (de_register req ws).1 in
        (after.queue ≡ ws.queue) × (after.counters ≡ ws.counters)
  unfolding de_register
  de_register_keeps req ws = ground arith

  -- The map of the writers, refined by one name at a time: behind any reconciliations of
  -- PrometheusPush resources each name has the writer that its own events say, whatever the other
  -- names did; a reconciliation changes neither the queue nor the counters.
  pub push_all_lem :
      (events : List (Request × Fetched PrometheusPushSpec)) (ws : Writers C F)
      → let after = push_all events ws in
        ((name : Text)
          → lookup name after.writer_map ≡ watch name events (lookup name ws.writer_map))
        × (after.queue ≡ ws.queue)
        × (after.counters ≡ ws.counters)
  unfolding push_all reconcile_push
  push_all_lem [] ws = (λ name. refl, refl, refl)
  push_all_lem ((req, broken) ∷ more) ws = push_all_lem more ws
  push_all_lem ((req, not_found) ∷ more) ws =
      let (names, items, counts) = push_all_lem more (de_register req.name ws).1 in
      (
        λ name. names name ∙ ap (watch name more) (de_register-lookup req.name name ws),
        items ∙ (de_register_keeps req.name ws).0,
        counts ∙ (de_register_keeps req.name ws).1,
      )
  push_all_lem ((req, found spec) ∷ more) ws =
      let (names, items, counts) =
        push_all_lem more (register net req.name (option_of spec) ws).1 in
      (
        λ name.
            names name ∙ ap (watch name more) (register-lookup req.name name (option_of spec) ws),
        items ∙ (register_keeps req.name (option_of spec) ws).0,
        counts ∙ (register_keeps req.name (option_of spec) ws).1,
      )

  de_register-none :
      (req : Text) (ws : Writers C F)
      → lookup req ws.writer_map ≡ none
      → de_register req ws ≡ (failed, ws)
  unfolding de_register
  de_register-none req ws e = rw (e, de_register)

  de_register-failed :
      (req : Text) (ws : Writers C F)
      → (de_register req ws).0 ≡ failed
      → lookup req ws.writer_map ≡ none
  unfolding de_register
  de_register-failed req ws e = ground arith

  -- The reconciliation of a deletion fails exactly if the name has no writer, and then changes
  -- nothing, so that it fails again whenever it is retried.
  reconcile_push-not_found :
      (req : Request) (ws : Writers C F)
      → let r = reconcile_push net req not_found ws in
        ((r.0 ≡ failed) ↔ (lookup req.name ws.writer_map ≡ none))
        × (r.0 ≡ failed → reconcile_push net req not_found r.1 ≡ (failed, ws))
  unfolding reconcile_push
  reconcile_push-not_found req ws = (
    (
      de_register-failed req.name ws,
      λ e. ap (λ (x : Outcome × Writers C F). x.0) (de_register-none req.name ws e),
    ),
    λ f.
        let e = de_register-none req.name ws (de_register-failed req.name ws f) in
        ap (λ (x : Outcome × Writers C F). de_register req.name x.1) e ∙ e,
  )
