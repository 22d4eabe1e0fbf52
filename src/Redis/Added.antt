-- ===== src/Redis/Added.antt =====
-- What `Gather` of Redis adds to the list, and when it fails.
use kubemonitor.Common.{
  ◌≡◌, ◌≢◌, ◌↔◌, inl, inr, refl, sym, subst, Bool, false, [], ◌∷◌, if◌then◌else◌, Bool-cases,
  Option-cases, OnSome, OnSome-at, Text, codes, text_eq, split, Map, lookup,
}
use kubemonitor.Common.Int.{ℤ, pos}
use kubemonitor.Value.{Floats, Value, float64, int}
use kubemonitor.Sample.{SampleList}
use kubemonitor.Writer.{Outcome, failed, panicked}
use kubemonitor.Redis.{Instance}
use kubemonitor.Redis.Gather.{
  Client, Clock, fetch_info, push_info, gather_info_all, gather_command_values, push_tagged,
  push_scraped, gather_answered, gather,
}
use kubemonitor.Redis.Lines.{Info, info_lines, scan_lines}
use kubemonitor.Sample.Grown.{IsTagged}
use kubemonitor.Redis.Labels.{Grows, Grows-refl, Grows-trans, push_sample-Grows, push_fields-Grows}
use kubemonitor.Redis.Kept.{info_lines-Kept}

module _ {F : Type 0} ⦃fl : Floats F⦄ where
  -- What is left of the tags and of the list.
  abbrev Left : Text → SampleList F → SampleList F × Map Text → Type 0
  Left addr first r = Grows addr first r.0 × IsTagged addr r.1

  gather_info_all-Left :
      (addr : Text) (client : Client F) (now : ℤ) (l : SampleList F) (tags : Map Text)
      → IsTagged addr tags
      → OnSome (Left addr l) (gather_info_all client now l tags)
  unfolding gather_info_all push_info
  gather_info_all-Left addr client now l tags t = elim (Option-cases (fetch_info client)) [
    | inl e ↦ rw (e, gather_info_all) (Grows-refl addr l, t)
    | inr (info, e) ↦
        let first : Info F = record {
          section = [];
          keyspace_hits = pos 0;
          keyspace_misses = pos 0;
          fields = [];
          tags = tags;
          slist = l;
        } in
        let kept =
          info_lines-Kept addr l now (scan_lines (split info 10)) first
            (record { tagged = t; grown = Grows-refl addr l }) in
        elim (Option-cases (info_lines now (scan_lines (split info 10)) first)) [
          | inl f ↦ rw (e, gather_info_all) (rw f tt)
          | inr (st, f) ↦
              let k = OnSome-at _ kept f in
              rw (e, gather_info_all)
                (rw f (
                  Grows-trans addr k.grown (push_fields-Grows addr [] _ st.tags st.slist k.tagged),
                  k.tagged,
                ))
        ]
  ]

  push_tagged-Grows :
      (addr metric : Text) (v : Value F) (tags : Map Text) (l : SampleList F)
      → IsTagged addr tags
      → Grows addr l (push_tagged metric v tags l)
  unfolding push_tagged
  push_tagged-Grows addr metric v tags l t = push_sample-Grows addr metric v tags l t

  -- How `Gather` ends behind an answered ping, and what it adds.
  gather_answered_lem :
      (addr : Text) (ins : Instance) (client : Client F) (clock : Clock F) (tags : Map Text)
      (l : SampleList F)
      → IsTagged addr tags
      → let r = gather_answered ins client clock tags l in
        (r.0 ≢ failed) × (r.0 ≢ panicked → Grows addr l r.1)
  unfolding gather_answered push_scraped gather_command_values
  gather_answered_lem addr ins client clock tags l t =
      elim (Option-cases (gather_info_all client clock.now l tags)) [
        | inl e ↦ rw (e, gather_answered) ((λ c. cc), λ n. absurd (n refl))
        | inr ((infos, tags'), e) ↦
            let (grown, t') = OnSome-at _ (gather_info_all-Left addr client clock.now l tags t) e in
            rw (e, gather_answered)
              (
                (λ c. cc),
                λ n. Grows-trans addr grown (
                    Grows-trans addr
                      (push_fields-Grows addr (codes "exec_result_") _ tags' infos t')
                      (push_tagged-Grows addr (codes "scrape_use_seconds") _ tags' _ t')),
              )
      ]

  -- What `gather_lem` says of the branch that the ping takes.
  abbrev Ends :
      Text → SampleList F → Outcome × SampleList F → Outcome × SampleList F → Bool → Type 0
  Ends addr l at_up at_down up =
      let r = if up then at_up else at_down in
      ((r.0 ≡ failed) ↔ (up ≡ false)) × (r.0 ≢ panicked → Grows addr l r.1)

  -- `Gather` of Redis fails exactly if the ping does. If it does not panic, it has only pushed: the
  -- list keeps what it held, and all that it gained are samples named `redis_…` which carry the
  -- address of the server among their labels, whatever the server answers.
  pub gather_lem :
      (ins : Instance) (client : Client F) (clock : Clock F) (l : SampleList F)
      → let r = gather ins client clock l in
        ((r.0 ≡ failed) ↔ (client.ping ≡ false)) × (r.0 ≢ panicked → Grows ins.address l r.1)
  unfolding gather push_scraped
  gather_lem ins client clock l =
      let addr = ins.address in
      let tags : Map Text = (codes "address", addr) ∷ [] in
      let t : IsTagged addr tags = unfold lookup text_eq in ((refl, tt), refl) in
      let l1 = push_tagged (codes "ping_use_seconds") (float64 clock.ping_use) tags l in
      let pinged =
        push_tagged-Grows addr (codes "ping_use_seconds") (float64 clock.ping_use) tags l t in
      let at_up =
        gather_answered ins client clock tags (push_tagged (codes "up") (int (pos 1)) tags l1) in
      let at_down : Outcome × SampleList F = (
        failed,
        push_tagged (codes "scrape_use_seconds") (float64 clock.scrape_use) tags
            (push_tagged (codes "up") (int (pos 0)) tags l1),
      ) in
      elim (Bool-cases client.ping) [
        | inr down ↦ subst (Ends addr l at_up at_down) (sym down) (
          (λ e. refl, λ e. refl),
          λ n. Grows-trans addr pinged (
              Grows-trans addr (push_tagged-Grows addr (codes "up") (int (pos 0)) tags l1 t)
                (push_tagged-Grows addr (codes "scrape_use_seconds") _ tags _ t)),
        )
        | inl up ↦
            let (never, grown) =
              gather_answered_lem addr ins client clock tags
                (push_tagged (codes "up") (int (pos 1)) tags l1) t in
            subst (Ends addr l at_up at_down) (sym up) (
              (λ e. absurd (never e), λ e. cc),
              λ n. Grows-trans addr pinged (
                  Grows-trans addr (push_tagged-Grows addr (codes "up") (int (pos 1)) tags l1 t)
                    (grown n)),
            )
      ]
