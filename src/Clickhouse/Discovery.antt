-- ===== src/Clickhouse/Discovery.antt =====
-- The connections that `Gather` finds.
use kubemonitor.Common.{
  ◌≡◌, ◌≢◌, inl, inr, Bool, true, false, Option, none, some, List, [], ◌∷◌, ◌++◌, arith,
  if◌then◌else◌, Bool-cases, Option-cases, OnSome, All, All-append, Text, text_eq_iff,
}
use kubemonitor.Value.{Floats}
use kubemonitor.Clickhouse.{Instance, Connect}
use kubemonitor.Clickhouse.Requests.{Net, Urls, ShardRow}
use kubemonitor.Clickhouse.Gather.{add_answer, exists, add_shards, discover}

module _ {U : Type 0} where
  -- No host twice.
  abbrev pub OneEach : List (Connect U) → Type 0
  OneEach [] = Unit
  OneEach (c ∷ connects) =
      All (λ (d : Connect U). c.hostname ≢ d.hostname) connects × OneEach connects

  snoc-OneEach :
      (connects : List (Connect U)) (c : Connect U)
      → OneEach connects
      → exists c.hostname connects ≡ false
      → OneEach (connects ++ c ∷ [])
  unfolding exists
  snoc-OneEach [] c h e = (tt, tt)
  snoc-OneEach (d ∷ connects) c h e = (
    All-append (λ (x : Connect U). d.hostname ≢ x.hostname) connects (c ∷ []) h.0
        ((λ same. ground (arith, e, text_eq_iff d.hostname c.hostname)), tt),
    snoc-OneEach connects c h.1 (ground (arith, e)),
  )

  add_shards-OneEach :
      (urls : Urls U) (u : U) (rows : List ShardRow) (connects : List (Connect U))
      → OneEach connects
      → OneEach (add_shards urls u rows connects)
  unfolding add_shards
  add_shards-OneEach urls u [] connects h = h
  add_shards-OneEach urls u (row ∷ rows) connects h =
      elim (Bool-cases (exists row.host_name connects)) [
        | inl there ↦ rw (there, add_shards) (add_shards-OneEach urls u rows connects h)
        | inr fresh ↦
            rw (fresh, add_shards)
              (add_shards-OneEach urls u rows _ (snoc-OneEach connects _ h fresh))
      ]

  add_answer-OneEach :
      (urls : Urls U) (u : U) (answer : Option (List ShardRow)) (connects : List (Connect U))
      → OneEach connects
      → OneEach (add_answer urls u answer connects)
  unfolding add_answer
  add_answer-OneEach urls u none connects h = h
  add_answer-OneEach urls u (some rows) connects h = add_shards-OneEach urls u rows connects h

at_true :
    {A : Type 0} (P : A → Type 0) {b : Bool} {x : A} (y : A)
    → b ≡ true
    → P x
    → P (if b then x else y)
at_true P y h p = rw h p

module _ {U B F : Type 0} ⦃fl : Floats F⦄ (net : Net U B F) where
  discover-grows :
      (ins : Instance) (servers : List Text) (connects : List (Connect U))
      → ins.auto_discovery ≡ true
      → OneEach connects
      → OnSome OneEach (discover net ins servers connects)
  unfolding discover
  discover-grows ins [] connects auto h = h
  discover-grows ins (server ∷ servers) connects auto h =
      elim (Option-cases (net.urls.parse server)) [
        | inl e ↦ rw (e, discover) tt
        | inr (u, e) ↦
            rw (e, discover)
              (discover-grows ins servers _ auto
                (at_true OneEach _ auto (add_answer-OneEach net.urls u _ connects h)))
      ]

  -- With automatic discovery, the connections have pairwise different hosts, however many servers
  -- tell of a host.
  pub discover-OneEach :
      (ins : Instance)
      → ins.auto_discovery ≡ true
      → OnSome OneEach (discover net ins ins.servers [])
  discover-OneEach ins auto = discover-grows ins ins.servers [] auto tt
