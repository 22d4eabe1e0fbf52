-- ===== src/Clickhouse/Silence.antt =====
-- A ClickHouse that does not answer.
use kubemonitor.Common.{
  ℕ, ◌≡◌, ◌≢◌, ◌↔◌, ◌∙◌, ap, Bool, true, false, inl, inr, refl, Option, none, List, [], ◌∷◌,
  if◌then◌else◌, Bool-cases, Option-cases, All, Text, lookup, is_some,
}
use kubemonitor.Value.{Floats}
use kubemonitor.Sample.{SampleList}
use kubemonitor.Writer.{Outcome, ok, failed, panicked}
use kubemonitor.Clickhouse.{Instance, MetricConfig, Connect}
use kubemonitor.Clickhouse.Requests.{
  Net, GetRequest, exec_query, get_body, decode_all, asking, get_request,
}
use kubemonitor.Clickhouse.Rows.{Scraped}
use kubemonitor.Clickhouse.Tables.{
  query_push, if_there, tables, zookeeper, replication_queue, detached_parts, dictionaries,
  mutations, disks, processes, text_log, common_metrics_of, common_metrics_is_float, is_float_of,
}
use kubemonitor.Clickhouse.Custom.{CustomStep, asked, run_custom, exec_custom_query}
use kubemonitor.Clickhouse.Gather.{
  and_next, next_connect, round_end, Function, run_functions, metrics_funcs, discover,
  gather_connect, gather_connects, gather,
}

-- It leaves the list as it is, and fails.
abbrev Fails : {U F : Type 0} → Function U F → Type 0
Fails {U} {F} f =
    (conn : Connect U) (slist : SampleList F) → (u : U) × (f conn slist ≡ (failed, u, slist))

run_functions-Fails :
    {U F : Type 0} (functions : List (Function U F)) (conn : Connect U) (slist : SampleList F)
    → All Fails functions
    → (u : U) × (run_functions functions conn slist ≡ (ok, u, slist))
unfolding run_functions and_next
run_functions-Fails [] conn slist h = (conn.url, refl)
run_functions-Fails (f ∷ functions) conn slist h =
    let (u, e) = h.0 conn slist in
    let (u', rest) = run_functions-Fails functions (record conn { url = u }) slist h.1 in
    (u', rw (e, and_next) rest)

module _ {U B F : Type 0} ⦃fl : Floats F⦄ (net : Net U B F) (ins : Instance)
    (silent : (r : GetRequest) → net.server.send r ≡ none) where
  body_none : (u : U) → get_body net ins u ≡ none
  unfolding get_body
  body_none u = rw (silent (get_request ins (net.urls.to_text u)), get_body)

  query_none :
      {A : Type 0} (decode : B → Option A) (query : Text) (u : U)
      → exec_query net ins decode query u ≡ (none, asking net query u)
  unfolding exec_query decode_all
  query_none decode query u = rw (body_none (asking net query u))

  push_fails :
      {A : Type 0} (body : List A → SampleList F → Outcome × SampleList F)
      (decode : B → Option (List A)) (query : Text) (v : U) (slist : SampleList F)
      → (u : U) × (query_push body (exec_query net ins decode query v) slist ≡ (failed, u, slist))
  unfolding query_push
  push_fails body decode query v slist = (asking net query v, rw (query_none decode query v) refl)

  there_fails :
      (go : U → SampleList F → Scraped U F) (decode : B → Option (List ℕ)) (query : Text) (v : U)
      (slist : SampleList F)
      → (u : U) × (if_there go (exec_query net ins decode query v) slist ≡ (failed, u, slist))
  unfolding if_there
  there_fails go decode query v slist = (asking net query v, rw (query_none decode query v) refl)

  common-Fails :
      (m : Text) → Fails (λ (conn : Connect U) slist. common_metrics_of net ins conn m slist)
  unfolding common_metrics_of
  common-Fails m conn slist = elim (Bool-cases (is_float_of (lookup m common_metrics_is_float))) [
    | inl float ↦ rw (float, common_metrics_of) (push_fails _ _ _ conn.url slist)
    | inr int ↦ rw (int, common_metrics_of) (push_fails _ _ _ conn.url slist)
  ]

  funcs_fail : All Fails (metrics_funcs net ins)
  unfolding tables zookeeper replication_queue detached_parts dictionaries mutations disks processes
      text_log
  funcs_fail = (
    (λ conn. push_fails _ _ _ conn.url),
    (
      (λ conn. there_fails _ _ _ conn.url),
      (
        (λ conn. there_fails _ _ _ conn.url),
        (
          (λ conn. push_fails _ _ _ conn.url),
          (
            (λ conn. push_fails _ _ _ conn.url),
            (
              (λ conn. push_fails _ _ _ conn.url),
              (
                (λ conn. push_fails _ _ _ conn.url),
                (
                  (λ conn. push_fails _ _ _ conn.url),
                  (
                    (λ conn. there_fails _ _ _ conn.url),
                    (common-Fails _, (common-Fails _, (common-Fails _, tt))),
                  ),
                ),
              ),
            ),
          ),
        ),
      ),
    ),
  )

  custom_fails :
      (conn : Connect U) (requests : List (MetricConfig × U)) (slist : SampleList F)
      → run_custom net ins conn requests slist ≡ slist
  unfolding run_custom exec_custom_query
  custom_fails conn [] slist = refl
  custom_fails conn ((conf, u) ∷ requests) slist =
      rw (body_none u, exec_custom_query) (custom_fails conn requests slist)

  connect_fails :
      (steps : List CustomStep) (conn : Connect U) (slist : SampleList F)
      → gather_connect net ins steps conn slist ≡ (ok, slist)
  unfolding gather_connect round_end
  connect_fails steps conn slist =
      let (u, e) = run_functions-Fails (metrics_funcs net ins) conn slist funcs_fail in
      rw (e, round_end) (rw (custom_fails conn (asked net steps u) slist) refl)

  connects_fail :
      (order : Connect U → List CustomStep) (connects : List (Connect U)) (slist : SampleList F)
      → gather_connects net ins order connects slist ≡ (ok, slist)
  unfolding gather_connects next_connect
  connects_fail order [] slist = refl
  connects_fail order (conn ∷ connects) slist =
      rw (connect_fails (order conn) conn slist, next_connect) (connects_fail order connects slist)

  gather-discover :
      (order : Connect U → List CustomStep) (slist : SampleList F)
      → ((gather net ins order slist).1 ≡ slist)
        × ((gather net ins order slist).0
            ≡ (if is_some (discover net ins ins.servers []) then ok else failed))
  unfolding gather
  gather-discover order slist = elim (Option-cases (discover net ins ins.servers [])) [
    | inl e ↦ (rw (e, gather) refl, rw (e, gather) refl)
    | inr (connects, e) ↦ (
      rw (e, gather) (rw (connects_fail order connects slist) refl),
      rw (e, gather) (rw (connects_fail order connects slist) refl),
    )
  ]

  discover-parses :
      (servers : List Text) (connects : List (Connect U))
      → (is_some (discover net ins servers connects) ≡ true)
        ↔ All (λ server. is_some (net.urls.parse server) ≡ true) servers
  unfolding discover
  discover-parses [] connects = ((λ e. tt), λ h. refl)
  discover-parses (server ∷ servers) connects = elim (Option-cases (net.urls.parse server)) [
    | inl e ↦ rw (e, discover) ((λ h. cc), λ h. absurd (cc (h.0)))
    | inr (u, e) ↦
        let rest = discover-parses servers in
        rw (e, discover) ((λ h. (refl, (rest _).0 h)), λ h. (rest _).1 h.1)
  ]

  -- If no request is answered, `Gather` leaves the list as it is, without a sample that would tell,
  -- and does not panic; it returns nil exactly if the URL of every server parses.
  pub gather-silent :
      (order : Connect U → List CustomStep) (slist : SampleList F)
      → ((gather net ins order slist).1 ≡ slist)
        × ((gather net ins order slist).0 ≢ panicked)
        × (((gather net ins order slist).0 ≡ ok)
            ↔ All (λ server. is_some (net.urls.parse server) ≡ true) ins.servers)
  gather-silent order slist =
      let (same, e) = gather-discover order slist in
      let parses = discover-parses ins.servers [] in
      let (fine, there) = ended _ _ e in
      (
        same,
        fine,
        ((λ h. parses.0 (there h)), λ h. e ∙ ap (λ b. if b then ok else failed) (parses.1 h)),
      )
    where
      ended :
          (b : Bool) (o : Outcome)
          → o ≡ (if b then ok else failed)
          → (o ≢ panicked) × (o ≡ ok → b ≡ true)
      ended true o e = ((λ p. cc), λ h. refl)
      ended false o e = ((λ p. cc), λ h. absurd (cc))
