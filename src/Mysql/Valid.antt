-- ===== src/Mysql/Valid.antt =====
-- The names that are pushed, and what `Init` leaves of the configuration.
use kubemonitor.Common.{
  ◌≡◌, refl, Bool, true, false, ◌&&◌, ◌||◌, List, [], ◌∷◌, arith, if◌then◌else◌, Text, text_eq_iff,
  one_of, Map, lookup, is_some, insert, lookup-insert,
}
use kubemonitor.Mysql.Config.{Instance, add_names, always, init_valid_metrics}
use kubemonitor.Mysql.Names.{optional_status_vars, optional_innodb_vars}

lookup-add_names :
    (names : List Text) (m : Map {0} Unit) (k : Text)
    → is_some (lookup k (add_names names m)) ≡ (one_of names k || is_some (lookup k m))
unfolding add_names
lookup-add_names [] m k = refl
lookup-add_names (name ∷ names) m k = ground (
  arith,
  lookup-add_names names (insert name tt m) k,
  lookup-insert name k tt m,
  text_eq_iff k name,
  text_eq_iff name k,
)

lookup-added :
    (a b c : List Text) (s i : Bool) (k : Text)
    → let known = add_names a [] in
      let with_status = if s then add_names b known else known in
      is_some (lookup k (if i then add_names c with_status else with_status))
      ≡ (one_of a k || (s && one_of b k) || (i && one_of c k))
unfolding lookup
lookup-added a b c true true k = ground (
  arith,
  lookup-add_names c (add_names b (add_names a [])) k,
  lookup-add_names b (add_names a []) k,
  lookup-add_names a [] k,
)
lookup-added a b c true false k =
    ground (arith, lookup-add_names b (add_names a []) k, lookup-add_names a [] k)
lookup-added a b c false true k =
    ground (arith, lookup-add_names c (add_names a []) k, lookup-add_names a [] k)
lookup-added a b c false false k = ground (arith, lookup-add_names a [] k)

-- Behind `InitValidMetrics` a name is valid exactly if it is in one of the eleven maps that are
-- always added, or in one of the two optional maps and its flag is on.
pub init_valid_metrics_lem :
    (ins : Instance) (k : Text)
    → is_some (lookup k (init_valid_metrics ins).valid_metrics) ≡ (
        one_of always k
        || (ins.extra_status_metrics && one_of optional_status_vars k)
        || (ins.extra_innodb_metrics && one_of optional_innodb_vars k))
unfolding init_valid_metrics
init_valid_metrics_lem ins k =
    lookup-added always optional_status_vars optional_innodb_vars ins.extra_status_metrics
      ins.extra_innodb_metrics k
