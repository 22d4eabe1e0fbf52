-- ===== src/Clickhouse/Clusters.antt =====
-- The filter on clusters that a configuration gives.
use kubemonitor.Common.{◌≡◌, refl, List, ◌∷◌, ◌++◌, suc_test, length, Text, codes}
use kubemonitor.Factory.{ConfigMap, parse_slice}
use kubemonitor.Factory.Slices.{parse_slice_some}
use kubemonitor.Clickhouse.{
  Instance, init, make_filter, filter_of, join_filters, cluster_include_exclude_filter,
}

-- The filter of two lists that are not empty.
both_filters :
    (x y : Text) (xs ys : List Text)
    → join_filters (filter_of (codes "IN") (x ∷ xs)) (filter_of (codes "NOT IN") (y ∷ ys))
      ≡ codes "WHERE "
        ++ make_filter (codes "IN") (x ∷ xs)
        ++ codes " OR "
        ++ make_filter (codes "NOT IN") (y ∷ ys)
unfolding join_filters filter_of make_filter
both_filters x y xs ys = refl

-- Behind `Init`, whatever the configuration, the filter has both parts, joined by `OR`: a list that
-- is not configured is the list of the empty name. So a configured list of clusters to include
-- stands beside `cluster NOT IN ('')`, which every cluster meets.
init-filter :
    (config : ConfigMap) (ins : Instance)
    → cluster_include_exclude_filter (init config ins).1
      ≡ codes "WHERE "
        ++ make_filter (codes "IN") (parse_slice config (codes "cluster_include"))
        ++ codes " OR "
        ++ make_filter (codes "NOT IN") (parse_slice config (codes "cluster_exclude"))
unfolding init cluster_include_exclude_filter
init-filter config ins =
    let (x, xs, e) = parse_slice_some config (codes "cluster_include") in
    let (y, ys, e') = parse_slice_some config (codes "cluster_exclude") in
    rw (e, e', suc_test (length xs)) (both_filters x y xs ys)
