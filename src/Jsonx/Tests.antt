-- ===== src/Jsonx/Tests.antt =====
-- Runs of the flattener.
use kubemonitor.Common.{◌≡◌, ◌↔◌, refl, true, false, [], ◌∷◌, map, codes, join, insert, insert_all}
use kubemonitor.Common.Int.{ℤ, pos}
use kubemonitor.Value.{float64}
use kubemonitor.Writer.{ok, failed}
use kubemonitor.Jsonx.{
  Json, object, array, number, str, end, member, nil, full_flatten_json, flatten_members,
  flatten_json, field_key, and_then,
}
use kubemonitor.Jsonx.Paths.{is_clean, scalars, full_flatten_json_lem}

-- {"jvm": {"mem": 7, "name": "a"}, "tags": []}
abbrev stats : Json ℤ
stats = object (
    member (codes "jvm")
      (object (member (codes "mem") (number (pos 7)) (member (codes "name") (str (codes "a")) end)))
      (member (codes "tags") (array nil) end))

flattened :
    flatten_json (codes "node") stats [] ≡ (ok, (codes "node_jvm_mem", float64 (pos 7)) ∷ [])
unfolding flatten_json full_flatten_json flatten_members field_key and_then insert
flattened = refl

full_flatten_json_lem_example :
    let r = full_flatten_json (codes "node") stats true false [] in
    ((r.0 ≡ failed) ↔ (is_clean stats ≡ false))
    × (is_clean stats ≡ true
        → r ≡ (
          ok,
          insert_all
              (map (λ e. (join (codes "node" ∷ e.0) (b'_' ∷ []), e.1)) (scalars stats true false))
              [],
        ))
full_flatten_json_lem_example = full_flatten_json_lem b'n' (codes "ode") stats true false []
