-- ===== src/Elastic/Shards.antt =====
-- What the sample of a shard holds.
use kubemonitor.Common.{
  ◌≡◌, refl, ◌∙◌, false, some, [], ◌∷◌, arith, All, Text, codes, text_eq, Map, lookup, insert,
  delete, lookup-delete, lookup-insert_self, Distinct, insert-Distinct, delete-Distinct,
}
use kubemonitor.Value.{Value, int}
use kubemonitor.Elastic.Indices.{
  is_text_or_bool, code_routing_state, delete_text, shard_fields, map_shard_status_to_code,
}

module _ {F : Type 0} where
  delete_text_lem :
      (fields : Map (Value F)) → All (λ f. is_text_or_bool f.1 ≡ false) (delete_text fields)
  unfolding delete_text
  delete_text_lem [] = tt
  delete_text_lem ((k, v) ∷ fields) = ground (arith, delete_text_lem fields)

  lookup-delete_text :
      (k : Text) (v : Value F) (fields : Map (Value F))
      → Distinct fields
      → lookup k fields ≡ some v
      → is_text_or_bool v ≡ false
      → lookup k (delete_text fields) ≡ some v
  unfolding lookup delete_text
  lookup-delete_text k v [] d h n = cc
  lookup-delete_text k v ((j, w) ∷ fields) d h n = ground (arith, lookup-delete_text k v fields)

  -- The sample of a shard has no field that is a string or a bool, and a state that is a string is
  -- there as its code.
  shard_fields_lem :
      (fields : Map (Value F)) (state : Text)
      → Distinct fields
      → lookup (codes "routing_state") fields ≡ some (Value.text state)
      → All (λ f. is_text_or_bool f.1 ≡ false) (shard_fields fields)
        × (lookup (codes "routing_state") (shard_fields fields)
            ≡ some (int (map_shard_status_to_code state)))
  unfolding shard_fields code_routing_state
  shard_fields_lem fields state d h =
      let rest : Map (Value F) = delete (codes "routing_primary") fields in
      let code : Value F = int (map_shard_status_to_code state) in
      let coded : Map (Value F) = insert (codes "routing_state") code rest in
      let kept : lookup (codes "routing_state") rest ≡ some (Value.text state) =
        lookup-delete (codes "routing_primary") (codes "routing_state") fields
        ∙ unfold text_eq in h in
      (
        delete_text_lem (code_routing_state (lookup (codes "routing_state") rest) rest),
        rw kept (
            lookup-delete_text (codes "routing_state") code coded
              (insert-Distinct (codes "routing_state") code rest
                (delete-Distinct (codes "routing_primary") fields d))
              (lookup-insert_self (codes "routing_state") code rest) refl),
      )
