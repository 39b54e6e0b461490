-- ===== src/Replica/Actions/Operations.antt =====
-- The fast count of operations of internal/replica/parser.go against `countOperations`.
use hyperliquid_exporter.Replica.Count.{count_json_array_elements}
use hyperliquid_exporter.Replica.Count.Exact.{AreSingle, count_exact_iff}
use hyperliquid_exporter.Replica.Actions.{
  RawAction, action_type_order, find_field, count_raw, operation_count, array_or_one,
  count_operations, unmarshal_action,
}
use hyperliquid_exporter.Replica.Json.{
  Json, array, object, Items, cons, Fields, print, AreSpelled, items_length,
}
use hyperliquid_exporter.Base.{◌≤◌, ◌≡◌, ◌↔◌, some, arith, codes, bytes_discrete}

-- For an order action with an array of orders, the count that the parser records is at least that
-- of `countOperations`, and equals it exactly when no order is an object with several leaves.
pub operation_count-orders :
    (fs : Fields) (a : RawAction) (x : Json) (xs : Items)
    → unmarshal_action (some (object fs)) ≡ some a
    → find_field (codes "orders") fs ≡ some (array (cons x xs))
    → AreSpelled (cons x xs)
    → (count_operations action_type_order fs ≤ operation_count action_type_order a)
      × ((operation_count action_type_order a ≡ count_operations action_type_order fs)
          ↔ AreSingle (cons x xs))
unfolding unmarshal_action operation_count count_operations count_raw array_or_one bytes_discrete
    count_json_array_elements
operation_count-orders fs a x xs e f h =
    let raw : a.orders ≡ some (array (cons x xs)) = ground arith in
    let fast : operation_count action_type_order a
        ≡ count_json_array_elements (print (array (cons x xs))) =
      rw (raw, operation_count) in
    let exact : count_operations action_type_order fs ≡ items_length (cons x xs) =
      rw (f, count_operations) in
    rw (fast, exact) (count_exact_iff x xs h)
