-- ===== src/Replica/Actions/Totals.antt =====
-- The totals of internal/replica/parser.go are the sums of the counts by type.
use mathlib.Core.List.{lookup}
use hyperliquid_exporter.Base.Dict.{insert}
use hyperliquid_exporter.Replica.Actions.{
  RawAction, Counts, count_of, add_count, operation_count, type_or_other, count_action,
  count_actions, bundle_actions, count_bundles, parse_action_bundles, unmarshal_array,
}
use hyperliquid_exporter.Replica.Json.{Json}
use hyperliquid_exporter.Base.{
  ℕ, ◌+◌, ◌≡◌, inl, inr, some, List, [], ◌∷◌, arith, Option-cases, Bytes, bytes_discrete,
}

abbrev pub sum_counts : List (Bytes × ℕ) → ℕ
sum_counts [] = 0
sum_counts ((k, n) ∷ m) = n + sum_counts m

sum-insert :
    (k : Bytes) (n : ℕ) (m : List (Bytes × ℕ))
    → sum_counts (insert bytes_discrete k (count_of (lookup bytes_discrete k m) + n) m)
      ≡ sum_counts m + n
unfolding insert lookup
sum-insert k n [] = omega arith
sum-insert k n ((j, w) ∷ m) = elim (bytes_discrete k j) [
  | yes p ↦ ground arith
  | no p ↦ ground (arith, sum-insert k n m)
]

pub record IsBalanced (c : Counts) : Type 0 where
  pub actions : sum_counts c.action_counts ≡ c.total_actions
  pub operations : sum_counts c.operation_counts ≡ c.total_operations

count_action-IsBalanced :
    (a : RawAction) (c : Counts) → IsBalanced c → IsBalanced (count_action a c)
unfolding count_action add_count
count_action-IsBalanced a c b =
    let t = type_or_other a.type in
    record {
      actions = omega (arith, sum-insert t 1 c.action_counts, b.actions);
      operations =
          omega (arith, sum-insert t (operation_count t a) c.operation_counts, b.operations);
    }

count_actions-IsBalanced :
    (l : List RawAction) (c : Counts) → IsBalanced c → IsBalanced (count_actions l c)
unfolding count_actions
count_actions-IsBalanced [] c b = b
count_actions-IsBalanced (a ∷ l) c b =
    count_actions-IsBalanced l (count_action a c) (count_action-IsBalanced a c b)

count_bundles-IsBalanced :
    (vs : List Json) (c : Counts) → IsBalanced c → IsBalanced (count_bundles vs c)
unfolding count_bundles
count_bundles-IsBalanced [] c b = b
count_bundles-IsBalanced (v ∷ vs) c b = elim (Option-cases (bundle_actions v)) [
  | inl skipped ↦ rw (skipped, count_bundles) (count_bundles-IsBalanced vs c b)
  | inr (l, decoded) ↦
      rw (decoded, count_bundles)
        (count_bundles-IsBalanced vs (count_actions l c) (count_actions-IsBalanced l c b))
]

-- Whatever bundles are parsed, the total of actions is the sum of the counts by action type, and
-- the total of operations the sum of the operation counts by type, if both were so before.
pub parse_action_bundles-IsBalanced :
    (v : Json) (c d : Counts) → IsBalanced c → parse_action_bundles v c ≡ some d → IsBalanced d
unfolding parse_action_bundles
parse_action_bundles-IsBalanced v c d b e = elim (Option-cases (unmarshal_array v)) [
  | inl bad ↦ absurd (ground arith)
  | inr (bundles, decoded) ↦
      let same : count_bundles bundles c ≡ d = ground arith in
      rw same at (count_bundles-IsBalanced bundles c b)
]
