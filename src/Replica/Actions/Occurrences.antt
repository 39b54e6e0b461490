-- ===== src/Replica/Actions/Occurrences.antt =====
-- The counts of internal/replica/parser.go by type are those of the decoded actions.
use mathlib.Core.List.{lookup}
use hyperliquid_exporter.Base.Dict.{lookup-insert}
use hyperliquid_exporter.Replica.Actions.{
  RawAction, Counts, count_of, add_count, operation_count, type_or_other, count_action,
  count_actions, bundle_actions, count_bundles, parse_action_bundles, unmarshal_array,
}
use hyperliquid_exporter.Replica.Json.{Json}
use hyperliquid_exporter.Base.{
  ℕ, ◌+◌, ◌≡◌, refl, sym, ◌∙◌, inl, inr, none, some, List, [], ◌∷◌, ◌++◌, arith, Option-cases,
  Bytes, bytes_discrete, length, ite,
}

-- The actions of the bundles that decode, in order; the others are skipped.
unfoldable pub decoded_actions : List Json → List RawAction
decoded_actions [] = []
decoded_actions (v ∷ vs) = elim (bundle_actions v) [ none ↦ [] | some l ↦ l ] ++ decoded_actions vs

-- How many actions count under a type, and how many operations.
unfoldable pub occurrences : Bytes → List RawAction → ℕ
occurrences t [] = 0
occurrences t (a ∷ l) = ite (bytes_discrete (type_or_other a.type) t) 1 0 + occurrences t l

unfoldable pub operations : Bytes → List RawAction → ℕ
operations t [] = 0
operations t (a ∷ l) =
    ite (bytes_discrete (type_or_other a.type) t) (operation_count t a) 0 + operations t l

abbrev pub read_count : Bytes → List (Bytes × ℕ) → ℕ
read_count k m = count_of (lookup bytes_discrete k m)

read-add_count :
    (t k : Bytes) (n : ℕ) (m : List (Bytes × ℕ))
    → read_count t (add_count k n m) ≡ ite (bytes_discrete k t) n 0 + read_count t m
unfolding add_count
read-add_count t k n m =
    ground (arith, lookup-insert bytes_discrete t k (count_of (lookup bytes_discrete k m) + n) m)

count_actions-append :
    (l k : List RawAction) (c : Counts)
    → count_actions (l ++ k) c ≡ count_actions k (count_actions l c)
unfolding count_actions
count_actions-append [] k c = refl
count_actions-append (a ∷ l) k c = count_actions-append l k (count_action a c)

count_bundles-decoded :
    (vs : List Json) (c : Counts) → count_bundles vs c ≡ count_actions (decoded_actions vs) c
unfolding count_bundles decoded_actions
count_bundles-decoded [] c = unfold count_actions in refl
count_bundles-decoded (v ∷ vs) c = elim (Option-cases (bundle_actions v)) [
  | inl skipped ↦ rw (skipped, count_bundles, decoded_actions) (count_bundles-decoded vs c)
  | inr (l, decoded) ↦
      rw (decoded, count_bundles, decoded_actions)
        (count_bundles-decoded vs (count_actions l c)
          ∙ sym (count_actions-append l (decoded_actions vs) c))
]

pub record Adds (l : List RawAction) (c d : Counts) : Type 0 where
  pub actions :
      (t : Bytes) → read_count t d.action_counts ≡ read_count t c.action_counts + occurrences t l
  pub operations_by_type :
      (t : Bytes)
      → read_count t d.operation_counts ≡ read_count t c.operation_counts + operations t l
  pub total : d.total_actions ≡ c.total_actions + length l

count_actions-Adds : (l : List RawAction) (c : Counts) → Adds l c (count_actions l c)
unfolding count_actions occurrences operations count_action
count_actions-Adds [] c = record {
  actions = λ t. omega arith;
  operations_by_type = λ t. omega arith;
  total = omega arith;
}
count_actions-Adds (a ∷ l) c =
    let t = type_or_other a.type in
    let ih = count_actions-Adds l (count_action a c) in
    record {
      actions = λ q. omega (arith, ih.actions q, read-add_count q t 1 c.action_counts);
      operations_by_type = λ q. ground (
        arith,
        ih.operations_by_type q,
        read-add_count q t (operation_count t a) c.operation_counts,
      );
      total = omega (arith, ih.total);
    }

-- Parsing an array of bundles adds, for every type, the number of decoded actions of that type
-- and the number of their operations, and to the total the number of decoded actions. A bundle
-- that does not decode adds nothing.
pub parse_action_bundles-Adds :
    (v : Json) (bundles : List Json) (c : Counts)
    → unmarshal_array v ≡ some bundles
    → (d : Counts) × (parse_action_bundles v c ≡ some d) × Adds (decoded_actions bundles) c d
unfolding parse_action_bundles
parse_action_bundles-Adds v bundles c e = (
  count_bundles bundles c,
  ground arith,
  rw (count_bundles-decoded bundles c) (count_actions-Adds (decoded_actions bundles) c),
)
