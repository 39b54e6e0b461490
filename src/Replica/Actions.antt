-- ===== src/Replica/Actions.antt =====
-- internal/replica/parser.go, `parseActionBundles`, `countOperations`, and the constants and types
-- of internal/replica/types.go that they use.
--
-- A `json.RawMessage` is the JSON value that it spells. `json.Unmarshal` into a Go type is
-- written out: `null` leaves the zero value, and a value of another shape is an error. Keys of an
-- object are taken to be distinct and spelled as in the struct tags.
pub mod Totals
pub mod Occurrences
pub mod Operations
use mathlib.Core.List.{lookup}
use hyperliquid_exporter.Base.Dict.{insert}
use hyperliquid_exporter.Replica.Count.{count_json_array_elements}
use hyperliquid_exporter.Replica.Json.{
  Json, literal, string, array, object, Items, nil, cons, Fields, end, field, print, items_length,
}
use hyperliquid_exporter.Base.{
  ℕ, zero, suc, ◌+◌, ◌-◌, ◌≤◌, ◌<◌, ◌≡◌, refl, sym, ap, ◌∙◌, fun_ext, ◌≢◌, ◌↔◌, ◌⊎◌, inl, inr, Bool,
  true, false, not, ◌&&◌, ◌||◌, Option, none, some, List, [], ◌∷◌, ◌++◌, map, arith, ltb, leb, ◌==◌,
  if◌then◌else◌, ==_iff, Bool-cases, Option-cases, Bytes, codes, bytes_discrete, length, All, keep,
  ite, dec_lt, dec_le, ℕ_discrete, if_pos, if_neg,
}

abbrev pub null : Json
null = literal (codes "null")

abbrev pub action_type_order : Bytes
action_type_order = codes "order"

abbrev pub action_type_twap_order : Bytes
action_type_twap_order = codes "twapOrder"

abbrev pub action_type_cancel : Bytes
action_type_cancel = codes "cancel"

abbrev pub action_type_cancel_by_cloid : Bytes
action_type_cancel_by_cloid = codes "cancelByCloid"

abbrev pub action_type_batch_modify : Bytes
action_type_batch_modify = codes "batchModify"

abbrev pub action_type_other : Bytes
action_type_other = codes "other"

-- The fields of `action` that the parser decodes. `none` is a raw message of length 0.
pub record RawAction : Type 0 where
  pub type : Bytes
  pub orders : Option Json
  pub cancels : Option Json
  pub modifies : Option Json

abbrev pub zero_action : RawAction
zero_action = record { type = []; orders = none; cancels = none; modifies = none }

unfoldable pub is_null : Json → Bool
is_null (literal t) = ite (bytes_discrete t (codes "null")) true false
is_null v = false

unfoldable pub find_field : Bytes → Fields → Option Json
find_field k end = none
find_field k (field j v fs) = ite (bytes_discrete k j) (some v) (find_field k fs)

unfoldable pub to_list : Items → List Json
to_list nil = []
to_list (cons v vs) = v ∷ to_list vs

-- `json.Unmarshal` into `[]json.RawMessage`
unfoldable pub unmarshal_array : Json → Option (List Json)
unmarshal_array (array vs) = some (to_list vs)
unmarshal_array v = if is_null v then some [] else none

-- `json.Unmarshal` into a string, from a field that may be missing
unfoldable pub unmarshal_string : Option Json → Option Bytes
unmarshal_string none = some []
unmarshal_string (some (string s)) = some s
unmarshal_string (some v) = if is_null v then some [] else none

unfoldable pub unmarshal_action : Option Json → Option RawAction
unmarshal_action none = some zero_action
unmarshal_action (some (object fs)) = elim (unmarshal_string (find_field (codes "type") fs)) [
  | none ↦ none
  | some t ↦ some (record {
    type = t;
    orders = find_field (codes "orders") fs;
    cancels = find_field (codes "cancels") fs;
    modifies = find_field (codes "modifies") fs;
  })
]
unmarshal_action (some v) = if is_null v then some zero_action else none

unfoldable pub unmarshal_signed_action : Json → Option RawAction
unmarshal_signed_action (object fs) = unmarshal_action (find_field (codes "action") fs)
unmarshal_signed_action v = if is_null v then some zero_action else none

unfoldable pub unmarshal_signed_actions : List Json → Option (List RawAction)
unmarshal_signed_actions [] = some []
unmarshal_signed_actions (v ∷ vs) =
    let rest = unmarshal_signed_actions vs in
    elim (unmarshal_signed_action v) [
      | none ↦ none
      | some a ↦ elim rest [ none ↦ none | some l ↦ some (a ∷ l) ]
    ]

unfoldable pub unmarshal_signed_field : Option Json → Option (List RawAction)
unmarshal_signed_field none = some []
unmarshal_signed_field (some v) = elim (unmarshal_array v) [
  | none ↦ none
  | some l ↦ unmarshal_signed_actions l
]

-- `json.Unmarshal` into `bundleData`: its signed actions
unfoldable pub unmarshal_bundle : Json → Option (List RawAction)
unmarshal_bundle (object fs) = unmarshal_signed_field (find_field (codes "signed_actions") fs)
unmarshal_bundle v = if is_null v then some [] else none

-- The variables that `parseActionBundles` updates for its caller.
pub record Counts : Type 0 where
  pub action_counts : List (Bytes × ℕ)
  pub operation_counts : List (Bytes × ℕ)
  pub total_actions : ℕ
  pub total_operations : ℕ

abbrev pub no_counts : Counts
no_counts = record {
  action_counts = [];
  operation_counts = [];
  total_actions = 0;
  total_operations = 0;
}

abbrev pub count_of : Option ℕ → ℕ
count_of none = 0
count_of (some n) = n

-- `m[k] += n`
unfoldable pub add_count : Bytes → ℕ → List (Bytes × ℕ) → List (Bytes × ℕ)
add_count k n m = insert bytes_discrete k (count_of (lookup bytes_discrete k m) + n) m

unfoldable pub count_raw : Option Json → ℕ
count_raw none = 1
count_raw (some v) = count_json_array_elements (print v)

-- The `switch` on the action's type.
unfoldable pub operation_count : Bytes → RawAction → ℕ
operation_count t a = ite (bytes_discrete t action_type_order) (count_raw a.orders) (
    ite (bytes_discrete t action_type_twap_order) (count_raw a.orders) (
      ite (bytes_discrete t action_type_cancel) (count_raw a.cancels) (
        ite (bytes_discrete t action_type_cancel_by_cloid) (count_raw a.cancels)
          (ite (bytes_discrete t action_type_batch_modify) (count_raw a.modifies) 1))))

abbrev pub type_or_other : Bytes → Bytes
type_or_other [] = action_type_other
type_or_other (b ∷ bs) = b ∷ bs

-- The body of the loop over the signed actions.
unfoldable pub count_action : RawAction → Counts → Counts
count_action a c =
    let t = type_or_other a.type in
    let n = operation_count t a in
    record {
      action_counts = add_count t 1 c.action_counts;
      operation_counts = add_count t n c.operation_counts;
      total_actions = c.total_actions + 1;
      total_operations = c.total_operations + n;
    }

unfoldable pub count_actions : List RawAction → Counts → Counts
count_actions [] c = c
count_actions (a ∷ l) c = count_actions l (count_action a c)

-- `pair[1]`, decoded; `none` where the loop continues with the next pair
unfoldable pub pair_actions : List Json → Option (List RawAction)
pair_actions [] = none
pair_actions (h ∷ []) = none
pair_actions (h ∷ v ∷ l) = unmarshal_bundle v

unfoldable pub bundle_actions : Json → Option (List RawAction)
bundle_actions v = elim (unmarshal_array v) [ none ↦ none | some pair ↦ pair_actions pair ]

-- The loop over the bundles.
unfoldable pub count_bundles : List Json → Counts → Counts
count_bundles [] c = c
count_bundles (v ∷ vs) c =
    count_bundles vs (elim (bundle_actions v) [ none ↦ c | some l ↦ count_actions l c ])

unfoldable pub parse_action_bundles : Json → Counts → Option Counts
parse_action_bundles v c = elim (unmarshal_array v) [
  | none ↦ none
  | some bundles ↦ some (count_bundles bundles c)
]

-- `countOperations`: the same count on decoded data, where an array is measured by its length.
unfoldable pub array_or_one : Option Json → ℕ
array_or_one (some (array vs)) = items_length vs
array_or_one _ = 1

unfoldable pub count_operations : Bytes → Fields → ℕ
count_operations t fs =
    ite (bytes_discrete t action_type_order) (array_or_one (find_field (codes "orders") fs)) (
      ite (bytes_discrete t action_type_twap_order) (array_or_one (find_field (codes "orders") fs))
        (ite (bytes_discrete t action_type_cancel) (array_or_one (find_field (codes "cancels") fs))
          (ite (bytes_discrete t action_type_cancel_by_cloid)
            (array_or_one (find_field (codes "cancels") fs))
            (ite (bytes_discrete t action_type_batch_modify)
              (array_or_one (find_field (codes "modifies") fs)) 1))))
