-- ===== src/Replica/Tests.antt =====
-- Runs of internal/replica/parser.go on small inputs, and the theorems at such inputs.
use mathlib.Core.List.{lookup}
use hyperliquid_exporter.Base.Dict.{insert}
use hyperliquid_exporter.Base.Int.{pos}
use hyperliquid_exporter.Replica.Actions.{
  RawAction, action_type_order, Counts, no_counts, add_count, is_null, find_field, to_list,
  unmarshal_array, unmarshal_string, unmarshal_action, unmarshal_signed_action,
  unmarshal_signed_actions, unmarshal_signed_field, unmarshal_bundle, count_raw, operation_count,
  count_action, count_actions, pair_actions, bundle_actions, count_bundles, parse_action_bundles,
  array_or_one, count_operations,
}
use hyperliquid_exporter.Replica.Actions.Operations.{operation_count-orders}
use hyperliquid_exporter.Replica.Actions.Totals.{IsBalanced}
use hyperliquid_exporter.Replica.Count.{scan_byte, scan_step, scan, count_json_array_elements}
use hyperliquid_exporter.Replica.Count.Exact.{AreSingle}
use hyperliquid_exporter.Replica.Count.Printed.{count_json_array_elements-print}
use hyperliquid_exporter.Replica.Json.{
  is_plain, Json, literal, string, array, object, Items, nil, cons, Fields, end, field, print_chars,
  print_string, print, IsSpelled, AreSpelled, items_length, leaves, item_leaves,
}
use hyperliquid_exporter.Replica.Parser.{
  BlockText, ReplicaBlock, zero_block, reset, decode, get_block, decode_block, BlockMetrics,
  TimeLayouts, block_time, bundle_counts, metrics_of, extract_metrics, parse_blocks_from,
  parse_blocks, stream_file,
}
use hyperliquid_exporter.Replica.Parser.Stream.{file_metrics, file_error, parse_blocks-file}
use hyperliquid_exporter.Base.{
  ℕ, max, ◌+◌, ◌≤◌, ◌≡◌, refl, ◌↔◌, Bool, true, Option, none, some, List, [], ◌∷◌, map, ◌==◌,
  if◌then◌else◌, Bytes, codes, bytes_discrete, length, ℕ_discrete,
}

program : Unit {0}
unfolding scan_byte scan_step scan count_json_array_elements is_plain print_chars print_string print
    items_length leaves is_null find_field to_list unmarshal_array unmarshal_string unmarshal_action
    unmarshal_signed_action unmarshal_signed_actions unmarshal_signed_field unmarshal_bundle
    add_count count_raw operation_count count_action count_actions pair_actions bundle_actions
    count_bundles parse_action_bundles array_or_one count_operations insert lookup bytes_discrete
    ℕ_discrete IsSpelled reset decode get_block block_time bundle_counts metrics_of extract_metrics
    parse_blocks_from parse_blocks stream_file
program = tt

-- {"a":1,"b":"x"}
abbrev order : Json
order =
    object (field (codes "a") (literal (codes "1")) (field (codes "b") (string (codes "x")) end))

-- [{"a":1,"b":"x"},{"a":1,"b":"x"}]
abbrev orders : Items
orders = cons order (cons order nil)

-- Two orders of two fields each are counted as four, and two plain elements as two.
counts :
    (count_json_array_elements (codes "[{\"a\":1,\"b\":\"x\"},{\"a\":1,\"b\":\"x\"}]") ≡ 4)
    × (count_json_array_elements (codes "[\"a,b\",[1,2]]") ≡ 2)
    × (count_json_array_elements (codes "[]") ≡ 1)
unfolding program
counts = (refl, refl, refl)

orders-AreSpelled : AreSpelled orders
unfolding program
orders-AreSpelled = (((refl, tt), (tt, tt)), (((refl, tt), (tt, tt)), tt))

count_json_array_elements-print_example :
    count_json_array_elements (print (array orders)) ≡ max 1 (item_leaves orders)
count_json_array_elements-print_example = count_json_array_elements-print orders orders-AreSpelled

-- {"type":"order","orders":[…]}
abbrev action : Fields
action = field (codes "type") (string (codes "order")) (field (codes "orders") (array orders) end)

abbrev raw_action : RawAction
raw_action = record {
  type = codes "order";
  orders = some (array orders);
  cancels = none;
  modifies = none;
}

operation_count-orders_example :
    (count_operations action_type_order action ≤ operation_count action_type_order raw_action)
    × ((operation_count action_type_order raw_action ≡ count_operations action_type_order action)
        ↔ AreSingle orders)
unfolding program
operation_count-orders_example =
    operation_count-orders action raw_action order (cons order nil) refl refl orders-AreSpelled

-- [["hash", {"signed_actions":[{"action":{…}},{"action":{}}]}], "junk"]
abbrev bundle : Json
bundle = array (
    cons (string (codes "hash")) (
      cons
        (object (
          field (codes "signed_actions")
            (array (
              cons (object (field (codes "action") (object action) end))
                (cons (object (field (codes "action") (object end) end)) nil)))
            end))
        nil))

abbrev bundles : Json
bundles = array (cons bundle (cons (string (codes "junk")) nil))

abbrev bundle_result : Counts
bundle_result = record {
  action_counts = (codes "order", 1) ∷ (codes "other", 1) ∷ [];
  operation_counts = (codes "order", 4) ∷ (codes "other", 1) ∷ [];
  total_actions = 2;
  total_operations = 5;
}

parsed : parse_action_bundles bundles no_counts ≡ some bundle_result
unfolding program
parsed = refl

no_counts-IsBalanced : IsBalanced no_counts
no_counts-IsBalanced = record { actions = refl; operations = refl }

-- A layout that accepts texts of one byte.
abbrev layouts : TimeLayouts
layouts = record {
  rfc3339_nano = λ s. elim s [ [] ↦ none | b ∷ l ↦ if length l == 0 then some b else none ];
  no_zone = λ s. none;
}

abbrev text : Option Bytes → BlockText
text t = record {
  time = t;
  round = some (pos 7);
  parent_round = none;
  proposer = some (codes "p");
  signed_action_bundles = some bundles;
  hardfork_version = none;
  hardfork_round = none;
  resps = none;
}

-- A block, a block without a time, and a text that does not decode.
abbrev file : List (Option (BlockText × ℕ))
file = some (text (some (9 ∷ [])), 3) ∷ some (text none, 4) ∷ none ∷ []

abbrev used : ReplicaBlock
used = record zero_block { time = 5 ∷ []; proposer = codes "q" }

parsed_file :
    (map BlockMetrics.total_operations (parse_blocks layouts file (used ∷ [])).0 ≡ 5 ∷ [])
    × ((parse_blocks layouts file (used ∷ [])).1 ≡ some decode_block)
unfolding program
parsed_file = (refl, refl)

parse_blocks-file_example :
    ((parse_blocks layouts file (used ∷ [])).0 ≡ file_metrics layouts file)
    × ((parse_blocks layouts file (used ∷ [])).1 ≡ file_error layouts file)
parse_blocks-file_example = parse_blocks-file layouts file (used ∷ [])

abbrev tally : BlockMetrics → ℕ → ℕ × Bool
tally m n = (n + m.total_operations, true)
