-- ===== src/Replica/Count/Exact.antt =====
-- When `countJSONArrayElements` of internal/replica/parser.go is exact.
use hyperliquid_exporter.Replica.Count.{count_json_array_elements}
use hyperliquid_exporter.Replica.Count.Printed.{count_json_array_elements-print}
use hyperliquid_exporter.Replica.Json.{
  Json, literal, string, array, object, Items, nil, cons, print, AreSpelled, items_length, leaves,
  item_leaves,
}
use hyperliquid_exporter.Base.{◌≤◌, ◌≡◌, refl, ◌↔◌, arith}

-- Every element counts once: it is no object, or an object that holds one such value or nothing.
abbrev pub AreSingle : Items → Type 0
AreSingle nil = Unit
AreSingle (cons x xs) = (leaves x ≡ 1) × AreSingle xs

leaves_pos : (v : Json) → 1 ≤ leaves v
unfolding leaves
leaves_pos (literal t) = omega arith
leaves_pos (string s) = omega arith
leaves_pos (array xs) = omega arith
leaves_pos (object fs) = omega arith

items_length-le : (xs : Items) → items_length xs ≤ item_leaves xs
unfolding items_length leaves
items_length-le nil = omega arith
items_length-le (cons x xs) = omega (arith, leaves_pos x, items_length-le xs)

AreSingle-leaves : (xs : Items) → AreSingle xs → item_leaves xs ≡ items_length xs
unfolding items_length leaves
AreSingle-leaves nil h = refl
AreSingle-leaves (cons x xs) h = omega (arith, AreSingle-leaves xs h.1)

leaves-AreSingle : (xs : Items) → item_leaves xs ≡ items_length xs → AreSingle xs
unfolding items_length leaves
leaves-AreSingle nil h = tt
leaves-AreSingle (cons x xs) h = (
  omega (arith, leaves_pos x, items_length-le xs),
  leaves-AreSingle xs (omega (arith, leaves_pos x, items_length-le xs)),
)

-- On a printed array with an element the count is the number of elements exactly when every
-- element counts once, and it is never less.
pub count_exact_iff :
    (x : Json) (xs : Items)
    → AreSpelled (cons x xs)
    → (items_length (cons x xs) ≤ count_json_array_elements (print (array (cons x xs))))
      × ((count_json_array_elements (print (array (cons x xs))) ≡ items_length (cons x xs))
          ↔ AreSingle (cons x xs))
unfolding items_length leaves
count_exact_iff x xs h =
    let counted = count_json_array_elements-print (cons x xs) h in
    (
      omega (arith, counted, items_length-le (cons x xs), leaves_pos x),
      (
        (λ e. leaves-AreSingle (cons x xs) (omega (arith, counted, leaves_pos x))),
        (λ s. omega (arith, counted, AreSingle-leaves (cons x xs) s, leaves_pos x)),
      ),
    )
