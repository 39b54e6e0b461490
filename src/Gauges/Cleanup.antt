-- ===== src/Gauges/Cleanup.antt =====
-- `cleanupLabeledValues` of internal/metrics/types.go.
use mathlib.Core.List.{lookup, append_assoc, append-nil}
use hyperliquid_exporter.Base.Lists.{take_of_length-le}
use hyperliquid_exporter.Base.Dict.{insert, Distinct}
use hyperliquid_exporter.Gauges.{
  LabeledValue, Gauges, max_labels_per_metric, keep_labels, cleanup_labels, cleanup_labeled_values,
}
use hyperliquid_exporter.Base.{
  ℕ, zero, suc, ◌+◌, ◌≡◌, ◌≢◌, refl, sym, ap, ◌∙◌, inl, inr, true, none, List, [], ◌∷◌, ◌++◌, map,
  take, arith, ltb, Bool-cases, Bytes, bytes_discrete, length, All,
}

-- The first entries of a gauge.
unfoldable pub first_of :
    {F : Type 0} → ℕ → Bytes × List (Bytes × LabeledValue F) → Bytes × List (Bytes × LabeledValue F)
first_of n (metric, labels) = (metric, take n labels)

module _ {F : Type 0} where
  insert_absent :
      (k : Bytes) (v : LabeledValue F) (m : List (Bytes × LabeledValue F))
      → lookup bytes_discrete k m ≡ none
      → insert bytes_discrete k v m ≡ m ++ (k, v) ∷ []
  unfolding lookup insert
  insert_absent k v [] h = refl
  insert_absent k v ((j, w) ∷ m) h = ground (arith, h, insert_absent k v m)

  lookup_inside :
      (k : Bytes) (v : LabeledValue F) (a b : List (Bytes × LabeledValue F))
      → lookup bytes_discrete k (a ++ (k, v) ∷ b) ≢ none
  unfolding lookup
  lookup_inside k v [] b h = ground (arith, h)
  lookup_inside k v ((j, w) ∷ a) b h = ground (arith, h, lookup_inside k v a b)

  Distinct-lookup_before :
      (k : Bytes) (v : LabeledValue F) (a b : List (Bytes × LabeledValue F))
      → Distinct bytes_discrete (a ++ (k, v) ∷ b)
      → lookup bytes_discrete k a ≡ none
  unfolding lookup
  Distinct-lookup_before k v [] b d = refl
  Distinct-lookup_before k v ((j, w) ∷ a) b d = elim (bytes_discrete k j) [
    | yes e ↦
        absurd (
          lookup_inside j v a b (ap (λ i. lookup bytes_discrete j (a ++ (i, v) ∷ b)) (sym e) ∙ d.0))
    | no e ↦ ground (arith, e, Distinct-lookup_before k v a b d.1)
  ]

  keep_labels-full :
      (labels new_labels : List (Bytes × LabeledValue F))
      → keep_labels max_labels_per_metric labels new_labels ≡ new_labels
  unfolding keep_labels
  keep_labels-full [] new_labels = refl
  keep_labels-full ((k, v) ∷ labels) new_labels = keep_labels-full labels new_labels

  -- With room for some more entries, the loop adds the first so many.
  keep_labels-take :
      (count room : ℕ) (labels new_labels : List (Bytes × LabeledValue F))
      → count + room ≡ max_labels_per_metric
      → Distinct bytes_discrete (new_labels ++ labels)
      → keep_labels count labels new_labels ≡ new_labels ++ take room labels
  unfolding keep_labels take
  keep_labels-take count zero labels new_labels sum d =
      let full : count ≡ max_labels_per_metric = omega (arith, sum) in
      rw full (keep_labels-full labels new_labels ∙ sym (append-nil new_labels))
  keep_labels-take count (suc room) [] new_labels sum d = sym (append-nil new_labels)
  keep_labels-take count (suc room) ((k, v) ∷ labels) new_labels sum d =
      let open_yet : ltb count max_labels_per_metric ≡ true = ground (arith, sum) in
      let moved = append_assoc new_labels ((k, v) ∷ []) labels in
      rw
        (
          open_yet,
          insert_absent k v new_labels (Distinct-lookup_before k v new_labels labels d),
          keep_labels-take (count + 1) room labels (new_labels ++ (k, v) ∷ []) (omega (arith, sum))
              (rw (← moved) at d),
        )
        (append_assoc new_labels ((k, v) ∷ []) (take room labels))

  cleanup_labels-take :
      (labels : List (Bytes × LabeledValue F))
      → Distinct bytes_discrete labels
      → cleanup_labels labels ≡ take max_labels_per_metric labels
  unfolding cleanup_labels
  cleanup_labels-take labels d = elim (Bool-cases (ltb max_labels_per_metric (length labels))) [
    | inl over ↦ rw over (keep_labels-take 0 max_labels_per_metric labels [] refl d)
    | inr fits ↦
        rw fits (sym (take_of_length-le max_labels_per_metric labels (ground (arith, fits))))
  ]

  -- A clean-up of gauges in each of which no key occurs twice, as in a map, keeps of each gauge the
  -- first hundred entries, in the order in which the range visits them, or all entries if there are
  -- no more; it drops no gauge and changes no plain value.
  pub cleanup_labeled_values-take :
      (g : Gauges F)
      → All
          (λ (gauge : Bytes × List (Bytes × LabeledValue F)). Distinct bytes_discrete gauge.1)
          g.labeled_values
      → cleanup_labeled_values g ≡ record g { labeled_values = map (first_of 100) g.labeled_values }
  unfolding cleanup_labeled_values first_of
  cleanup_labeled_values-take g d =
      ap (λ l. record g { labeled_values = l }) (all_gauges g.labeled_values d)
    where
      all_gauges :
          (l : List (Bytes × List (Bytes × LabeledValue F)))
          → All
              (λ (gauge : Bytes × List (Bytes × LabeledValue F)). Distinct bytes_discrete gauge.1)
              l
          → map (λ (metric, labels). (metric, cleanup_labels labels)) l ≡ map (first_of 100) l
      all_gauges [] d = refl
      all_gauges ((metric, labels) ∷ l) d =
          rw (cleanup_labels-take labels d.0, all_gauges l d.1) refl
