-- ===== src/Gauges/Snapshot.antt =====
-- `ReplaceValidatorLatencyEMA` of internal/metrics/setters.go.
use mathlib.Core.List.{lookup}
use hyperliquid_exporter.Base.Dict.{insert, lookup-insert}
use hyperliquid_exporter.Gauges.{
  LabeledValue, Gauges, Directory, validator_of, get_validator_labels, ema_gauge, rebuild,
  replace_validator_latency_ema,
}
use hyperliquid_exporter.Gauges.Series.{shown}
use hyperliquid_exporter.Base.{
  ◌≡◌, refl, inl, inr, Option, none, some, List, [], ◌∷◌, arith, Option-cases, Bytes,
  bytes_discrete, ite,
}

module _ {F : Type 0} where
  -- The value of the last entry of a snapshot that is for the address.
  unfoldable pub last_for : Directory → Bytes → List (Bytes × F) → Option (LabeledValue F)
  last_for d key [] = none
  last_for d key ((validator, ema) ∷ emas) =
      let rest = last_for d key emas in
      elim rest [
        | some v ↦ some v
        | none ↦
            ite (bytes_discrete (validator_of d validator) key)
              (some (record { value = ema; labels = get_validator_labels d validator })) none
      ]

  abbrev pub or_else : Option (LabeledValue F) → Option (LabeledValue F) → Option (LabeledValue F)
  or_else none other = other
  or_else (some v) other = some v

  lookup-rebuild :
      (d : Directory) (key : Bytes) (emas : List (Bytes × F))
      (rebuilt : List (Bytes × LabeledValue F))
      → lookup bytes_discrete key (rebuild d emas rebuilt)
        ≡ or_else (last_for d key emas) (lookup bytes_discrete key rebuilt)
  unfolding rebuild last_for
  lookup-rebuild d key [] rebuilt = refl
  lookup-rebuild d key ((validator, ema) ∷ emas) rebuilt =
      let v : LabeledValue F = record { value = ema; labels = get_validator_labels d validator } in
      let written = lookup-insert bytes_discrete key (validator_of d validator) v rebuilt in
      let rest =
        lookup-rebuild d key emas (insert bytes_discrete (validator_of d validator) v rebuilt) in
      elim (Option-cases (last_for d key emas)) [
        | inl missing ↦ ground (arith, missing, written, rest)
        | inr (w, found) ↦ ground (arith, found, written, rest)
      ]

  or_else-none : (o : Option (LabeledValue F)) → or_else o none ≡ o
  or_else-none none = refl
  or_else-none (some v) = refl

  -- After a snapshot the gauge of the latency averages reports, for every validator address, what
  -- the snapshot has for it under the labels of the moment, and nothing for an address that the
  -- snapshot leaves out, whatever was reported before; every other gauge reports what it did.
  pub shown-replace_validator_latency_ema :
      (d : Directory) (emas : List (Bytes × F)) (g : Gauges F) (gauge key : Bytes)
      → shown gauge key (replace_validator_latency_ema d emas g)
        ≡ ite (bytes_discrete ema_gauge gauge) (last_for d key emas) (shown gauge key g)
  unfolding shown replace_validator_latency_ema lookup
  shown-replace_validator_latency_ema d emas g gauge key = elim (bytes_discrete ema_gauge gauge) [
    | yes same ↦ ground (
      arith,
      same,
      lookup-insert bytes_discrete gauge ema_gauge (rebuild d emas []) g.labeled_values,
      lookup-rebuild d key emas [],
      or_else-none (last_for d key emas),
    )
    | no other ↦ ground (
      arith,
      other,
      lookup-insert bytes_discrete gauge ema_gauge (rebuild d emas []) g.labeled_values,
    )
  ]
