-- ===== src/Gauges/Series.antt =====
-- The series of the labelled gauges of internal/metrics/setters.go: what a setter writes and what
-- `RemoveValidatorConnectivity` removes.
use mathlib.Core.List.{lookup}
use hyperliquid_exporter.Base.Dict.{insert, delete, lookup-insert, lookup-delete}
use hyperliquid_exporter.Gauges.{
  LabeledValue, Gauges, Labels, Directory, validator_of, series_of, set_labeled, connectivity_gauge,
  pair_key, pair_labels, set_validator_connectivity, remove_validator_connectivity,
}
use hyperliquid_exporter.Base.{
  ◌≡◌, refl, ◌≢◌, ◌↔◌, inl, inr, Option, none, some, [], ◌∷◌, arith, Option-cases, Bytes,
  bytes_discrete, All, ite,
}

module _ {F : Type 0} where
  -- The value that a gauge reports for a key.
  unfoldable pub shown : Bytes → Bytes → Gauges F → Option (LabeledValue F)
  shown gauge key g =
      lookup bytes_discrete key (series_of (lookup bytes_discrete gauge g.labeled_values))

  -- A write of a labelled value changes its own series only.
  pub shown-set_labeled :
      (gauge key other_gauge other_key : Bytes) (value : F) (labels : Labels) (g : Gauges F)
      → shown gauge key (set_labeled other_gauge other_key value labels g)
        ≡ ite
            (bytes_discrete other_gauge gauge)
            (ite
              (bytes_discrete other_key key)
              (some (record { value = value; labels = labels }))
              (shown gauge key g))
            (shown gauge key g)
  unfolding shown set_labeled
  shown-set_labeled gauge key other_gauge other_key value labels g =
      let v : LabeledValue F = record { value = value; labels = labels } in
      let series = series_of (lookup bytes_discrete other_gauge g.labeled_values) in
      ground (
        arith,
        lookup-insert bytes_discrete gauge other_gauge (insert bytes_discrete other_key v series)
            g.labeled_values,
        lookup-insert bytes_discrete key other_key v series,
      )

  pub shown-remove :
      (key : Bytes) (d : Directory) (validator peer : Bytes) (g : Gauges F)
      → shown connectivity_gauge key (remove_validator_connectivity d validator peer g)
        ≡ ite
            (bytes_discrete (pair_key (validator_of d validator) (validator_of d peer)) key)
            none
            (shown connectivity_gauge key g)
  unfolding shown remove_validator_connectivity lookup
  shown-remove key d validator peer g =
      let k = pair_key (validator_of d validator) (validator_of d peer) in
      elim (Option-cases (lookup bytes_discrete connectivity_gauge g.labeled_values)) [
        | inl absent ↦ ground (arith, absent)
        | inr (series, found) ↦ ground (
          arith,
          found,
          lookup-insert bytes_discrete connectivity_gauge connectivity_gauge
              (delete bytes_discrete k series) g.labeled_values,
          lookup-delete bytes_discrete key k series,
        )
      ]

  shown-written :
      (gauge key : Bytes) (value : F) (labels : Labels) (g : Gauges F)
      → shown gauge key (set_labeled gauge key value labels g)
        ≡ some (record { value = value; labels = labels })
  shown-written gauge key value labels g =
      ground (arith, shown-set_labeled gauge key gauge key value labels g)

  ite-none_iff : {P : Type 0} (d : Dec P) (v : LabeledValue F) → (ite d none (some v) ≡ none) ↔ P
  ite-none_iff (yes p) v = (λ h. p, λ q. refl)
  ite-none_iff (no o) v = (λ h. ground (arith, h), λ q. ground (arith, o q))

  -- A pair is written under the labels of one moment and removed under those of another: the series
  -- that was written is gone after the removal exactly if both moments give the pair the same key.
  pub remove_validator_connectivity-set_iff :
      (d later : Directory) (validator peer : Bytes) (connected : F) (g : Gauges F)
      → (shown connectivity_gauge (pair_key (validator_of d validator) (validator_of d peer)) (
            remove_validator_connectivity later validator peer
              (set_validator_connectivity d validator peer connected g))
          ≡ none)
        ↔ (pair_key (validator_of later validator) (validator_of later peer)
            ≡ pair_key (validator_of d validator) (validator_of d peer))
  unfolding set_validator_connectivity
  remove_validator_connectivity-set_iff d later validator peer connected g =
      let k = pair_key (validator_of d validator) (validator_of d peer) in
      let labels = pair_labels d validator peer in
      let value =
        shown-remove k later validator peer (set_labeled connectivity_gauge k connected labels g) in
      rw (value, shown-written connectivity_gauge k connected labels g)
        (ite-none_iff
          (bytes_discrete (pair_key (validator_of later validator) (validator_of later peer)) k)
          (record { value = connected; labels = labels }))

abbrev pub NoUnderscore : Bytes → Type 0
NoUnderscore bs = All (λ b. b ≢ b'_') bs

pair_key-injective :
    (a b c e : Bytes)
    → NoUnderscore a
    → NoUnderscore c
    → pair_key a b ≡ pair_key c e
    → (a ≡ c) × (b ≡ e)
unfolding pair_key
pair_key-injective [] b [] e na nc h = ground (arith, h)
pair_key-injective [] b (y ∷ c) e na nc h = ground (arith, h, nc.0)
pair_key-injective (x ∷ a) b [] e na nc h = ground (arith, h, na.0)
pair_key-injective (x ∷ a) b (y ∷ c) e na nc h =
    ground (arith, h, pair_key-injective a b c e na.1 nc.1)

module _ {F : Type 0} where
  -- Two pairs whose validators have no underscore in their addresses have series of their own: to
  -- write one of them leaves the other as it was, unless both addresses are the same.
  pub set_validator_connectivity-others :
      (d : Directory) (validator peer a b : Bytes) (connected : F) (g : Gauges F)
      → NoUnderscore (validator_of d validator)
      → NoUnderscore a
      → ((validator_of d validator ≡ a) × (validator_of d peer ≡ b) → ⊥)
      → shown connectivity_gauge
          (pair_key a b)
          (set_validator_connectivity d validator peer connected g)
        ≡ shown connectivity_gauge (pair_key a b) g
  unfolding set_validator_connectivity
  set_validator_connectivity-others d validator peer a b connected g nv na differ =
      let k = pair_key (validator_of d validator) (validator_of d peer) in
      let other : k ≢ pair_key a b = λ same.
        differ
          (pair_key-injective (validator_of d validator) (validator_of d peer) a b nv na same) in
      ground (
        arith,
        other,
        shown-set_labeled connectivity_gauge (pair_key a b) connectivity_gauge k connected
            (pair_labels d validator peer) g,
      )
