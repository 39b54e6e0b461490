-- ===== src/Gauges/Connectivity.antt =====
-- The connectivity series under the status lines: the calls of `processDisconnectedValidatorsRaw`
-- of internal/monitors/consensus_monitor.go (module Consensus), carried out on the gauges of
-- internal/metrics/setters.go.
use mathlib.Core.List.{lookup}
use hyperliquid_exporter.Consensus.{ConsensusMonitor, Emission, connectivity, connectivity_removed}
use hyperliquid_exporter.Consensus.Status.{process_disconnected_validators}
use hyperliquid_exporter.Consensus.Status
use hyperliquid_exporter.Consensus.Connectivity.{
  same_pair, shown_after, listed, no_underscore, process_disconnected_validators-Shown,
}
use hyperliquid_exporter.Consensus.Connectivity
use hyperliquid_exporter.Gauges.{
  Gauges, Directory, validator_of, connectivity_gauge, pair_key, pair_labels,
  set_validator_connectivity, remove_validator_connectivity,
}
use hyperliquid_exporter.Gauges.Series.{shown, shown-set_labeled, shown-remove}
use hyperliquid_exporter.Base.{
  ℕ, ◌≡◌, refl, sym, ap, ◌∙◌, Bool, true, false, Option, none, some, List, [], ◌∷◌, arith,
  if◌then◌else◌, Bytes, bytes_discrete, All, has,
}

-- The key of the series of a pair.
abbrev pub series_key : Directory → Bytes → Bytes → Bytes
series_key d v p = pair_key (validator_of d v) (validator_of d p)

-- A call for a pair meets the series of the pair `v`, `p` only if it is for that pair.
abbrev pub OwnSeries : Directory → Bytes → Bytes → Emission → Type 0
OwnSeries d v p (connectivity w q n) = series_key d w q ≡ series_key d v p → (w ≡ v) × (q ≡ p)
OwnSeries d v p (connectivity_removed w q) = series_key d w q ≡ series_key d v p → (w ≡ v) × (q ≡ p)
OwnSeries d v p _ = Unit

module _ {F : Type 0} (of_nat : ℕ → F) (d : Directory) where
  -- What a call does to the gauges; those to other metrics are left out.
  unfoldable pub carry_out : Emission → Gauges F → Gauges F
  carry_out (connectivity w q n) g = set_validator_connectivity d w q (of_nat n) g
  carry_out (connectivity_removed w q) g = remove_validator_connectivity d w q g
  carry_out _ g = g

  unfoldable pub carry_out_all : List Emission → Gauges F → Gauges F
  carry_out_all [] g = g
  carry_out_all (e ∷ l) g = carry_out_all l (carry_out e g)

  module _ (v p : Bytes) where
    has_series : Gauges F → Bool
    has_series g = has (shown connectivity_gauge (series_key d v p) g)

    has-set :
        (w q : Bytes) (n : ℕ) (g : Gauges F)
        → OwnSeries d v p (connectivity w q n)
        → has_series (set_validator_connectivity d w q (of_nat n) g)
          ≡ (if same_pair v p w q then true else has_series g)
    unfolding has_series has same_pair set_validator_connectivity
    has-set w q n g own = ground (
      arith,
      own,
      shown-set_labeled connectivity_gauge (series_key d v p) connectivity_gauge (series_key d w q)
          (of_nat n) (pair_labels d w q) g,
      λ (e : v ≡ w) (h : p ≡ q). ap (λ i. series_key d i q) (sym e) ∙ ap (series_key d v) (sym h),
    )

    has-remove :
        (w q : Bytes) (g : Gauges F)
        → OwnSeries d v p (connectivity_removed w q)
        → has_series (remove_validator_connectivity d w q g)
          ≡ (if same_pair v p w q then false else has_series g)
    unfolding has_series has same_pair
    has-remove w q g own = ground (
      arith,
      own,
      shown-remove (series_key d v p) d w q g,
      λ (e : v ≡ w) (h : p ≡ q). ap (λ i. series_key d i q) (sym e) ∙ ap (series_key d v) (sym h),
    )

    has-carry_out :
        (e : Emission) (g : Gauges F)
        → OwnSeries d v p e
        → has_series (carry_out e g) ≡ Connectivity.shown v p (has_series g) e
    unfolding carry_out Connectivity.shown
    has-carry_out (connectivity w q n) g own = has-set w q n g own
    has-carry_out (connectivity_removed w q) g own = has-remove w q g own
    has-carry_out _ g own = refl

    has-carry_out_all :
        (l : List Emission) (g : Gauges F)
        → All (OwnSeries d v p) l
        → has_series (carry_out_all l g) ≡ shown_after v p (has_series g) l
    unfolding carry_out_all shown_after
    has-carry_out_all [] g own = refl
    has-carry_out_all (e ∷ l) g own =
        has-carry_out_all l (carry_out e g) own.1
        ∙ ap (λ b. shown_after v p b l) (has-carry_out e g own.0)

  -- What a status line says of a pair; a list that does not decode says what held before.
  abbrev pub said : Bytes → Bytes → Option (List (Bytes × Bytes)) → Bool → Bool
  said v p none before = before
  said v p (some pairs) before = listed v p pairs

  -- For two addresses without an underscore, under one directory by which no call of the line for
  -- another pair meets the series of this one: if the series of the pair is there exactly when the
  -- pair is in the set that the monitor keeps, then after the calls of a status line it is there
  -- exactly when the line lists the pair, or, if the list does not decode, when it was before; and
  -- the same holds of the set that is kept then.
  pub process_disconnected_validators-series :
      (v p : Bytes) (raw : Option (List (Bytes × Bytes))) (m : ConsensusMonitor) (g : Gauges F)
      → no_underscore v ≡ true
      → no_underscore p ≡ true
      → All (OwnSeries d v p) (process_disconnected_validators raw m).1
      → has (shown connectivity_gauge (series_key d v p) g)
        ≡ has (lookup bytes_discrete (Status.pair_key v p) m.disconnected_set)
      → (has (
            shown connectivity_gauge
              (series_key d v p)
              (carry_out_all (process_disconnected_validators raw m).1 g))
          ≡ said v p raw (has (shown connectivity_gauge (series_key d v p) g)))
        × (has (
              lookup bytes_discrete
                (Status.pair_key v p)
                (process_disconnected_validators raw m).0.disconnected_set)
            ≡ said v p raw (has (shown connectivity_gauge (series_key d v p) g)))
  unfolding process_disconnected_validators carry_out_all has_series
  process_disconnected_validators-series v p none m g hv hp own same = (refl, sym same)
  process_disconnected_validators-series v p (some pairs) m g hv hp own same =
      let calls = process_disconnected_validators-Shown v p pairs m hv hp in
      (
        has-carry_out_all v p (process_disconnected_validators (some pairs) m).1 g own
            ∙ ap (λ b. shown_after v p b (process_disconnected_validators (some pairs) m).1) same
            ∙ calls.0,
        calls.1,
      )
