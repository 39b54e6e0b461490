-- ===== src/Gauges/Tests.antt =====
-- Values of the gauges, and the theorems at such inputs.
use mathlib.Core.List.{lookup}
use hyperliquid_exporter.Base.Dict.{insert, delete, Distinct}
use hyperliquid_exporter.Base.Int.{pos}
use hyperliquid_exporter.Consensus.{
  ConsensusMonitor, new_consensus_monitor, lower_byte, to_lower, has_prefix_0x,
}
use hyperliquid_exporter.Consensus.Status.{
  process_disconnected_validators, new_disconnected, removals, additions, split_underscore,
}
use hyperliquid_exporter.Consensus.Status
use hyperliquid_exporter.Consensus.Connectivity.{listed, no_underscore, same_pair}
use hyperliquid_exporter.Gauges.Connectivity.{
  carry_out, carry_out_all, process_disconnected_validators-series,
}
use hyperliquid_exporter.Gauges.{
  LabeledValue, Gauges, float, Directory, label_value, labels_of_signer, get_validator_labels,
  validator_of, name_of, pair_key, pair_labels, set_labeled, connectivity_gauge, ema_gauge,
  set_validator_connectivity, remove_validator_connectivity, rebuild, replace_validator_latency_ema,
  keep_labels, cleanup_labels, cleanup_labeled_values, set_by_block_type, set_evm_gas_usage,
  set_current, is_positive,
}
use hyperliquid_exporter.Gauges.Series.{shown, remove_validator_connectivity-set_iff}
use hyperliquid_exporter.Gauges.Snapshot.{last_for, shown-replace_validator_latency_ema}
use hyperliquid_exporter.Gauges.Cleanup.{first_of, cleanup_labeled_values-take}
use hyperliquid_exporter.Base.{
  ℕ, true, false, has, zero, suc, ap, take, arith, ◌≤◌, ◌≡◌, refl, ◌↔◌, none, some, List, [], ◌∷◌,
  Bytes, codes, bytes_discrete, length, ℕ_discrete,
}

program : Unit {0}
unfolding lookup insert delete lower_byte to_lower has_prefix_0x label_value labels_of_signer
    get_validator_labels validator_of name_of pair_key pair_labels set_labeled
    set_validator_connectivity remove_validator_connectivity rebuild replace_validator_latency_ema
    keep_labels cleanup_labels cleanup_labeled_values set_by_block_type set_evm_gas_usage
    set_current is_positive shown last_for first_of new_consensus_monitor
    process_disconnected_validators new_disconnected removals additions split_underscore
    Status.pair_key listed no_underscore same_pair carry_out carry_out_all has bytes_discrete
    ℕ_discrete
program = tt

-- A directory that knows no signer, and one in which a signer has been registered since.
abbrev empty : Directory
empty = record {
  expand_address = λ a. a;
  get_validator_for_signer = λ s. none;
  get_validator_info = λ v. none;
}

abbrev known : Directory
known = record empty { get_validator_for_signer = λ s. some (codes "0xv") }

abbrev gauges : Gauges ℕ
gauges = record { current_values = []; labeled_values = [] }

abbrev a : Bytes
a = codes "0xa"

abbrev b : Bytes
b = codes "0xb"

-- The series of a disconnected pair stays when a signer is registered before the pair recovers.
stale :
    shown connectivity_gauge
      (pair_key a b)
      (remove_validator_connectivity known a b (set_validator_connectivity empty a b 0 gauges))
    ≡ some (record { value = 0; labels = pair_labels empty a b })
unfolding program
stale = refl

-- No utilisation is set for a limit that is not positive.
no_utilisation :
    (set_evm_gas_usage (λ i. 1) (λ i j. 2) (pos 5) (pos 0) none gauges).current_values
    ≡ (codes "HLEVMGasUsedGauge", float 1) ∷ (codes "HLEVMGasLimitGauge", float 1) ∷ []
unfolding program
no_utilisation = refl

remove_validator_connectivity-set_iff_example :
    (shown connectivity_gauge
        (pair_key a b)
        (remove_validator_connectivity empty a b (set_validator_connectivity empty a b 0 gauges))
      ≡ none)
    ↔ (pair_key a b ≡ pair_key a b)
unfolding program
remove_validator_connectivity-set_iff_example =
    remove_validator_connectivity-set_iff empty empty a b 0 gauges

shown-replace_validator_latency_ema_example :
    shown ema_gauge b (replace_validator_latency_ema empty ((a, 4) ∷ []) gauges) ≡ none
unfolding program
shown-replace_validator_latency_ema_example =
    shown-replace_validator_latency_ema empty ((a, 4) ∷ []) gauges ema_gauge b

ones : ℕ → Bytes
ones zero = []
ones (suc n) = 1 ∷ ones n

ones-length : (n : ℕ) → length (ones n) ≡ n
unfolding ones
ones-length zero = refl
ones-length (suc n) = ap suc (ones-length n)

-- Entries under keys of growing length.
many : ℕ → List (Bytes × LabeledValue ℕ)
many zero = []
many (suc n) = (ones n, record { value = n; labels = [] }) ∷ many n

many-lookup : (k n : ℕ) → n ≤ k → lookup bytes_discrete (ones k) (many n) ≡ none
unfolding many lookup
many-lookup k zero le = refl
many-lookup k (suc n) le = elim (bytes_discrete (ones k) (ones n)) [
  | yes e ↦ absurd (omega (arith, le, ones-length k, ones-length n, ap length e))
  | no e ↦ ground (arith, e, many-lookup k n (omega (arith, le)))
]

many-Distinct : (n : ℕ) → Distinct bytes_discrete (many n)
unfolding many
many-Distinct zero = tt
many-Distinct (suc n) = (many-lookup n n (omega arith), many-Distinct n)

abbrev over_full : Gauges ℕ
over_full = record {
  current_values = [];
  labeled_values =
      (codes "full", many 101) ∷ (ema_gauge, (a, record { value = 4; labels = [] }) ∷ []) ∷ [];
}

cleanup_labeled_values-take_example : cleanup_labeled_values over_full ≡ record over_full {
  labeled_values =
      (codes "full", take 100 (many 101))
      ∷ (ema_gauge, (a, record { value = 4; labels = [] }) ∷ [])
      ∷ [];
}
unfolding program take
cleanup_labeled_values-take_example =
    cleanup_labeled_values-take over_full (many-Distinct 101, ((refl, tt), tt))

-- The pair `a`, `b` was disconnected before; the line lists the pair `b`, `a`.
abbrev monitor : ConsensusMonitor
monitor = record new_consensus_monitor { disconnected_set = (Status.pair_key a b, true) ∷ [] }

process_disconnected_validators-series_example :
    (has (
        shown connectivity_gauge (pair_key a b) (
          carry_out_all
            (λ n. n)
            empty
            (process_disconnected_validators (some ((b, a) ∷ [])) monitor).1
            (set_validator_connectivity empty a b 0 gauges)))
      ≡ false)
    × (has (
          lookup bytes_discrete
            (Status.pair_key a b)
            (process_disconnected_validators (some ((b, a) ∷ [])) monitor).0.disconnected_set)
        ≡ false)
unfolding program
process_disconnected_validators-series_example =
    process_disconnected_validators-series (λ n. n) empty a b (some ((b, a) ∷ [])) monitor
      (set_validator_connectivity empty a b 0 gauges) refl refl
      (λ e. (refl, refl), (λ e. ground (arith, e), tt)) refl
