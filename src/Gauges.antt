-- ===== src/Gauges.antt =====
-- internal/metrics/setters.go and types.go: the values that the observable gauges report, the
-- labels of a validator, and the clean-up of labelled values. `F` is the type of float64, with the
-- conversion of an int64 and the quotient of two. A gauge is named by its Go variable. Each setter
-- holds the mutex while it changes the maps. What the address cache, the signer map and the cache
-- of validator infos answer at the time of a call is a `Directory`. Counters and histograms, which
-- are handed to OpenTelemetry, are left out.
pub mod Series
pub mod Snapshot
pub mod Connectivity
pub mod Cleanup
mod Tests
use mathlib.Core.List.{lookup}
use hyperliquid_exporter.Base.Dict.{insert, delete}
use hyperliquid_exporter.Consensus.{to_lower, has_prefix_0x}
use hyperliquid_exporter.Base.Int.{ℤ, pos, negsuc}
use hyperliquid_exporter.Base.{
  ℕ, zero, suc, ◌+◌, ◌-◌, ◌*◌, ◌%◌, ◌^◌, ◌/◌, ◌≤◌, ◌<◌, ◌≡◌, refl, sym, ap, ◌∙◌, fun_ext, ◌≢◌, ◌↔◌,
  ◌⊎◌, inl, inr, Bool, true, false, not, ◌&&◌, ◌||◌, Option, none, some, List, [], ◌∷◌, ◌++◌, map,
  take, drop, arith, ltb, leb, ◌==◌, if◌then◌else◌, ==_iff, Bool-cases, Option-cases, Bytes, codes,
  bytes_discrete, length, All, has, List-cases, keep, ite, dec_lt, dec_le, ℕ_discrete, if_pos,
  if_neg,
}

abbrev pub Labels : Type 0
Labels = List (Bytes × Bytes)

pub record LabeledValue (F : Type 0) : Type 0 where
  pub value : F
  pub labels : Labels

-- A value of `currentValues`, an interface of one of the two types.
pub data Number (F : Type 0) : Type 0 where
  float : F → Number F
  int : ℤ → Number F

pub record Gauges (F : Type 0) : Type 0 where
  pub current_values : List (Bytes × Number F)
  pub labeled_values : List (Bytes × List (Bytes × LabeledValue F))

pub record Directory : Type 0 where
  pub expand_address : Bytes → Bytes
  pub get_validator_for_signer : Bytes → Option Bytes
  pub get_validator_info : Bytes → Option (Bytes × Bytes)

abbrev pub validator_labels : Bytes → Bytes → Bytes → Labels
validator_labels validator signer name =
    (codes "validator", validator) ∷ (codes "signer", signer) ∷ (codes "name", name) ∷ []

-- The loop over the labels, up to the first with the key.
unfoldable pub label_value : Bytes → Labels → Bytes
label_value key [] = []
label_value key ((k, v) ∷ labels) =
    let rest = label_value key labels in ite (bytes_discrete k key) v rest

unfoldable pub labels_of_signer : Directory → Bytes → Labels
labels_of_signer d address = elim (d.get_validator_for_signer (to_lower address)) [
  | none ↦ validator_labels address address (codes "unknown")
  | some validator ↦ elim (d.get_validator_info validator) [
    | none ↦ validator_labels validator address (codes "unknown")
    | some (signer, name) ↦ validator_labels validator signer name
  ]
]

unfoldable pub get_validator_labels : Directory → Bytes → Labels
get_validator_labels d input =
    let address = d.expand_address input in
    if has_prefix_0x (to_lower address)
    then labels_of_signer d address
    else elim (d.get_validator_info address) [
      | none ↦ validator_labels address address (codes "unknown")
      | some (signer, name) ↦ validator_labels address signer name
    ]

-- The validator address that keys the series of a validator.
unfoldable pub validator_of : Directory → Bytes → Bytes
validator_of d input = label_value (codes "validator") (get_validator_labels d input)

unfoldable pub name_of : Directory → Bytes → Bytes
name_of d input = label_value (codes "name") (get_validator_labels d input)

unfoldable pub pair_labels : Directory → Bytes → Bytes → Labels
pair_labels d validator peer =
    (codes "validator", validator_of d validator)
    ∷ (codes "peer", validator_of d peer)
    ∷ (codes "validator_name", name_of d validator)
    ∷ (codes "peer_name", name_of d peer)
    ∷ []

abbrev pub series_of :
    {F : Type 0} → Option (List (Bytes × LabeledValue F)) → List (Bytes × LabeledValue F)
series_of none = []
series_of (some series) = series

abbrev pub ema_gauge : Bytes
ema_gauge = codes "HLConsensusValidatorLatencyEMAGauge"

abbrev pub connectivity_gauge : Bytes
connectivity_gauge = codes "HLConsensusConnectivityGauge"

abbrev pub max_labels_per_metric : ℕ
max_labels_per_metric = 100

-- `validatorAddr + "_" + peerAddr`
unfoldable pub pair_key : Bytes → Bytes → Bytes
pair_key a b = a ++ codes "_" ++ b

unfoldable pub is_positive : ℤ → Bool
is_positive (pos n) = ltb 0 n
is_positive (negsuc n) = false

module _ {F : Type 0} where
  -- A write of a labelled value, into a new map if the gauge has none.
  unfoldable pub set_labeled : Bytes → Bytes → F → Labels → Gauges F → Gauges F
  set_labeled gauge key value labels g =
      let series = series_of (lookup bytes_discrete gauge g.labeled_values) in
      let v : LabeledValue F = record { value = value; labels = labels } in
      record g {
        labeled_values =
            insert bytes_discrete gauge (insert bytes_discrete key v series) g.labeled_values;
      }

  unfoldable pub set_current : Bytes → Number F → Gauges F → Gauges F
  set_current gauge n g = record g {
    current_values = insert bytes_discrete gauge n g.current_values;
  }

  unfoldable pub set_block_height : ℤ → Gauges F → Gauges F
  set_block_height height g = set_current (codes "HLCoreBlockHeightGauge") (int height) g

  unfoldable pub set_latest_block_time : ℤ → Gauges F → Gauges F
  set_latest_block_time timestamp g =
      set_current (codes "HLCoreLatestBlockTimeGauge") (int timestamp) g

  unfoldable pub set_total_stake : F → Gauges F → Gauges F
  set_total_stake stake g = set_current (codes "HLConsensusTotalStakeGauge") (float stake) g

  unfoldable pub set_current_consensus_round : ℤ → Gauges F → Gauges F
  set_current_consensus_round round g =
      set_current (codes "HLConsensusCurrentRoundGauge") (int round) g

  unfoldable pub set_last_high_gas_block : ℤ → ℤ → ℤ → ℤ → Gauges F → Gauges F
  set_last_high_gas_block height limit used timestamp g =
      set_current (codes "HLEVMLastHighGasBlockTime") (int timestamp) (
        set_current (codes "HLEVMLastHighGasBlockUsed") (int used) (
          set_current (codes "HLEVMLastHighGasBlockLimit") (int limit)
            (set_current (codes "HLEVMLastHighGasBlockHeight") (int height) g)))

  unfoldable pub set_validator_stake : Bytes → Bytes → Bytes → F → Gauges F → Gauges F
  set_validator_stake address signer moniker stake g =
      set_labeled (codes "HLConsensusValidatorStakeGauge") address stake
        (validator_labels address signer moniker) g

  unfoldable pub set_software_version : F → Bytes → Bytes → Gauges F → Gauges F
  set_software_version one commit date g =
      set_labeled (codes "HLSoftwareVersionInfo") (codes "current") one
        ((codes "date", date) ∷ (codes "commit", commit) ∷ []) g

  unfoldable pub set_validator_jailed_status :
      Labels → Bytes → Bytes → Bytes → F → Gauges F → Gauges F
  set_validator_jailed_status common validator signer name status g =
      set_labeled (codes "HLConsensusValidatorJailedStatus") validator status
        (validator_labels validator signer name ++ common) g

  unfoldable pub set_validator_active_status :
      Labels → Bytes → Bytes → Bytes → F → Gauges F → Gauges F
  set_validator_active_status common validator signer name status g =
      set_labeled (codes "HLConsensusValidatorActiveStatus") validator status
        (validator_labels validator signer name ++ common) g

  unfoldable pub set_validator_rtt : Labels → Bytes → Bytes → Bytes → F → Gauges F → Gauges F
  set_validator_rtt common validator moniker ip latency g =
      set_labeled (codes "HLConsensusValidatorRTTGauge") validator latency
        (((codes "validator", validator) ∷ (codes "moniker", moniker) ∷ (codes "ip", ip) ∷ [])
          ++ common)
        g

  unfoldable pub set_consensus_monitor_last_processed : Bytes → F → Gauges F → Gauges F
  set_consensus_monitor_last_processed monitor_type timestamp g =
      set_labeled (codes "HLConsensusMonitorLastProcessedGauge") monitor_type timestamp
        ((codes "monitor_type", monitor_type) ∷ []) g

  unfoldable pub set_p2p_non_val_peer_connections : Bool → F → Gauges F → Gauges F
  set_p2p_non_val_peer_connections verified count g =
      let verified_str = if verified then codes "true" else codes "false" in
      set_labeled (codes "HLP2PNonValPeerConnectionsGauge") verified_str count
        ((codes "verified", verified_str) ∷ []) g

  unfoldable pub set_p2p_non_val_peers_total : F → Gauges F → Gauges F
  set_p2p_non_val_peers_total total g =
      set_labeled (codes "HLP2PNonValPeersTotalGauge") (codes "total") total [] g

  -- The optional block type decides between the plain gauge and a labelled one.
  unfoldable pub set_by_block_type : Bytes → F → Option Bytes → Gauges F → Gauges F
  set_by_block_type gauge value none g = set_current gauge (float value) g
  set_by_block_type gauge value (some bt) g =
      set_labeled gauge bt value ((codes "block_type", bt) ∷ []) g

  unfoldable pub set_evm_base_fee_gwei : F → Option Bytes → Gauges F → Gauges F
  set_evm_base_fee_gwei fee block_type g =
      set_by_block_type (codes "HLEVMBaseFeeGauge") fee block_type g

  unfoldable pub set_evm_max_priority_fee_gwei : F → Option Bytes → Gauges F → Gauges F
  set_evm_max_priority_fee_gwei fee block_type g =
      set_by_block_type (codes "HLEVMMaxPriorityFeeGauge") fee block_type g

  -- The utilisation is set only for a positive limit.
  unfoldable pub set_evm_gas_usage :
      (ℤ → F) → (ℤ → ℤ → F) → ℤ → ℤ → Option Bytes → Gauges F → Gauges F
  set_evm_gas_usage to_float quotient gas_used gas_limit block_type g =
      let both =
        set_by_block_type (codes "HLEVMGasLimitGauge") (to_float gas_limit) block_type
          (set_by_block_type (codes "HLEVMGasUsedGauge") (to_float gas_used) block_type g) in
      if is_positive gas_limit
      then set_by_block_type (codes "HLEVMSGasUtilGauge") (quotient gas_used gas_limit) block_type
          both
      else both

module _ {F : Type 0} where
  -- A setter of one series per validator, which is looked up in the directory first.
  unfoldable pub set_for_validator : Bytes → Directory → Bytes → F → Gauges F → Gauges F
  set_for_validator gauge d validator value g =
      set_labeled gauge (validator_of d validator) value (get_validator_labels d validator) g

  unfoldable pub set_validator_last_vote_round : Directory → Bytes → F → Gauges F → Gauges F
  set_validator_last_vote_round d v round g =
      set_for_validator (codes "HLConsensusVoteRoundGauge") d v round g

  unfoldable pub set_validator_vote_time_diff : Directory → Bytes → F → Gauges F → Gauges F
  set_validator_vote_time_diff d v seconds g =
      set_for_validator (codes "HLConsensusVoteTimeDiffGauge") d v seconds g

  unfoldable pub set_qc_participation_rate : Directory → Bytes → F → Gauges F → Gauges F
  set_qc_participation_rate d v rate g =
      set_for_validator (codes "HLConsensusQCParticipationGauge") d v rate g

  unfoldable pub set_validator_latency : Directory → Bytes → F → Gauges F → Gauges F
  set_validator_latency d v latency g =
      set_for_validator (codes "HLConsensusValidatorLatencyGauge") d v latency g

  unfoldable pub set_validator_latency_round : Directory → Bytes → F → Gauges F → Gauges F
  set_validator_latency_round d v round g =
      set_for_validator (codes "HLConsensusValidatorLatencyRoundGauge") d v round g

  unfoldable pub set_validator_latency_ema : Directory → Bytes → F → Gauges F → Gauges F
  set_validator_latency_ema d v ema g = set_for_validator ema_gauge d v ema g

  -- The loop of `ReplaceValidatorLatencyEMA`, over the map in the order of a `range`.
  unfoldable pub rebuild :
      Directory → List (Bytes × F) → List (Bytes × LabeledValue F) → List (Bytes × LabeledValue F)
  rebuild d [] rebuilt = rebuilt
  rebuild d ((validator, ema) ∷ emas) rebuilt =
      let v : LabeledValue F = record { value = ema; labels = get_validator_labels d validator } in
      rebuild d emas (insert bytes_discrete (validator_of d validator) v rebuilt)

  unfoldable pub replace_validator_latency_ema : Directory → List (Bytes × F) → Gauges F → Gauges F
  replace_validator_latency_ema d emas g = record g {
    labeled_values = insert bytes_discrete ema_gauge (rebuild d emas []) g.labeled_values;
  }

  unfoldable pub set_validator_connectivity : Directory → Bytes → Bytes → F → Gauges F → Gauges F
  set_validator_connectivity d validator peer connected g =
      set_labeled connectivity_gauge (pair_key (validator_of d validator) (validator_of d peer))
        connected (pair_labels d validator peer) g

  unfoldable pub remove_validator_connectivity : Directory → Bytes → Bytes → Gauges F → Gauges F
  remove_validator_connectivity d validator peer g =
      elim (lookup bytes_discrete connectivity_gauge g.labeled_values) [
        | none ↦ g
        | some series ↦
            let key = pair_key (validator_of d validator) (validator_of d peer) in
            record g {
              labeled_values =
                  insert bytes_discrete connectivity_gauge (delete bytes_discrete key series)
                    g.labeled_values;
            }
      ]

  unfoldable pub set_validator_heartbeat_status :
      Directory → Bytes → Bytes → F → Gauges F → Gauges F
  set_validator_heartbeat_status d validator status_type value g =
      set_labeled (codes "HLConsensusHeartbeatStatusGauge")
        (pair_key (validator_of d validator) status_type) value
        (get_validator_labels d validator ++ (codes "status_type", status_type) ∷ []) g

module _ {F : Type 0} where
  -- The inner loop of `cleanupLabeledValues`, over the map in the order of a `range`.
  unfoldable pub keep_labels :
      ℕ
      → List (Bytes × LabeledValue F)
      → List (Bytes × LabeledValue F)
      → List (Bytes × LabeledValue F)
  keep_labels count [] new_labels = new_labels
  keep_labels count ((k, v) ∷ labels) new_labels =
      if ltb count max_labels_per_metric
      then keep_labels (count + 1) labels (insert bytes_discrete k v new_labels)
      else keep_labels count labels new_labels

  unfoldable pub cleanup_labels : List (Bytes × LabeledValue F) → List (Bytes × LabeledValue F)
  cleanup_labels labels =
      if ltb max_labels_per_metric (length labels) then keep_labels 0 labels [] else labels

  unfoldable pub cleanup_labeled_values : Gauges F → Gauges F
  cleanup_labeled_values g = record g {
    labeled_values = map (λ (metric, labels). (metric, cleanup_labels labels)) g.labeled_values;
  }
