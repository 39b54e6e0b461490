-- ===== src/Consensus/Blocks.antt =====
-- internal/monitors/consensus_monitor.go: `processBlockRaw` with the QC window, the
-- participation rates and the signer counts, and `trimStaleValidators`.
--
-- A rate is the pair of its numerator and its denominator, before the division in float64.
use mathlib.Core.List.{lookup}
use hyperliquid_exporter.Base.Dict.{insert, delete}
use hyperliquid_exporter.Base.Int.{ℤ, pos}
use hyperliquid_exporter.Consensus.{
  ConsensusMonitor, QcWindowEntry, Emission, rounds_per_block, current_consensus_round,
  qc_signature, qc_size, qc_participation_rate, tc_size, tc_participation, tc_block, qc_round_lag,
  is_empty, is_positive, int64_of, format_validator_address, get_validator_for_signer,
  nanoseconds_per_hour,
}
use hyperliquid_exporter.Base.{
  ℕ, ◌+◌, ◌-◌, ◌%◌, ◌&&◌, Option, none, some, List, [], ◌∷◌, ◌++◌, drop, ltb, if◌then◌else◌, Bytes,
  bytes_discrete, length,
}

-- `m[k]++`
unfoldable pub increment : Bytes → List (Bytes × ℕ) → List (Bytes × ℕ)
increment k m =
    insert bytes_discrete k (elim (lookup bytes_discrete k m) [ none ↦ 1 | some n ↦ n + 1 ]) m

unfoldable pub process_signer : ℕ → Bytes → ConsensusMonitor → ConsensusMonitor
process_signer now signer m = if is_empty signer then m else record m {
  qc_signatures = increment signer m.qc_signatures;
  qc_last_seen = insert bytes_discrete signer now m.qc_last_seen;
}

-- The loop over the signers of a QC.
unfoldable pub process_signers : ℕ → List Bytes → ConsensusMonitor → ConsensusMonitor
process_signers now [] m = m
process_signers now (signer ∷ signers) m = process_signers now signers (process_signer now signer m)

unfoldable pub signer_emissions : List Bytes → List Emission
signer_emissions [] = []
signer_emissions (signer ∷ signers) =
    (if is_empty signer then [] else qc_signature (format_validator_address signer) ∷ [])
    ++ signer_emissions signers

-- `for i < len(m.qcWindow) && m.qcWindow[i].timestamp.Before(cutoff)`
unfoldable pub drop_stale : ℕ → ℕ → List QcWindowEntry → List QcWindowEntry
drop_stale duration now [] = []
drop_stale duration now (e ∷ window) =
    let rest = drop_stale duration now window in
    if ltb (e.timestamp + duration) now then rest else e ∷ window

unfoldable pub trim_size : ℕ → List QcWindowEntry → List QcWindowEntry
trim_size size window =
    if ltb size (length window) then drop (length window - size) window else window

unfoldable pub add_qc_window_entry : ℕ → List Bytes → ConsensusMonitor → ConsensusMonitor
add_qc_window_entry now signers m = record m {
  qc_window =
      drop_stale m.window_duration now (
        trim_size m.window_size
          (m.qc_window ++ record { timestamp = now; signers = signers } ∷ []));
}

unfoldable pub count_signers : List Bytes → List (Bytes × ℕ) → List (Bytes × ℕ)
count_signers [] counts = counts
count_signers (signer ∷ signers) counts = count_signers signers (increment signer counts)

unfoldable pub count_window : List QcWindowEntry → List (Bytes × ℕ) → List (Bytes × ℕ)
count_window [] counts = counts
count_window (e ∷ window) counts = count_window window (count_signers e.signers counts)

unfoldable pub rate_emissions : ℕ → List (Bytes × ℕ) → List Emission
rate_emissions total [] = []
rate_emissions total ((validator, count) ∷ counts) =
    qc_participation_rate (format_validator_address validator) count total
    ∷ rate_emissions total counts

-- The known validators that took no part.
unfoldable pub absent_emissions : ℕ → List (Bytes × ℕ) → List (Bytes × ℕ) → List Emission
absent_emissions total counts [] = []
absent_emissions total counts ((validator, n) ∷ known) =
    elim (lookup bytes_discrete validator counts) [
      | some c ↦ []
      | none ↦ qc_participation_rate (format_validator_address validator) 0 total ∷ []
    ]
    ++ absent_emissions total counts known

unfoldable pub window_rates : List QcWindowEntry → List (Bytes × ℕ) → List Emission
window_rates [] known = []
window_rates (e ∷ window) known =
    let counts = count_window (e ∷ window) [] in
    let total = length (e ∷ window) in
    rate_emissions total counts ++ absent_emissions total counts known

unfoldable pub update_qc_participation_rates : ConsensusMonitor → List Emission
update_qc_participation_rates m = window_rates m.qc_window m.qc_signatures

pub record QcEvidence : Type 0 where
  pub round : ℕ
  pub signers : List Bytes

unfoldable pub process_qc : ℕ → QcEvidence → ConsensusMonitor → ConsensusMonitor × List Emission
process_qc now qc m =
    let m1 = process_signers now qc.signers m in
    let m2 = record m1 {
      verification_stats = record m1.verification_stats {
        qcs_processed = m1.verification_stats.qcs_processed + 1;
      };
    } in
    let m3 = add_qc_window_entry now qc.signers m2 in
    (
      m3,
      signer_emissions qc.signers ++ qc_size (length qc.signers) ∷ update_qc_participation_rates m3,
    )

unfoldable pub process_timeouts : ℕ → List Bytes → ConsensusMonitor → ConsensusMonitor
process_timeouts now [] m = m
process_timeouts now (validator ∷ timeouts) m = process_timeouts now timeouts (
    if is_empty validator then m else record m {
      tc_votes = increment validator m.tc_votes;
      tc_last_seen = insert bytes_discrete validator now m.tc_last_seen;
    })

unfoldable pub timeout_emissions : List Bytes → List Emission
timeout_emissions [] = []
timeout_emissions (validator ∷ timeouts) =
    (if is_empty validator then [] else tc_participation (format_validator_address validator) ∷ [])
    ++ timeout_emissions timeouts

-- The voters of a TC, or `none` if it does not decode.
unfoldable pub process_tc :
    ℕ → Option (List Bytes) → ConsensusMonitor → ConsensusMonitor × List Emission
process_tc now none m = (m, [])
process_tc now (some timeouts) m = (
  process_timeouts now timeouts (record m {
    verification_stats = record m.verification_stats {
      tcs_processed = m.verification_stats.tcs_processed + 1;
    };
  }),
  tc_size (length timeouts) ∷ timeout_emissions timeouts,
)

-- `float64(blockRound - m.lastBlockRound)`, if both are positive and the difference is too.
unfoldable pub round_diff : ℤ → ℤ → List Emission
round_diff (pos last) (pos n) =
    if ltb 0 last && ltb last n then rounds_per_block (n - last) ∷ [] else []
round_diff _ _ = []

unfoldable pub process_round : ℤ → ConsensusMonitor → ConsensusMonitor × List Emission
process_round round m =
    if is_positive round
    then (
      record m {
        last_block_round = round;
        verification_stats = record m.verification_stats {
          blocks_processed = m.verification_stats.blocks_processed + 1;
          last_block_round = round;
        };
      },
      current_consensus_round round ∷ round_diff m.last_block_round round,
    )
    else (m, [])

-- `int64(block.Round) - int64(block.QC.Round)`, which wraps around, if it is not negative.
unfoldable pub lag_emissions : ℕ → ℕ → List Emission
lag_emissions round qc_round =
    let lag = (round + (18446744073709551616 - qc_round)) % 18446744073709551616 in
    if ltb 0 qc_round && ltb 0 round && ltb lag 9223372036854775808
    then qc_round_lag lag ∷ []
    else []

pub record ConsensusBlockMessage : Type 0 where
  pub round : ℕ
  pub proposer : Bytes
  pub qc : Option QcEvidence
  pub tc : Option (Option (List Bytes))

-- `if block.QC != nil`
unfoldable pub process_evidence :
    ℕ → Option QcEvidence → ConsensusMonitor → ConsensusMonitor × List Emission
process_evidence now none m = (m, [])
process_evidence now (some qc) m = process_qc now qc m

-- `if len(block.TC) > 0`
unfoldable pub process_timeout_certificate :
    ℕ → Bytes → Option (Option (List Bytes)) → ConsensusMonitor → ConsensusMonitor × List Emission
process_timeout_certificate now proposer none m = (m, [])
process_timeout_certificate now proposer (some tc) m =
    let (m', e) = process_tc now tc m in
    (m', e ++ tc_block (format_validator_address proposer) ∷ [])

unfoldable pub lag_of : ℕ → Option QcEvidence → List Emission
lag_of round none = []
lag_of round (some qc) = lag_emissions round qc.round

unfoldable pub process_block :
    ℕ → ConsensusBlockMessage → ConsensusMonitor → ConsensusMonitor × List Emission
process_block now block m =
    let (m1, mapped) = get_validator_for_signer now block.proposer m in
    let proposer = if is_empty mapped then block.proposer else mapped in
    let (m2, rounds) = process_round (int64_of block.round) m1 in
    let (m3, qcs) = process_evidence now block.qc m2 in
    let (m4, tcs) = process_timeout_certificate now proposer block.tc m3 in
    let lags = lag_of block.round block.qc in (m4, rounds ++ qcs ++ tcs ++ lags)

-- A block that does not decode is an error.
unfoldable pub process_block_raw :
    ℕ → Option ConsensusBlockMessage → ConsensusMonitor → Option (ConsensusMonitor × List Emission)
process_block_raw now none m = none
process_block_raw now (some block) m = some (process_block now block m)

-- One of the loops of `trimStaleValidators`, over a last-seen map as it stood.
unfoldable pub trim_stale :
    ℕ → List (Bytes × ℕ) → List (Bytes × ℕ) × List (Bytes × ℕ) → List (Bytes × ℕ) × List (Bytes × ℕ)
trim_stale now [] maps = maps
trim_stale now ((v, t) ∷ walk) (seen, counts) = trim_stale now walk (
  (if ltb (t + nanoseconds_per_hour) now then delete bytes_discrete v seen else seen),
  (if ltb (t + nanoseconds_per_hour) now then delete bytes_discrete v counts else counts),
)

unfoldable pub trim_stale_validators : ℕ → ConsensusMonitor → ConsensusMonitor
trim_stale_validators now m =
    let qc = trim_stale now m.qc_last_seen (m.qc_last_seen, m.qc_signatures) in
    let tc = trim_stale now m.tc_last_seen (m.tc_last_seen, m.tc_votes) in
    record m { qc_last_seen = qc.0; qc_signatures = qc.1; tc_last_seen = tc.0; tc_votes = tc.1 }
