-- ===== src/Consensus/Tests.antt =====
-- Runs of the handlers of internal/monitors/consensus_monitor.go, and the theorems at such inputs.
use mathlib.Core.List.{lookup}
use hyperliquid_exporter.Base.Dict.{insert, delete}
use hyperliquid_exporter.Base.Int.{pos, minus}
use hyperliquid_exporter.Lru
use hyperliquid_exporter.Consensus.{
  ConsensusMonitor, QcWindowEntry, new_consensus_monitor, int64_of, is_positive, is_empty,
  lower_byte, to_lower, has_prefix_0x, with_prefix_0x, shorten, format_validator_address,
  get_validator_for_signer, vote_validator, vote_emissions, process_vote_struct, last_vote_round,
  vote_time_diff, current_consensus_round, qc_signature, qc_size, qc_participation_rate, tc_size,
  tc_participation, tc_block, qc_round_lag, connectivity, connectivity_removed,
}
use hyperliquid_exporter.Consensus.Blocks.{
  QcEvidence, ConsensusBlockMessage, increment, process_signer, process_signers, signer_emissions,
  drop_stale, trim_size, add_qc_window_entry, count_signers, count_window, rate_emissions,
  absent_emissions, window_rates, update_qc_participation_rates, process_qc, process_timeouts,
  timeout_emissions, process_tc, round_diff, process_round, lag_emissions, process_evidence,
  process_timeout_certificate, lag_of, process_block, trim_stale, trim_stale_validators,
}
use hyperliquid_exporter.Consensus.Status.{
  HeartbeatMessage, clean_heartbeats, store_heartbeat, process_heartbeat_out, process_heartbeat_ack,
  ack_emissions, split_underscore, pair_key, new_disconnected, removals, additions,
  process_disconnected_validators,
}
use hyperliquid_exporter.Consensus.Window.{Ordered}
use hyperliquid_exporter.Consensus.Signatures.{IsConsistent, count_of, occurrences}
use hyperliquid_exporter.Consensus.Invariant.{process_block-IsConsistent, trimmed}
use hyperliquid_exporter.Consensus.Rates.{NoRepeat, window_occurrences}
use hyperliquid_exporter.Consensus.Heartbeats.{fresh, heartbeat_validator}
use hyperliquid_exporter.Consensus.Connectivity.{
  shown_after, listed, no_underscore, same_pair, shown,
}
use hyperliquid_exporter.Base.{
  ℕ, ◌≡◌, refl, none, some, List, [], ◌∷◌, take, drop, arith, Bytes, codes, bytes_discrete, length,
  has, keep, ℕ_discrete,
}

program : Unit {0}
unfolding new_consensus_monitor int64_of is_positive is_empty lower_byte to_lower has_prefix_0x
    with_prefix_0x shorten format_validator_address get_validator_for_signer vote_validator
    vote_emissions process_vote_struct increment process_signer process_signers signer_emissions
    drop_stale trim_size add_qc_window_entry count_signers count_window rate_emissions
    absent_emissions window_rates update_qc_participation_rates process_qc process_timeouts
    timeout_emissions process_tc round_diff process_round lag_emissions process_evidence
    process_timeout_certificate lag_of process_block trim_stale trim_stale_validators
    clean_heartbeats store_heartbeat process_heartbeat_out process_heartbeat_ack ack_emissions
    split_underscore pair_key new_disconnected removals additions process_disconnected_validators
    insert delete lookup bytes_discrete ℕ_discrete take drop keep minus has count_of occurrences
    window_occurrences NoRepeat fresh heartbeat_validator shown_after listed no_underscore same_pair
    shown trimmed Lru.get Lru.get_element Lru.set Lru.new_lru_cache Lru.evict Lru.push_front
    Lru.is_expired Lru.update
program = tt

abbrev a : Bytes
a = codes "0xaaaa..1111"

abbrev b : Bytes
b = codes "0xbbbb..2222"

abbrev start : ConsensusMonitor
unfolding new_consensus_monitor
start = new_consensus_monitor

start-IsConsistent : IsConsistent start
unfolding program
start-IsConsistent = record {
  qc = record { seen_distinct = tt; counts_distinct = tt; same_keys = λ k. refl };
  tc = record { seen_distinct = tt; counts_distinct = tt; same_keys = λ k. refl };
}

abbrev evidence : QcEvidence
evidence = record { round = 7; signers = a ∷ b ∷ [] }

abbrev block : ConsensusBlockMessage
block = record { round = 9; proposer = a; qc = some evidence; tc = some (some (b ∷ [])) }

abbrev once : ConsensusMonitor
once = (process_block 1000 block start).0

-- The calls for the block.
block_emissions :
    (process_block 1000 block start).1
    ≡ current_consensus_round (pos 9)
      ∷ qc_signature a
      ∷ qc_signature b
      ∷ qc_size 2
      ∷ qc_participation_rate a 1 1
      ∷ qc_participation_rate b 1 1
      ∷ tc_size 1
      ∷ tc_participation b
      ∷ tc_block a
      ∷ qc_round_lag 2
      ∷ []
unfolding program
block_emissions = refl

-- An address that is written in full is shortened.
full_address :
    format_validator_address (codes "0xABCDef0123456789abcdef0123456789abcdef01")
    ≡ codes "0xabcd..ef01"
unfolding program
full_address = refl

vote :
    (process_vote_struct 50 (record { round = 3; validator = a; signer_id = [] }) 20 start).1
    ≡ last_vote_round a (pos 3) ∷ vote_time_diff a (pos 30) ∷ []
unfolding program
vote = refl

abbrev window : List QcWindowEntry
window =
    record { timestamp = 5; signers = a ∷ [] } ∷ record { timestamp = 60; signers = b ∷ [] } ∷ []

abbrev with_window : ConsensusMonitor
with_window = record start {
  qc_window = window;
  window_duration = 50;
  qc_signatures = (a, 1) ∷ (b, 1) ∷ [];
}

window-Ordered : Ordered window 70
window-Ordered = ((omega arith, tt), omega arith, (tt, omega arith, tt))

-- The oldest of the three is dropped.
window_of_two : length (add_qc_window_entry 70 (a ∷ []) with_window).qc_window ≡ 2
unfolding program
window_of_two = refl

process_block-IsConsistent_example : IsConsistent (process_block 1000 block start).0
process_block-IsConsistent_example = process_block-IsConsistent 1000 block start start-IsConsistent

abbrev later : ℕ
later = 3600000001001

-- After an hour the count is gone.
trimmed_count : lookup bytes_discrete a (trim_stale_validators later once).qc_signatures ≡ none
unfolding program
trimmed_count = refl

abbrev heartbeat : HeartbeatMessage
heartbeat = record { validator = a; random_id = 77 }

abbrev beating : ConsensusMonitor
unfolding program
beating = elim (process_heartbeat_out 15 heartbeat 10 start) [ none ↦ start | some r ↦ r.0 ]

abbrev disconnected : ConsensusMonitor
disconnected = (process_disconnected_validators (some ((a, b) ∷ [])) start).0

-- The pair that is connected again is removed and the other one is set.
reconnected :
    (process_disconnected_validators (some ((b, a) ∷ [])) disconnected).1
    ≡ connectivity_removed a b ∷ connectivity b a 0 ∷ []
unfolding program
reconnected = refl
