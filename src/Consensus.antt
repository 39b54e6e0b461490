-- ===== src/Consensus.antt =====
-- internal/monitors/consensus_monitor.go: the state of the consensus monitor and the handlers of
-- its messages, with the structs of internal/monitors/consensus_types.go.
--
-- The handlers take decoded messages. A handler returns the state it leaves and the calls of
-- internal/metrics that it makes, in order. A handler reads one time, `now`, in nanoseconds. The
-- signer map of internal/metrics/types.go, which the handlers read, is a field of the state.
pub mod Address
pub mod Blocks
pub mod Status
pub mod Window
pub mod Signatures
pub mod Invariant
pub mod Rates
pub mod Heartbeats
pub mod Connectivity
mod Tests
use mathlib.Core.List.{lookup}
use hyperliquid_exporter.Base.Dict.{insert, delete}
use hyperliquid_exporter.Base.Int.{ℤ, pos, negsuc, minus}
use hyperliquid_exporter.Lru.{LruCache, get, set, new_lru_cache}
use hyperliquid_exporter.Base.{
  ℕ, zero, suc, ◌+◌, ◌-◌, ◌%◌, ◌≤◌, ◌<◌, ◌≡◌, refl, sym, ap, ◌∙◌, fun_ext, ◌≢◌, ◌↔◌, ◌⊎◌, inl, inr,
  Bool, true, false, not, ◌&&◌, ◌||◌, Option, none, some, List, [], ◌∷◌, ◌++◌, map, ◌*◌, take, drop,
  arith, ltb, leb, ◌==◌, if◌then◌else◌, ==_iff, Bool-cases, Option-cases, Bytes, codes,
  bytes_discrete, length, All, keep, ite, dec_lt, dec_le, ℕ_discrete, if_pos, if_neg,
}

pub record QcWindowEntry : Type 0 where
  pub timestamp : ℕ
  pub signers : List Bytes

pub record HeartbeatInfo : Type 0 where
  pub validator : Bytes
  pub timestamp : ℕ

pub record VerificationStats : Type 0 where
  pub blocks_processed : ℕ
  pub qcs_processed : ℕ
  pub tcs_processed : ℕ
  pub last_block_round : ℤ

-- Heartbeats are keyed by the random id, a float64 that is read as a whole number.
pub record ConsensusMonitor : Type 0 where
  pub qc_signatures : List (Bytes × ℕ)
  pub qc_last_seen : List (Bytes × ℕ)
  pub tc_votes : List (Bytes × ℕ)
  pub tc_last_seen : List (Bytes × ℕ)
  pub validator_cache : LruCache Bytes
  pub signer_map : LruCache Bytes
  pub qc_window : List QcWindowEntry
  pub window_size : ℕ
  pub window_duration : ℕ
  pub last_block_round : ℤ
  pub disconnected_set : List (Bytes × Bool)
  pub heartbeats : List (ℕ × HeartbeatInfo)
  pub verification_stats : VerificationStats

-- A call of internal/metrics.
pub data Emission : Type 0 where
  last_vote_round : Bytes → ℤ → Emission
  vote_time_diff : Bytes → ℤ → Emission
  current_consensus_round : ℤ → Emission
  rounds_per_block : ℕ → Emission
  qc_signature : Bytes → Emission
  qc_size : ℕ → Emission
  qc_participation_rate : Bytes → ℕ → ℕ → Emission
  tc_size : ℕ → Emission
  tc_participation : Bytes → Emission
  tc_block : Bytes → Emission
  qc_round_lag : ℕ → Emission
  heartbeat_sent : Bytes → Emission
  heartbeat_ack : Bytes → Bytes → Emission
  heartbeat_ack_delay : Bytes → Bytes → ℤ → Emission
  connectivity : Bytes → Bytes → ℕ → Emission
  connectivity_removed : Bytes → Bytes → Emission
  heartbeat_status : Bytes → Bytes → ℤ → Emission

abbrev pub nanoseconds_per_hour : ℕ
nanoseconds_per_hour = 3600000000000

unfoldable pub new_consensus_monitor : ConsensusMonitor
new_consensus_monitor = record {
  qc_signatures = [];
  qc_last_seen = [];
  tc_votes = [];
  tc_last_seen = [];
  validator_cache = new_lru_cache 1024 (24 * nanoseconds_per_hour);
  signer_map = new_lru_cache 5000 (24 * nanoseconds_per_hour);
  qc_window = [];
  window_size = 100;
  window_duration = nanoseconds_per_hour;
  last_block_round = pos 0;
  disconnected_set = [];
  heartbeats = [];
  verification_stats = record {
    blocks_processed = 0;
    qcs_processed = 0;
    tcs_processed = 0;
    last_block_round = pos 0;
  };
}

-- `int64(n)` of a uint64.
unfoldable pub int64_of : ℕ → ℤ
int64_of n = if ltb n 9223372036854775808 then pos n else negsuc (18446744073709551615 - n)

unfoldable pub is_positive : ℤ → Bool
is_positive (pos n) = ltb 0 n
is_positive (negsuc n) = false

unfoldable pub is_empty : Bytes → Bool
is_empty [] = true
is_empty (b ∷ bs) = false

-- `strings.ToLower` of ASCII text.
unfoldable pub lower_byte : ℕ → ℕ
lower_byte b = if leb b'A' b && leb b b'Z' then b + 32 else b

unfoldable pub to_lower : Bytes → Bytes
to_lower bs = map lower_byte bs

-- `strings.HasPrefix(addr, "0x")`
unfoldable pub has_prefix_0x : Bytes → Bool
has_prefix_0x (a ∷ b ∷ bs) = a == b'0' && b == b'x'
has_prefix_0x (a ∷ []) = false
has_prefix_0x [] = false

unfoldable pub with_prefix_0x : Bytes → Bytes
with_prefix_0x addr = if has_prefix_0x addr then addr else b'0' ∷ b'x' ∷ addr

unfoldable pub shorten : Bytes → Bytes
shorten addr =
    if ltb 10 (length addr) then take 6 addr ++ b'.' ∷ b'.' ∷ drop (length addr - 4) addr else addr

unfoldable pub format_validator_address : Bytes → Bytes
format_validator_address address =
    if leb (length address) 10 then address else shorten (with_prefix_0x (to_lower address))

-- `m.getValidatorForSigner`; `metrics.GetValidatorForSigner` is a `Get` of the signer map.
unfoldable pub get_validator_for_signer : ℕ → Bytes → ConsensusMonitor → ConsensusMonitor × Bytes
get_validator_for_signer now signer m =
    let (c, cached) = get now signer m.validator_cache in
    let (signers, mapped) = get now signer m.signer_map in
    elim cached [
      | some v ↦ (record m { validator_cache = c }, v)
      | none ↦ elim mapped [
        | none ↦ (record m { validator_cache = c; signer_map = signers }, [])
        | some v ↦
            if is_empty v
            then (record m { validator_cache = c; signer_map = signers }, [])
            else (record m { validator_cache = set now signer v c; signer_map = signers }, v)
      ]
    ]

pub record ConsensusVoteMessage : Type 0 where
  pub round : ℕ
  pub validator : Bytes
  pub signer_id : Bytes

-- The validator that a vote names, or its signer's.
unfoldable pub vote_validator :
    ℕ → ConsensusVoteMessage → ConsensusMonitor → ConsensusMonitor × Bytes
vote_validator now vote m =
    if is_empty vote.validator && not (is_empty vote.signer_id)
    then get_validator_for_signer now vote.signer_id m
    else (m, vote.validator)

unfoldable pub vote_emissions : ℕ → ConsensusVoteMessage → ℕ → Bytes → List Emission
vote_emissions now vote timestamp validator =
    if is_empty validator
    then []
    else let formatted = format_validator_address validator in
      (if ltb 0 vote.round then last_vote_round formatted (int64_of vote.round) ∷ [] else [])
      ++ vote_time_diff formatted (minus now timestamp) ∷ []

unfoldable pub process_vote_struct :
    ℕ → ConsensusVoteMessage → ℕ → ConsensusMonitor → ConsensusMonitor × List Emission
process_vote_struct now vote timestamp m =
    let (m', validator) = vote_validator now vote m in
    (m', vote_emissions now vote timestamp validator)
