-- ===== src/Consensus/Status.antt =====
-- internal/monitors/consensus_monitor.go: `processHeartbeatOut`, `processHeartbeatAck`, and the
-- handlers of a status line, `processDisconnectedValidatorsRaw` and `processHeartbeatStatusesRaw`.
use mathlib.Core.List.{lookup}
use hyperliquid_exporter.Base.Dict.{insert, delete}
use hyperliquid_exporter.Base.Int.{minus}
use hyperliquid_exporter.Consensus.{
  ConsensusMonitor, HeartbeatInfo, Emission, heartbeat_sent, heartbeat_ack, heartbeat_ack_delay,
  connectivity, connectivity_removed, is_empty, format_validator_address, get_validator_for_signer,
}
use hyperliquid_exporter.Base.{
  ℕ, ◌+◌, Bool, true, ◌||◌, Option, none, some, List, [], ◌∷◌, ◌++◌, ltb, ◌==◌, if◌then◌else◌,
  Bytes, bytes_discrete, ℕ_discrete,
}

pub record HeartbeatMessage : Type 0 where
  pub validator : Bytes
  pub random_id : ℕ

-- The loop that removes the heartbeats of more than five minutes before.
unfoldable pub clean_heartbeats :
    ℕ → List (ℕ × HeartbeatInfo) → List (ℕ × HeartbeatInfo) → List (ℕ × HeartbeatInfo)
clean_heartbeats now [] heartbeats = heartbeats
clean_heartbeats now ((id, info) ∷ walk) heartbeats = clean_heartbeats now walk (
    if ltb (info.timestamp + 300000000000) now then delete ℕ_discrete id heartbeats else heartbeats)

unfoldable pub store_heartbeat : ℕ → ℕ → HeartbeatInfo → ConsensusMonitor → ConsensusMonitor
store_heartbeat now id info m =
    let stored = insert ℕ_discrete id info m.heartbeats in
    record m { heartbeats = clean_heartbeats now stored stored }

-- `none` is the error of a message without a validator or an id.
unfoldable pub process_heartbeat_out :
    ℕ → HeartbeatMessage → ℕ → ConsensusMonitor → Option (ConsensusMonitor × List Emission)
process_heartbeat_out now hb timestamp m =
    if is_empty hb.validator || hb.random_id == 0
    then none
    else let (m', mapped) = get_validator_for_signer now hb.validator m in
      let validator = if is_empty mapped then hb.validator else mapped in
      some (
        store_heartbeat now hb.random_id (record { validator = validator; timestamp = timestamp })
            m',
        heartbeat_sent (format_validator_address validator) ∷ [],
      )

-- The delay is in nanoseconds; `Milliseconds` then cuts it.
unfoldable pub ack_emissions : HeartbeatInfo → Bytes → ℕ → List Emission
ack_emissions info source timestamp =
    let from = format_validator_address info.validator in
    let to = format_validator_address source in
    heartbeat_ack from to ∷ heartbeat_ack_delay from to (minus timestamp info.timestamp) ∷ []

unfoldable pub process_heartbeat_ack :
    ℕ → Bytes → ℕ → ConsensusMonitor → Option (ConsensusMonitor × List Emission)
process_heartbeat_ack random_id source timestamp m =
    if random_id == 0 || is_empty source
    then none
    else some (
      m,
      elim (lookup ℕ_discrete random_id m.heartbeats) [
        | none ↦ []
        | some info ↦ ack_emissions info source timestamp
      ],
    )

-- `strings.Split(key, "_")`
unfoldable pub split_underscore : Bytes → List Bytes
split_underscore [] = [] ∷ []
split_underscore (b ∷ bs) =
    let rest = split_underscore bs in
    if b == b'_'
    then [] ∷ rest
    else elim rest [ [] ↦ (b ∷ []) ∷ [] | part ∷ parts ↦ (b ∷ part) ∷ parts ]

-- `fmt.Sprintf("%s_%s", valAddr, peerAddr)`
unfoldable pub pair_key : Bytes → Bytes → Bytes
pair_key validator peer = validator ++ b'_' ∷ peer

-- The key of each decoded pair of a validator and a peer.
unfoldable pub new_disconnected : List (Bytes × Bytes) → List (Bytes × Bool) → List (Bytes × Bool)
new_disconnected [] set = set
new_disconnected ((validator, peer) ∷ pairs) set =
    new_disconnected pairs (insert bytes_discrete (pair_key validator peer) true set)

abbrev pub two_parts : List Bytes → Option (Bytes × Bytes)
two_parts (a ∷ b ∷ []) = some (a, b)
two_parts _ = none

-- The loop over the old set.
unfoldable pub removals : List (Bytes × Bool) → List (Bytes × Bool) → List Emission
removals new [] = []
removals new ((key, x) ∷ old) =
    let rest = removals new old in
    elim (lookup bytes_discrete key new) [
      | some y ↦ rest
      | none ↦ elim (two_parts (split_underscore key)) [
        | none ↦ rest
        | some p ↦ connectivity_removed p.0 p.1 ∷ rest
      ]
    ]

-- The loop over the new set.
unfoldable pub additions : List (Bytes × Bool) → List (Bytes × Bool) → List Emission
additions old [] = []
additions old ((key, x) ∷ new) =
    let rest = additions old new in
    elim (lookup bytes_discrete key old) [
      | some y ↦ rest
      | none ↦ elim (two_parts (split_underscore key)) [
        | none ↦ rest
        | some p ↦ connectivity p.0 p.1 0 ∷ rest
      ]
    ]

-- The pairs that decode, in the order of the list; `none` is data that is no JSON list, at which
-- the handler returns.
unfoldable pub process_disconnected_validators :
    Option (List (Bytes × Bytes)) → ConsensusMonitor → ConsensusMonitor × List Emission
process_disconnected_validators none m = (m, [])
process_disconnected_validators (some pairs) m =
    let new = new_disconnected pairs [] in
    (
      record m { disconnected_set = new },
      removals new m.disconnected_set ++ additions m.disconnected_set new,
    )
