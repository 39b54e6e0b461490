-- ===== src/Consensus/Heartbeats.antt =====
-- Heartbeats of internal/monitors/consensus_monitor.go: `processHeartbeatOut` and
-- `processHeartbeatAck`.
use mathlib.Core.List.{lookup}
use hyperliquid_exporter.Base.Dict.{
  insert, delete, Distinct, lookup-insert, lookup-delete, insert-Distinct, delete-Distinct,
}
use hyperliquid_exporter.Base.Int.{minus}
use hyperliquid_exporter.Consensus.{
  heartbeat_sent, heartbeat_ack, heartbeat_ack_delay, ConsensusMonitor, HeartbeatInfo, Emission,
  is_empty, get_validator_for_signer, format_validator_address,
}
use hyperliquid_exporter.Consensus.Status.{
  HeartbeatMessage, clean_heartbeats, store_heartbeat, process_heartbeat_out, process_heartbeat_ack,
  ack_emissions,
}
use hyperliquid_exporter.Base.{
  ℕ, ◌+◌, ◌≤◌, ◌≡◌, refl, ap, ◌∙◌, inl, inr, Bool, false, ◌||◌, Option, none, some, List, [], ◌∷◌,
  arith, ltb, ◌==◌, if◌then◌else◌, Bool-cases, Option-cases, Bytes, ite, ℕ_discrete,
}

abbrev pub five_minutes : ℕ
five_minutes = 300000000000

-- A walk has an old heartbeat with the id.
unfoldable pub lapsed : ℕ → ℕ → List (ℕ × HeartbeatInfo) → Bool
lapsed now id [] = false
lapsed now id ((i, info) ∷ walk) =
    ite (ℕ_discrete i id) (ltb (info.timestamp + five_minutes) now) false || lapsed now id walk

lookup-clean_heartbeats :
    (now id : ℕ) (walk heartbeats : List (ℕ × HeartbeatInfo))
    → lookup ℕ_discrete id (clean_heartbeats now walk heartbeats)
      ≡ (if lapsed now id walk then none else lookup ℕ_discrete id heartbeats)
unfolding clean_heartbeats lapsed
lookup-clean_heartbeats now id [] heartbeats = refl
lookup-clean_heartbeats now id ((i, info) ∷ walk) heartbeats =
    elim (Bool-cases (ltb (info.timestamp + five_minutes) now)) [
      | inl h ↦ ground (
        arith,
        lookup-clean_heartbeats now id walk (delete ℕ_discrete i heartbeats),
        lookup-delete ℕ_discrete id i heartbeats,
      )
      | inr h ↦ ground (arith, lookup-clean_heartbeats now id walk heartbeats)
    ]

-- Whether a heartbeat that a lookup finds is old.
unfoldable pub is_old : ℕ → Option HeartbeatInfo → Bool
is_old now none = false
is_old now (some info) = ltb (info.timestamp + five_minutes) now

lapsed-lookup :
    (now id : ℕ) (m : List (ℕ × HeartbeatInfo))
    → Distinct ℕ_discrete m
    → lapsed now id m ≡ is_old now (lookup ℕ_discrete id m)
unfolding lapsed lookup is_old
lapsed-lookup now id [] d = refl
lapsed-lookup now id ((i, info) ∷ m) d = ground (arith, lapsed-lookup now id m d.1)

-- What is left of a heartbeat after the cleaning.
unfoldable pub fresh : ℕ → Option HeartbeatInfo → Option HeartbeatInfo
fresh now none = none
fresh now (some info) = if ltb (info.timestamp + five_minutes) now then none else some info

Distinct-clean_heartbeats :
    (now : ℕ) (walk heartbeats : List (ℕ × HeartbeatInfo))
    → Distinct ℕ_discrete heartbeats
    → Distinct ℕ_discrete (clean_heartbeats now walk heartbeats)
unfolding clean_heartbeats
Distinct-clean_heartbeats now [] heartbeats d = d
Distinct-clean_heartbeats now ((i, info) ∷ walk) heartbeats d =
    elim (Bool-cases (ltb (info.timestamp + five_minutes) now)) [
      | inl h ↦
          rw (h, Distinct)
            (Distinct-clean_heartbeats now walk (delete ℕ_discrete i heartbeats)
              (delete-Distinct ℕ_discrete i heartbeats d))
      | inr h ↦ rw (h, Distinct) (Distinct-clean_heartbeats now walk heartbeats d)
    ]

lookup-clean :
    (now id : ℕ) (m : List (ℕ × HeartbeatInfo))
    → Distinct ℕ_discrete m
    → lookup ℕ_discrete id (clean_heartbeats now m m) ≡ fresh now (lookup ℕ_discrete id m)
unfolding fresh is_old
lookup-clean now id m d = ground (
  arith,
  lookup-clean_heartbeats now id m m,
  lapsed-lookup now id m d,
  Option-cases (lookup ℕ_discrete id m),
)

lookup-store_heartbeat :
    (now id j : ℕ) (info : HeartbeatInfo) (m : ConsensusMonitor)
    → Distinct ℕ_discrete m.heartbeats
    → lookup ℕ_discrete j (store_heartbeat now id info m).heartbeats
      ≡ fresh now (ite (ℕ_discrete id j) (some info) (lookup ℕ_discrete j m.heartbeats))
unfolding store_heartbeat
lookup-store_heartbeat now id j info m d =
    let stored = insert ℕ_discrete id info m.heartbeats in
    rw (lookup-clean now j stored (insert-Distinct ℕ_discrete id info m.heartbeats d))
      (ap (fresh now) (lookup-insert ℕ_discrete j id info m.heartbeats))

store_heartbeat-Distinct :
    (now id : ℕ) (info : HeartbeatInfo) (m : ConsensusMonitor)
    → Distinct ℕ_discrete m.heartbeats
    → Distinct ℕ_discrete (store_heartbeat now id info m).heartbeats
unfolding store_heartbeat
store_heartbeat-Distinct now id info m d =
    let stored = insert ℕ_discrete id info m.heartbeats in
    Distinct-clean_heartbeats now stored stored (insert-Distinct ℕ_discrete id info m.heartbeats d)

get_validator_for_signer_heartbeats :
    (now : ℕ) (signer : Bytes) (m : ConsensusMonitor)
    → (get_validator_for_signer now signer m).0.heartbeats ≡ m.heartbeats
unfolding get_validator_for_signer
get_validator_for_signer_heartbeats now signer m = ground arith

-- The validator under which a heartbeat is stored.
unfoldable pub heartbeat_validator : ℕ → HeartbeatMessage → ConsensusMonitor → Bytes
heartbeat_validator now hb m =
    let mapped = (get_validator_for_signer now hb.validator m).1 in
    if is_empty mapped then hb.validator else mapped

abbrev heartbeat_state : ℕ → HeartbeatMessage → ℕ → ConsensusMonitor → ConsensusMonitor
heartbeat_state now hb timestamp m =
    store_heartbeat now hb.random_id
      (record { validator = heartbeat_validator now hb m; timestamp = timestamp })
      (get_validator_for_signer now hb.validator m).0

process_heartbeat_out-some :
    (now : ℕ) (hb : HeartbeatMessage) (timestamp : ℕ) (m m' : ConsensusMonitor) (e : List Emission)
    → process_heartbeat_out now hb timestamp m ≡ some (m', e)
    → (hb.random_id == 0 ≡ false)
      × (m' ≡ heartbeat_state now hb timestamp m)
      × (e ≡ heartbeat_sent (format_validator_address (heartbeat_validator now hb m)) ∷ [])
unfolding process_heartbeat_out heartbeat_validator
process_heartbeat_out-some now hb timestamp m m' e h =
    elim (Bool-cases (is_empty hb.validator || hb.random_id == 0)) [
      | inl bad ↦ cc
      | inr good ↦ ground arith
    ]

-- After an accepted heartbeat the stored ones are, for every id, the new one or what was stored,
-- without those older than five minutes; and no id is stored twice.
pub lookup-process_heartbeat_out :
    (now : ℕ) (hb : HeartbeatMessage) (timestamp id : ℕ) (m m' : ConsensusMonitor)
    (e : List Emission)
    → process_heartbeat_out now hb timestamp m ≡ some (m', e)
    → Distinct ℕ_discrete m.heartbeats
    → (lookup ℕ_discrete id m'.heartbeats
        ≡ fresh now (
            ite
              (ℕ_discrete hb.random_id id)
              (some (record { validator = heartbeat_validator now hb m; timestamp = timestamp }))
              (lookup ℕ_discrete id m.heartbeats)))
      × Distinct ℕ_discrete m'.heartbeats
lookup-process_heartbeat_out now hb timestamp id m m' e h d =
    let (valid, state, sent) = process_heartbeat_out-some now hb timestamp m m' e h in
    let info : HeartbeatInfo = record {
      validator = heartbeat_validator now hb m;
      timestamp = timestamp;
    } in
    let m1 = (get_validator_for_signer now hb.validator m).0 in
    let same = get_validator_for_signer_heartbeats now hb.validator m in
    rw state (
      lookup-store_heartbeat now hb.random_id id info m1 (rw same d)
          ∙ ap
              (λ l.
                fresh now (ite (ℕ_discrete hb.random_id id) (some info) (lookup ℕ_discrete id l)))
              same,
      store_heartbeat-Distinct now hb.random_id info m1 (rw same d),
    )

-- If a heartbeat is accepted at most five minutes after its time, an acknowledgment of it is
-- counted under the label under which the heartbeat was, with the time between the two.
pub process_heartbeat_ack-out :
    (now : ℕ) (hb : HeartbeatMessage) (sent acked : ℕ) (source : Bytes) (m m' : ConsensusMonitor)
    (e : List Emission)
    → process_heartbeat_out now hb sent m ≡ some (m', e)
    → Distinct ℕ_discrete m.heartbeats
    → now ≤ sent + five_minutes
    → is_empty source ≡ false
    → (from : Bytes) × (e ≡ heartbeat_sent from ∷ [])
      × (process_heartbeat_ack hb.random_id source acked m'
          ≡ some (
            m',
            heartbeat_ack from (format_validator_address source)
                ∷ heartbeat_ack_delay from (format_validator_address source) (minus acked sent)
                ∷ [],
          ))
unfolding process_heartbeat_ack ack_emissions fresh
process_heartbeat_ack-out now hb sent acked source m m' e h d recent named =
    let (valid, state, label) = process_heartbeat_out-some now hb sent m m' e h in
    let (found, d') = lookup-process_heartbeat_out now hb sent hb.random_id m m' e h d in
    (
      format_validator_address (heartbeat_validator now hb m),
      label,
      ground (
        arith,
        found,
        valid,
        named,
        recent,
        Option-cases (lookup ℕ_discrete hb.random_id m'.heartbeats),
      ),
    )
