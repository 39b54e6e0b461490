-- ===== src/Startup.antt =====
-- internal/exporter/exporter.go and the two goroutine wrappers, internal/exporter/safego.go and
-- internal/monitors/safego.go: which monitors `Start` runs, when they count as started, and which
-- monitor a message on an error channel is charged to. The states of the monitors are those of
-- Health.antt.
--
-- A goroutine that `runMonitor` launches begins at a time that the scheduler chooses, so the
-- exporter moves by an action at a time. What the monitors do inside is in other modules.
pub mod Invariant
pub mod Readiness
mod Tests
use mathlib.Core.List.{lookup}
use hyperliquid_exporter.Health.{
  MonitorState, Monitors, register_monitor, mark_monitor_started, mark_monitor_tick,
  inc_monitor_panic, inc_monitor_error,
}
use hyperliquid_exporter.Settings.{Config}
use hyperliquid_exporter.Base.{
  ℕ, zero, suc, ◌+◌, ◌-◌, ◌%◌, ◌^◌, ◌/◌, ◌≤◌, ◌<◌, ◌≡◌, refl, sym, ap, ◌∙◌, fun_ext, ◌≢◌, ◌↔◌, ◌⊎◌,
  inl, inr, Bool, true, false, not, ◌&&◌, ◌||◌, Option, none, some, List, [], ◌∷◌, ◌++◌, map, take,
  drop, arith, ltb, leb, ◌==◌, if◌then◌else◌, ==_iff, Bool-cases, Option-cases, Bytes, codes,
  bytes_discrete, length, All, has, List-cases, keep, ite, dec_lt, dec_le, ℕ_discrete, if_pos,
  if_neg,
}

-- A call of `runMonitor`: whether the guards around it hold, the name, and the error channel that
-- the monitor is given.
pub record Launch : Type 0 where
  pub enabled : Bool
  pub name : Bytes
  pub channel : Option Bytes

abbrev pub monitor : Bool → Bytes → Option Bytes → Launch
monitor enabled name channel = record { enabled = enabled; name = name; channel = channel }

-- The calls of `runMonitor` in the order of `Start`; the flag is whether `NodeBinaryReady` returns no
-- error. `StartValidatorStatusMonitor` is started by a direct call, and not among them.
unfoldable pub run_monitor_calls : Config → Bool → List Launch
run_monitor_calls cfg binary_ready =
    monitor true (codes "block") (some (codes "blockErrCh"))
    ∷ monitor true (codes "validator_api") (some (codes "validatorErrCh"))
    ∷ monitor (not cfg.enable_replica_metrics) (codes "proposal") (some (codes "proposalErrCh"))
    ∷ monitor (not cfg.skip_version_check && binary_ready) (codes "version")
        (some (codes "versionErrCh"))
    ∷ monitor (not cfg.skip_update_check) (codes "update_checker") (some (codes "updateErrCh"))
    ∷ monitor cfg.enable_evm (codes "evm") (some (codes "evmErrCh"))
    ∷ monitor cfg.enable_evm (codes "evm_account") (some (codes "evmAccountErrCh"))
    ∷ monitor cfg.enable_validator_rtt (codes "validator_ip") (some (codes "validatorIPErrCh"))
    ∷ monitor true (codes "consensus") (some (codes "consensusErrCh"))
    ∷ monitor true (codes "validator_latency") (some (codes "latencyErrCh"))
    ∷ monitor true (codes "gossip") (some (codes "gossipErrCh"))
    ∷ monitor true (codes "visor") (some (codes "visorErrCh"))
    ∷ monitor true (codes "subsystem_latency") (some (codes "subsystemLatencyErrCh"))
    ∷ monitor true (codes "crit_msg") (some (codes "critMsgErrCh"))
    ∷ monitor true (codes "tcp_traffic") (some (codes "tcpTrafficErrCh"))
    ∷ monitor true (codes "peer_set") (some (codes "peerSetErrCh"))
    ∷ monitor true (codes "parent_peer") (some (codes "parentPeerErrCh"))
    ∷ monitor true (codes "disk") (some (codes "diskErrCh"))
    ∷ monitor true (codes "process") (some (codes "processErrCh"))
    ∷ monitor true (codes "gossip_connections") (some (codes "gossipConnectionsErrCh"))
    ∷ monitor true (codes "accumulator_consensus") (some (codes "accumulatorConsensusErrCh"))
    ∷ monitor true (codes "replay") (some (codes "replayErrCh"))
    ∷ monitor true (codes "mempool") (some (codes "mempoolErrCh"))
    ∷ monitor true (codes "snapshot_status") (some (codes "snapshotStatusErrCh"))
    ∷ monitor true (codes "node_state") (some (codes "nodeStateErrCh"))
    ∷ monitor true (codes "tcp_connections") (some (codes "tcpConnectionsErrCh"))
    ∷ monitor true (codes "replica_runs") (some (codes "replicaRunsErrCh"))
    ∷ monitor cfg.probe_info_endpoint (codes "info_probe") (some (codes "infoProbeErrCh"))
    ∷ monitor cfg.enable_extended_metrics (codes "tcp_lz4") (some (codes "tcpLz4ErrCh"))
    ∷ monitor cfg.enable_extended_metrics (codes "log_lines") (some (codes "logLinesErrCh"))
    ∷ monitor cfg.enable_extended_metrics (codes "public_ip") (some (codes "publicIPErrCh"))
    ∷ monitor cfg.enable_extended_metrics (codes "tokio_runtime") (some (codes "tokioErrCh"))
    ∷ monitor cfg.enable_extended_metrics (codes "operator_config")
        (some (codes "operatorConfigErrCh"))
    ∷ monitor cfg.enable_extended_metrics (codes "tmp_dir") (some (codes "tmpDirErrCh"))
    ∷ monitor cfg.enable_extended_metrics (codes "rocksdb") (some (codes "rocksDBErrCh"))
    ∷ monitor cfg.enable_extended_metrics (codes "subsystem_steps")
        (some (codes "subsystemStepsErrCh"))
    ∷ monitor cfg.enable_extended_metrics (codes "crit_locations")
        (some (codes "critLocationsErrCh"))
    ∷ monitor cfg.enable_replica_metrics (codes "replica") (some (codes "replicaErrCh"))
    ∷ monitor true (codes "memory") none
    ∷ []

-- The cases of the `select`: the channel, and the name given to `IncMonitorError`.
abbrev pub error_cases : List (Bytes × Option Bytes)
error_cases =
    (codes "blockErrCh", some (codes "block"))
    ∷ (codes "proposalErrCh", some (codes "proposal"))
    ∷ (codes "validatorErrCh", some (codes "validator_api"))
    ∷ (codes "versionErrCh", some (codes "version"))
    ∷ (codes "updateErrCh", some (codes "update_checker"))
    ∷ (codes "evmErrCh", some (codes "evm"))
    ∷ (codes "evmTxsErrCh", none)
    ∷ (codes "evmAccountErrCh", some (codes "evm_account"))
    ∷ (codes "validatorStatusErrCh", some (codes "validator_status"))
    ∷ (codes "validatorIPErrCh", some (codes "validator_ip"))
    ∷ (codes "coreTxErrCh", some (codes "core_tx"))
    ∷ (codes "consensusErrCh", some (codes "consensus"))
    ∷ (codes "replicaErrCh", some (codes "replica"))
    ∷ (codes "latencyErrCh", some (codes "validator_latency"))
    ∷ (codes "gossipErrCh", some (codes "gossip"))
    ∷ (codes "visorErrCh", some (codes "visor"))
    ∷ (codes "subsystemLatencyErrCh", some (codes "subsystem_latency"))
    ∷ (codes "critMsgErrCh", some (codes "crit_msg"))
    ∷ (codes "peerSetErrCh", some (codes "peer_set"))
    ∷ (codes "tcpTrafficErrCh", some (codes "tcp_traffic"))
    ∷ (codes "parentPeerErrCh", some (codes "parent_peer"))
    ∷ (codes "diskErrCh", some (codes "disk"))
    ∷ (codes "processErrCh", some (codes "process"))
    ∷ (codes "gossipConnectionsErrCh", some (codes "gossip_connections"))
    ∷ (codes "snapshotStatusErrCh", some (codes "snapshot_status"))
    ∷ (codes "nodeStateErrCh", some (codes "node_state"))
    ∷ (codes "infoProbeErrCh", some (codes "info_probe"))
    ∷ (codes "tcpLz4ErrCh", some (codes "tcp_lz4"))
    ∷ (codes "logLinesErrCh", some (codes "log_lines"))
    ∷ (codes "publicIPErrCh", some (codes "public_ip"))
    ∷ (codes "tokioErrCh", some (codes "tokio_runtime"))
    ∷ (codes "operatorConfigErrCh", some (codes "operator_config"))
    ∷ (codes "tmpDirErrCh", some (codes "tmp_dir"))
    ∷ (codes "tcpConnectionsErrCh", some (codes "tcp_connections"))
    ∷ (codes "replicaRunsErrCh", some (codes "replica_runs"))
    ∷ (codes "rocksDBErrCh", some (codes "rocksdb"))
    ∷ (codes "subsystemStepsErrCh", some (codes "subsystem_steps"))
    ∷ (codes "critLocationsErrCh", some (codes "crit_locations"))
    ∷ (codes "accumulatorConsensusErrCh", some (codes "accumulator_consensus"))
    ∷ (codes "replayErrCh", some (codes "replay"))
    ∷ (codes "mempoolErrCh", some (codes "mempool"))
    ∷ []

unfoldable pub names_of : List Launch → List Bytes
names_of [] = []
names_of (l ∷ ls) = let rest = names_of ls in if l.enabled then l.name ∷ rest else rest

-- What of `Start` is still to come, the goroutines that have not begun, and the health tracker.
pub record Exporter : Type 0 where
  pub to_launch : List Bytes
  pub waiting : List Bytes
  pub monitors : Monitors

unfoldable pub start : Config → Bool → Exporter
start cfg binary_ready = record {
  to_launch = names_of (run_monitor_calls cfg binary_ready);
  waiting = [];
  monitors = [];
}

unfoldable pub member : Bytes → List Bytes → Bool
member n [] = false
member n (x ∷ l) = let rest = member n l in ite (bytes_discrete n x) true rest

unfoldable pub remove_name : Bytes → List Bytes → List Bytes
remove_name n [] = []
remove_name n (x ∷ l) = let rest = remove_name n l in ite (bytes_discrete n x) l (x ∷ rest)

-- `runMonitor` up to the `go`.
unfoldable pub run_monitor : List Bytes → Exporter → Exporter
run_monitor [] e = e
run_monitor (name ∷ rest) e = record {
  to_launch = rest;
  waiting = name ∷ e.waiting;
  monitors = register_monitor name e.monitors;
}

-- The goroutine of `runMonitor` begins.
unfoldable pub begin_monitor : ℕ → Bytes → Exporter → Exporter
begin_monitor now name e = record e {
  waiting = remove_name name e.waiting;
  monitors = mark_monitor_started now name e.monitors;
}

-- The monitor that a message is charged to, if the loop reads the channel and knows one.
unfoldable pub receive_error : Option (Option Bytes) → Monitors → Monitors
receive_error (some (some name)) m = inc_monitor_error name m
receive_error _ m = m

-- `go_panic` is a panic that `runMonitor` or `goSafe` recovers, under the name it was given.
pub data Action : Type 0 where
  launch : Action
  begin : ℕ → Bytes → Action
  tick : ℕ → Bytes → Action
  go_panic : Bytes → Action
  error_from : Bytes → Action

-- The goroutines of a monitor run after its launch, and the loop over the error channels after all
-- launches. An action that cannot happen changes nothing.
unfoldable pub act : Action → Exporter → Exporter
act launch e = run_monitor e.to_launch e
act (begin now name) e = if member name e.waiting && ltb 0 now then begin_monitor now name e else e
act (tick now name) e =
    if member name e.to_launch
    then e
    else record e { monitors = mark_monitor_tick now name e.monitors }
act (go_panic name) e =
    if member name e.to_launch then e else record e { monitors = inc_monitor_panic name e.monitors }
act (error_from channel) e = elim e.to_launch [
  | [] ↦ record e {
    monitors = receive_error (lookup bytes_discrete channel error_cases) e.monitors;
  }
  | n ∷ ns ↦ e
]

unfoldable pub run : List Action → Exporter → Exporter
run [] e = e
run (a ∷ actions) e = run actions (act a e)
