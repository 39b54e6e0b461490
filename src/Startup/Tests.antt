-- ===== src/Startup/Tests.antt =====
-- Starts of the exporter, and the theorems at such inputs.
use mathlib.Core.List.{lookup}
use hyperliquid_exporter.Base.Dict.{insert}
use hyperliquid_exporter.Health.{
  register_monitor, get_or_create, mark_monitor_started, mark_monitor_tick, inc_monitor_panic,
  inc_monitor_error, all_started, ready,
}
use hyperliquid_exporter.Settings.{Config}
use hyperliquid_exporter.Startup.{
  run_monitor_calls, names_of, start, member, remove_name, run_monitor, begin_monitor,
  receive_error, Action, launch, begin, go_panic, error_from, act, run,
}
use hyperliquid_exporter.Startup.Invariant.{any_of}
use hyperliquid_exporter.Startup.Readiness.{finish, ready-run, ready-finish}
use hyperliquid_exporter.Base.{
  ◌≡◌, refl, true, false, List, [], ◌∷◌, ◌++◌, arith, codes, bytes_discrete, length, ℕ_discrete,
}

program : Unit {0}
unfolding lookup insert register_monitor get_or_create mark_monitor_started mark_monitor_tick
    inc_monitor_panic inc_monitor_error all_started ready run_monitor_calls names_of start member
    remove_name run_monitor begin_monitor receive_error act run any_of bytes_discrete ℕ_discrete
program = tt

abbrev config : Config
config = record {
  node_home = codes "/home/hl";
  node_binary = codes "/home/hl-node";
  chain = codes "mainnet";
  enable_evm = true;
  enable_contract_metrics = false;
  contract_metrics_limit = 20;
  evm_block_type_metrics = false;
  enable_core_tx_metrics = true;
  use_live_state = false;
  live_state_check_interval = 0;
  enable_replica_metrics = false;
  replica_data_dir = [];
  replica_buffer_size = 8;
  enable_validator_rtt = false;
  metrics_addr = codes ":8086";
  log_level = codes "info";
  log_format = codes "text";
  skip_version_check = true;
  skip_update_check = false;
  probe_info_endpoint = false;
  info_endpoint_url = [];
  enable_extended_metrics = false;
  enable_per_peer_metrics = false;
}

-- The second launch comes before the first goroutine begins, and a panic is in between.
abbrev actions : List Action
actions =
    launch
    ∷ launch
    ∷ begin 7 (codes "validator_api")
    ∷ go_panic (codes "validator_api")
    ∷ error_from (codes "blockErrCh")
    ∷ []

still_waiting : (run actions (start config false)).waiting ≡ codes "block" ∷ []
unfolding program
still_waiting = refl

-- With the first monitors begun, `/ready` answers yes while launches are left.
early :
    let e = run (actions ++ begin 8 (codes "block") ∷ []) (start config false) in
    (ready e.monitors ≡ true) × (length e.to_launch ≡ 24)
unfolding program
early = (refl, refl)

ready-run_example : ready (run actions (start config false)).monitors ≡ false
unfolding program
ready-run_example = ready-run config false actions

ready-finish_example :
    let e = run actions (start config false) in ready (run (finish 9 e) e).monitors ≡ true
ready-finish_example = ready-finish config false actions 9 (omega arith)
