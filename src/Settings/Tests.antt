-- ===== src/Settings/Tests.antt =====
-- Runs of internal/config/config.go.
use hyperliquid_exporter.Settings.{
  Flags, Environment, or_default, base_config, override, load_config,
}
use hyperliquid_exporter.Base.{◌≡◌, true, false, none, some, [], ◌∷◌, refl, codes}

abbrev flags : Flags
flags = record {
  node_home = codes "/data/hl";
  node_binary = [];
  chain = [];
  enable_evm = true;
  enable_contract_metrics = false;
  contract_metrics_limit = 0;
  evm_block_type_metrics = false;
  enable_core_tx_metrics = false;
  use_live_state = false;
  enable_replica_metrics = false;
  replica_data_dir = [];
  replica_buffer_size = 0;
  enable_validator_rtt = none;
  metrics_addr = [];
  log_level = [];
  log_format = [];
  skip_version_check = false;
  skip_update_check = false;
  probe_info_endpoint = false;
  info_endpoint_url = [];
  enable_extended_metrics = false;
  enable_per_peer_metrics = false;
}

abbrev environment : Environment
environment = record {
  home = codes "/root";
  node_home = [];
  binary_home = codes "/bin";
  node_binary = [];
}

-- The node home follows the flag, and the replica directory the environment.
homes :
    elim (load_config environment (some flags)) [
      | none ↦ []
      | some config ↦ config.node_home ∷ config.replica_data_dir ∷ []
    ]
    ≡ codes "/data/hl" ∷ codes "/root/hl/data/replica_cmds" ∷ []
unfolding load_config override base_config or_default
homes = refl
