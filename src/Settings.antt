-- ===== src/Settings.antt =====
-- internal/config/config.go: `LoadConfig`. The environment is an argument; a variable that is not
-- set is the empty string. `none` is the panic at a nil pointer.
mod Tests
use hyperliquid_exporter.Base.{
  ◌≡◌, refl, ◌++◌, ap, ◌∙◌, Bool, true, false, not, Option, none, some, [], ◌∷◌, Bytes, codes, ℕ,
  ◌==◌, if◌then◌else◌, arith,
}

pub record Config : Type 0 where
  pub node_home : Bytes
  pub node_binary : Bytes
  pub chain : Bytes
  pub enable_evm : Bool
  pub enable_contract_metrics : Bool
  pub contract_metrics_limit : ℕ
  pub evm_block_type_metrics : Bool
  pub enable_core_tx_metrics : Bool
  pub use_live_state : Bool
  pub live_state_check_interval : ℕ
  pub enable_replica_metrics : Bool
  pub replica_data_dir : Bytes
  pub replica_buffer_size : ℕ
  pub enable_validator_rtt : Bool
  pub metrics_addr : Bytes
  pub log_level : Bytes
  pub log_format : Bytes
  pub skip_version_check : Bool
  pub skip_update_check : Bool
  pub probe_info_endpoint : Bool
  pub info_endpoint_url : Bytes
  pub enable_extended_metrics : Bool
  pub enable_per_peer_metrics : Bool

-- `enable_validator_rtt` is a pointer: `none` is not set.
pub record Flags : Type 0 where
  pub node_home : Bytes
  pub node_binary : Bytes
  pub chain : Bytes
  pub enable_evm : Bool
  pub enable_contract_metrics : Bool
  pub contract_metrics_limit : ℕ
  pub evm_block_type_metrics : Bool
  pub enable_core_tx_metrics : Bool
  pub use_live_state : Bool
  pub enable_replica_metrics : Bool
  pub replica_data_dir : Bytes
  pub replica_buffer_size : ℕ
  pub enable_validator_rtt : Option Bool
  pub metrics_addr : Bytes
  pub log_level : Bytes
  pub log_format : Bytes
  pub skip_version_check : Bool
  pub skip_update_check : Bool
  pub probe_info_endpoint : Bool
  pub info_endpoint_url : Bytes
  pub enable_extended_metrics : Bool
  pub enable_per_peer_metrics : Bool

pub record Environment : Type 0 where
  pub home : Bytes
  pub node_home : Bytes
  pub binary_home : Bytes
  pub node_binary : Bytes

unfoldable pub or_default : Bytes → Bytes → Bytes
or_default [] default = default
or_default (b ∷ bs) default = b ∷ bs

unfoldable pub base_config : Environment → Flags → Config
base_config env flags =
    let node_home = or_default env.node_home (env.home ++ codes "/hl") in
    record {
      node_home = node_home;
      node_binary =
          or_default env.node_binary (or_default env.binary_home env.home ++ codes "/hl-node");
      replica_data_dir = node_home ++ codes "/data/replica_cmds";
      replica_buffer_size = 8;
      enable_validator_rtt = false;
      live_state_check_interval = 5000000000;
      chain = flags.chain;
      enable_evm = flags.enable_evm;
      enable_contract_metrics = flags.enable_contract_metrics;
      contract_metrics_limit = flags.contract_metrics_limit;
      evm_block_type_metrics = flags.evm_block_type_metrics;
      enable_core_tx_metrics = flags.enable_core_tx_metrics;
      use_live_state = flags.use_live_state;
      enable_replica_metrics = flags.enable_replica_metrics;
      metrics_addr = flags.metrics_addr;
      log_level = flags.log_level;
      log_format = flags.log_format;
      skip_version_check = flags.skip_version_check;
      skip_update_check = flags.skip_update_check;
      probe_info_endpoint = flags.probe_info_endpoint;
      info_endpoint_url = flags.info_endpoint_url;
      enable_extended_metrics = flags.enable_extended_metrics;
      enable_per_peer_metrics = flags.enable_per_peer_metrics;
    }

-- The branches that only assign a flag to a field that has another value leave the flag's value.
unfoldable pub override : Flags → Config → Config
override flags config = record config {
  node_home = or_default flags.node_home config.node_home;
  node_binary = or_default flags.node_binary config.node_binary;
  chain = or_default flags.chain config.chain;
  enable_contract_metrics = flags.enable_contract_metrics;
  contract_metrics_limit = flags.contract_metrics_limit;
  evm_block_type_metrics = config.enable_evm;
  enable_core_tx_metrics = flags.enable_core_tx_metrics;
  use_live_state = flags.use_live_state;
  enable_replica_metrics = flags.enable_replica_metrics;
  enable_validator_rtt = elim flags.enable_validator_rtt [
    | none ↦ config.enable_validator_rtt
    | some b ↦ b
  ];
}

unfoldable pub load_config : Environment → Option Flags → Option Config
load_config env none = none
load_config env (some flags) = some (override flags (base_config env flags))
