-- ===== src/Server/Signals.antt =====
-- The dictionary `signals` of ml_server/scorer/signal_extractor.py, and its masks for what was not
-- collected.
use inha_rada.Common.{Bool, false, if◌then◌else◌}

pub record Signals : Type 0 where
  pub is_gaming : Bool
  pub is_compiling : Bool
  pub gpu_active : Bool
  pub gpu_high : Bool
  pub gpu_flat : Bool
  pub gpu_cpu_gap : Bool
  pub vram_low : Bool
  pub vram_stable : Bool
  pub power_stable : Bool
  pub tensor_inactive : Bool
  pub sm_high : Bool
  pub stealth_mismatch_power : Bool
  pub stealth_mismatch_vram : Bool
  pub cpu_high : Bool
  pub cpu_flat : Bool
  pub mem_critical : Bool
  pub mem_high : Bool
  pub net_external_high : Bool
  pub mining_pool_ip : Bool
  pub outbound_spike : Bool
  pub dos_spike : Bool
  pub known_miner : Bool
  pub temp_exec : Bool
  pub appdata_exec : Bool
  pub exec_path_suspicious : Bool
  pub unknown_process_active : Bool
  pub persistent_miner : Bool
  pub persistent_ext : Bool
  pub ml_anomaly : Bool
  pub net_out_sustained : Bool
  pub disk_write_net_out_sustained : Bool
  pub new_remote_ip_burst : Bool
  pub mining_process_or_pool : Bool
  pub spike_count_1m : Bool
  pub external_conn_suspicious_owner : Bool
  pub single_core_full : Bool
  pub process_recreation : Bool

-- The keys locked to false when the network was not collected.
unfoldable pub mask_network : Signals → Signals
mask_network s = record s {
  net_external_high = false;
  mining_pool_ip = false;
  outbound_spike = false;
  dos_spike = false;
  persistent_ext = false;
  net_out_sustained = false;
  disk_write_net_out_sustained = false;
  new_remote_ip_burst = false;
  spike_count_1m = false;
  external_conn_suspicious_owner = false;
}

-- The keys locked to false when the processes were not collected.
unfoldable pub mask_process : Signals → Signals
mask_process s = record s {
  known_miner = false;
  temp_exec = false;
  appdata_exec = false;
  exec_path_suspicious = false;
  unknown_process_active = false;
  persistent_miner = false;
  mining_process_or_pool = false;
  process_recreation = false;
}

-- Both masks, under the flags `network_missing_reason` and `process_missing_reason`.
unfoldable pub mask_missing : Bool → Bool → Signals → Signals
unfolding mask_network mask_process
mask_missing network process s =
    let s' = if network then mask_network s else s in if process then mask_process s' else s'
