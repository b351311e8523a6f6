-- ===== src/Server/Indicators.antt =====
-- ml_server/scorer/indicator_calculator.py. Normalised CPU load is counted in hundredths; `ml_steps`
-- is `int(abs(ml_weighted_score) * 5)`.
pub mod Bounds
pub mod Support
use inha_rada.Common.{
  ℕ, ◌+◌, ◌-◌, min, max, Bool, not, ◌&&◌, ◌||◌, leb, ◌==◌, if◌then◌else◌, pts, ℤ, pos, sub_ℕ,
}
use inha_rada.Server.Signals.{Signals}

-- What `sig_pack` holds beside the signals.
pub record Pack : Type 0 where
  pub ml_steps : ℕ
  pub top_cpu_norm : ℕ
  pub ext_truncated : Bool
  pub unique_remote_ip : ℕ
  -- `gpu_metrics_missing_reason` is given.
  pub gpu_missing : Bool

-- The policy's `scores` that the correlation reads.
pub record Weights : Type 0 where
  pub cpu_plus_net : ℕ
  pub disk_write_net_out : ℕ
  pub unknown_proc_net : ℕ
  pub appdata_net : ℕ
  pub mining_known : ℕ
  pub mining_pool_only : ℕ

pub record Indicators : Type 0 where
  pub gpu_mining : ℤ
  pub cpu_mining : ℤ
  pub stealth : ℤ
  pub exfil : ℕ
  pub process : ℕ
  pub dos : ℕ
  pub backdoor : ℕ
  pub mem : ℕ
  pub ml : ℕ
  pub breakdown_resource : ℕ
  pub breakdown_network : ℕ
  pub breakdown_process : ℕ
  pub breakdown_episode : ℕ
  pub breakdown_correlation : ℕ
  pub breakdown_ml : ℕ

-- The defaults of `_sc.get`.
abbrev pub default_weights : Weights
default_weights = record {
  cpu_plus_net = 2;
  disk_write_net_out = 5;
  unknown_proc_net = 5;
  appdata_net = 3;
  mining_known = 10;
  mining_pool_only = 8;
}

unfoldable pub gpu_mining_score : Signals → ℤ
gpu_mining_score s =
    sub_ℕ
      (pts s.gpu_high 1
        + pts s.gpu_flat 3
        + pts s.gpu_cpu_gap 3
        + pts s.net_external_high 1
        + pts s.mining_pool_ip 5
        + pts (s.tensor_inactive && s.vram_low) 3)
      (pts s.is_gaming 5)

unfoldable pub cpu_mining_score : Signals → ℤ
cpu_mining_score s =
    sub_ℕ
      (pts s.cpu_high 1
        + pts s.cpu_flat 3
        + pts (not s.gpu_high) 1
        + pts s.mining_pool_ip 5
        + pts (not s.gpu_active && s.cpu_high && s.cpu_flat) 2)
      (pts s.is_compiling 5 + pts s.is_gaming 3)

unfoldable pub stealth_score : Signals → ℤ
stealth_score s =
    if s.stealth_mismatch_power || s.stealth_mismatch_vram
    then sub_ℕ
        (pts s.stealth_mismatch_power 5
          + pts s.stealth_mismatch_vram 5
          + pts s.vram_stable 1
          + pts s.gpu_flat 1
          + pts s.power_stable 1)
        (pts s.is_gaming 3 + pts s.is_compiling 2)
    else pos 0

unfoldable pub process_score : Signals → ℕ
process_score s = pts s.known_miner 10 + pts s.persistent_miner 3 + pts s.temp_exec 1

unfoldable pub ml_score : ℕ → Signals → Pack → ℕ
ml_score ml_cap s p = pts s.ml_anomaly (min ml_cap (max 1 p.ml_steps))

unfoldable pub resource_points : Signals → Pack → ℕ
resource_points s p =
    pts s.cpu_high 1
    + pts s.cpu_flat 1
    + pts s.mem_high 1
    + pts s.mem_critical 1
    + pts (s.gpu_high && not p.gpu_missing) 1
    + (if leb 85 p.top_cpu_norm then 2 else if leb 60 p.top_cpu_norm then 1 else 0)

-- The signals beside which a spike counts.
unfoldable pub companions : Signals → ℕ
companions s =
    pts s.net_out_sustained 1
    + pts s.unknown_process_active 1
    + pts s.exec_path_suspicious 1
    + pts s.disk_write_net_out_sustained 1
    + pts s.new_remote_ip_burst 1
    + pts s.mining_process_or_pool 1

unfoldable pub network_points : Signals → Pack → ℕ
unfolding companions
network_points s p =
    if p.ext_truncated
    then 0
    else pts (s.spike_count_1m && leb 1 (companions s)) 1
      + pts s.net_out_sustained 2
      + pts s.outbound_spike 2
      + (if leb 12 p.unique_remote_ip then 2 else if leb 6 p.unique_remote_ip then 1 else 0)
      + pts s.new_remote_ip_burst 1

unfoldable pub process_points : Signals → ℕ
process_points s =
    pts s.known_miner 10 + pts s.persistent_miner 3 + pts s.temp_exec 1 + pts s.appdata_exec 1

unfoldable pub episode_points : Signals → ℕ
episode_points s = pts s.dos_spike 5 + pts s.persistent_ext 2

unfoldable pub correlation_points : Weights → Signals → ℕ
correlation_points w s =
    pts (s.cpu_high && s.net_out_sustained) w.cpu_plus_net
    + pts s.disk_write_net_out_sustained w.disk_write_net_out
    + pts (s.unknown_process_active && s.net_out_sustained) w.unknown_proc_net
    + pts (s.appdata_exec && s.net_out_sustained) w.appdata_net
    + pts s.mining_process_or_pool (if s.known_miner then w.mining_known else w.mining_pool_only)

-- A saturated ML score that no rule supports loses two points.
unfoldable pub ml_after_cap : ℕ → ℕ → ℕ → ℕ
ml_after_cap ml_cap score rule_corr_sum =
    let capped = min ml_cap score in
    if leb ml_cap capped && (rule_corr_sum == 0) then capped - 2 else capped

unfoldable pub calculate_indicators : ℕ → Weights → Signals → Pack → Indicators
unfolding gpu_mining_score cpu_mining_score stealth_score process_score ml_score resource_points
    network_points process_points episode_points correlation_points ml_after_cap
calculate_indicators ml_cap w s p =
    let resource = resource_points s p in
    let network = network_points s p in
    let process = process_points s in
    let episode = episode_points s in
    let correlation = correlation_points w s in
    let ml =
      ml_after_cap ml_cap (ml_score ml_cap s p)
        (resource + network + process + episode + correlation) in
    record {
      gpu_mining = gpu_mining_score s;
      cpu_mining = cpu_mining_score s;
      stealth = stealth_score s;
      exfil = pts s.outbound_spike 5 + pts s.net_external_high 1;
      process = process_score s;
      dos = pts s.dos_spike 5;
      backdoor = 0;
      mem = pts s.mem_critical 1 + pts (s.mem_high && not s.cpu_high) 1;
      ml = ml;
      breakdown_resource = resource;
      breakdown_network = network;
      breakdown_process = process;
      breakdown_episode = episode;
      breakdown_correlation = correlation;
      breakdown_ml = ml;
    }
