-- ===== src/Tests/Samples.antt =====
-- The samples and the policy of the tests.
use inha_rada.Common.{
  ℕ, ◌+◌, true, false, none, some, List, [], ◌∷◌, ◌++◌, arith, ℤ, pos, negsuc, ◌≤ℤ◌,
}
use inha_rada.Server.Aggregates.{Host, Snapshot}
use inha_rada.Server.Signals.{Signals}
use inha_rada.Server.Indicators.{Pack}
use inha_rada.Server.Context.{
  Label, startup, security_scan, maintenance_update, lab_agent, class_or_free, other_key,
  ContextPolicy,
}

-- A miner that the processes give away.
abbrev pub calm : Signals
calm = record {
  is_gaming = false;
  is_compiling = false;
  gpu_active = false;
  gpu_high = false;
  gpu_flat = false;
  gpu_cpu_gap = false;
  vram_low = false;
  vram_stable = false;
  power_stable = false;
  tensor_inactive = false;
  sm_high = false;
  stealth_mismatch_power = false;
  stealth_mismatch_vram = false;
  cpu_high = false;
  cpu_flat = false;
  mem_critical = false;
  mem_high = false;
  net_external_high = false;
  mining_pool_ip = false;
  outbound_spike = false;
  dos_spike = false;
  known_miner = false;
  temp_exec = false;
  appdata_exec = false;
  exec_path_suspicious = false;
  unknown_process_active = false;
  persistent_miner = false;
  persistent_ext = false;
  ml_anomaly = false;
  net_out_sustained = false;
  disk_write_net_out_sustained = false;
  new_remote_ip_burst = false;
  mining_process_or_pool = false;
  spike_count_1m = false;
  external_conn_suspicious_owner = false;
  single_core_full = false;
  process_recreation = false;
}

abbrev pub miner : Signals
miner = record calm { known_miner = true; mining_process_or_pool = true; cpu_high = true }

-- Only a burst of connections.
abbrev pub spike : Signals
spike = record calm { spike_count_1m = true; net_external_high = true }

abbrev pub pack : Pack
pack = record {
  ml_steps = 0;
  top_cpu_norm = 70;
  ext_truncated = false;
  unique_remote_ip = 7;
  gpu_missing = false;
}

abbrev pub discounts : Label → ℤ
discounts startup = negsuc 0
discounts security_scan = negsuc 1
discounts maintenance_update = negsuc 1
discounts lab_agent = negsuc 0
discounts class_or_free = negsuc 0
discounts (other_key s) = pos 0

abbrev pub context : ContextPolicy
context = record {
  context_discounts = discounts;
  max_context_discount = negsuc 3;
  danger_override = negsuc 0;
}

pub lowers : (l : Label) → discounts l ≤ℤ pos 0
lowers startup = omega arith
lowers security_scan = omega arith
lowers maintenance_update = omega arith
lowers lab_agent = omega arith
lowers class_or_free = omega arith
lowers (other_key s) = omega arith

-- Means that take the first value, and three samples of one minute.
abbrev pub first : List ℕ → ℕ
first [] = 0
first (x ∷ xs) = x

abbrev pub host : Host ℕ ℕ
host = record {
  nought = 0;
  plus = λ x y. x + y;
  mean = first;
  stdev = λ l. 1;
  largest = first;
  add_endpoint = λ l x. l ++ x ∷ [];
}

abbrev pub sample : ℕ → Snapshot ℕ ℕ
sample t = record {
  timestamp = t;
  cpu_percent = some 95;
  gpu_percent = none;
  gpu_power_w = none;
  outbound_mb = some 2;
  inbound_mb = some 0;
  gpu_vram_mb = none;
  memory_used_gb = some 3;
  disk_read_mb = some 0;
  disk_write_mb = none;
  user_idle_ms = some 0;
  external_endpoints = 8 ∷ [];
}

abbrev pub samples : List (Snapshot ℕ ℕ)
samples = sample 60_000 ∷ sample 65_000 ∷ sample 70_000 ∷ []
