-- ===== src/Tests/Extract.antt =====
-- The theorems on the extraction of signals at concrete inputs. Texts are numbers.
use inha_rada.Common.{
  ℕ, ◌≤◌, ◌≡◌, refl, ◌↔◌, true, false, none, some, [], ◌∷◌, arith, ◌==◌, replicate, All, pos,
}
use inha_rada.Server.Indicators.{default_weights, calculate_indicators}
use inha_rada.Server.Extract.Sample.{Texts, free, Derived, Metrics, Past, Lists, Allow}
use inha_rada.Server.Extract.Extraction.{Surroundings, extract_signals}
use inha_rada.Server.Extract.ColdStart.{IsCold, extract_signals-IsCold}
use inha_rada.Server.Extract.Streak.{Request, given, streak_of, IsHit, extract_signals-dos_spike}
use inha_rada.Server.Extract.Infra.{extract_signals-infra}
use inha_rada.Tests.Samples.{pack}

abbrev texts : Texts ℕ
texts = record {
  same = λ a b. a == b;
  lower = λ a. a;
  contains = λ needle a. needle == a;
  starts_with = λ prefix a. prefix == a;
  is_empty = λ a. a == 0;
  appdata = 1;
  appdata_temp = 2;
}

abbrev lists : Lists ℕ
lists = record {
  game_render_processes = 10 ∷ [];
  compile_encode_processes = 11 ∷ [];
  mining_processes = 12 ∷ [];
  mining_pool_ips = [];
  suspicious_paths = 2 ∷ [];
  whitelist_processes = 13 ∷ [];
}

abbrev allow : Allow ℕ
allow = record { whitelist_processes = []; agent_processes = 14 ∷ []; infra_ips = 77 ∷ [] }

abbrev home : Surroundings ℕ
home = record {
  texts = texts;
  lists = lists;
  allow = some allow;
  dos_detection = record { min_inbound_mb_per_5s = 5000; min_sustained_count = 2 };
  slot = free;
  ml_weighted_score = pos 0;
  streak = 0;
}

abbrev derived : Derived
derived = record {
  unique_remote_ip_count = 1;
  duplicate_connection_count = 0;
  single_core_max_percent = 20_000;
  per_core_length = some 8;
  has_network_missing = false;
  has_process_missing = false;
  has_derived_missing = false;
}

-- A PC that downloads 40 MB and talks to the server alone.
abbrev download : Metrics ℕ
download = record {
  cpu_percent = 30_000;
  cpu_core_count = 8;
  memory_percent = 40_000;
  disk_write_mb = 0;
  inbound_mb = 40_000;
  outbound_mb = 9000;
  external_packet_count = 9;
  external_connections = record { ip = 77; proc_path = 0; proc_name = 13 } ∷ [];
  top_processes = record { name = 13; path = 3; cpu_percent = 20_000; pid = some 4 } ∷ [];
  gpu = none;
  derived = derived;
}

abbrev calm_past : Past ℕ
calm_past = record {
  cpu_percent = 20_000;
  gpu_percent = none;
  gpu_vram_mb = none;
  gpu_power_w = none;
  inbound_mb = 1000;
  outbound_mb = 20;
  external_packet_count = 1;
  top_processes = [];
}

abbrev spike : Request ℕ
spike = record { metrics = download; history = replicate 12 calm_past; slot = free }

extract_signals-IsCold_example :
    IsCold (extract_signals home download (replicate 3 calm_past)).0
    × ((extract_signals home download (replicate 3 calm_past)).1 ≡ 0)
extract_signals-IsCold_example =
    extract_signals-IsCold home download (replicate 3 calm_past) (omega arith)

-- The second of two spikes is the first to be reported.
extract_signals-dos_spike_example :
    ((extract_signals
        (given home spike (streak_of home (spike ∷ [])))
        download
        (replicate 12 calm_past)).0.dos_spike
      ≡ true)
    ↔ ((false ≡ false) × (2 ≤ 2) × All (IsHit home) (spike ∷ spike ∷ []))
extract_signals-dos_spike_example = extract_signals-dos_spike home 1 spike (spike ∷ []) refl

extract_signals-infra_example :
    ((calculate_indicators 3 default_weights
        (extract_signals home download (replicate 12 calm_past)).0
        pack).exfil
      ≡ 0)
    × ((calculate_indicators 3 default_weights
          (extract_signals home download (replicate 12 calm_past)).0
          pack).breakdown_network
        ≤ 3)
    × ((calculate_indicators 3 default_weights
          (extract_signals home download (replicate 12 calm_past)).0
          pack).breakdown_episode
        ≤ 5)
extract_signals-infra_example =
    extract_signals-infra home download (replicate 12 calm_past) allow 77 []
      (record { ip = 77; proc_path = 0; proc_name = 13 }) [] 3 default_weights pack refl refl refl
      ((refl, refl), tt)
