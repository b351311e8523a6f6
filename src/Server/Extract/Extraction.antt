-- ===== src/Server/Extract/Extraction.antt =====
-- `extract_signals` of ml_server/scorer/signal_extractor.py.
use inha_rada.Common.{
  ℕ, zero, suc, ◌*◌, max, Bool, true, false, not, ◌&&◌, ◌||◌, Option, none, some, List, [], ◌∷◌,
  ◌++◌, map, ltb, leb, ◌==◌, if◌then◌else◌, length, any, ℤ, negsuc, ltb_ℤ,
}
use inha_rada.Server.Signals.{Signals, mask_missing}
use inha_rada.Server.Extract.Sample.{
  Texts, Slot, Gpu, Metrics, Past, Lists, Allow, DosDetection, effective_whitelist,
}
use inha_rada.Server.Extract.Statistics.{
  Mean, nought, mean, at_least, under, stdev_under, values, truthy,
}
use inha_rada.Server.Extract.Processes.{
  runs_any, known_miners, is_temp_exec, is_appdata_exec, is_unknown_active, persistent_miner,
}
use inha_rada.Server.Extract.Network.{
  all_external_to_infra, is_pool, suspicious_owner, dos_streak, dos_spike, outbound_spike,
  net_out_sustained,
}
use inha_rada.Server.Extract.Recreation.{detect_process_recreation}

-- The texts of `signals_missing`.
pub data Category : Type 0 where
  network process derived_features gpu_partial : Category

-- What is computed from the GPU and its history.
pub record GpuSignals : Type 0 where
  pub gpu_pct : ℕ
  pub gpu_active : Bool
  pub gpu_flat : Bool
  pub vram_low : Bool
  pub vram_stable : Bool
  pub power_stable : Bool
  pub tensor_inactive : Bool
  pub sm_high : Bool
  pub stealth_mismatch_power : Bool
  pub stealth_mismatch_vram : Bool

-- `x or 8192.0`
unfoldable pub or_8192 : ℕ → ℕ
or_8192 zero = 8_192_000
or_8192 (suc n) = suc n

-- The values, if there are twelve.
unfoldable pub twelve : List ℕ → Option (List ℕ)
twelve vs = if leb 12 (length vs) then some vs else none

unfoldable pub steady : Option (List ℕ) → ℕ → Bool
unfolding stdev_under
steady none d = false
steady (some vs) d = stdev_under vs d

unfoldable pub mean_at_least : Option (List ℕ) → ℕ → Bool
unfolding at_least mean
mean_at_least none n = false
mean_at_least (some vs) n = at_least (mean vs) n

unfoldable pub mean_under : Option (List ℕ) → ℕ → Bool
unfolding under mean
mean_under none n = false
mean_under (some vs) n = under (mean vs) n

module _ {Text : Type 0} where
  -- `len(history_list) >= 12`
  unfoldable pub has_history : List (Past Text) → Bool
  has_history hs = leb 12 (length hs)

  -- The values of a key, if there is a history and enough of them.
  unfoldable pub recent : (Past Text → Option ℕ) → List (Past Text) → Option (List ℕ)
  unfolding has_history twelve values
  recent key hs = if has_history hs then twelve (values key hs) else none

  unfoldable pub mean_of : (Past Text → ℕ) → List (Past Text) → Mean
  unfolding has_history mean
  mean_of key hs = if has_history hs then mean (map key hs) else nought

  unfoldable pub gpu_signals : Option Gpu → List (Past Text) → GpuSignals
  gpu_signals none hs = record {
    gpu_pct = 0;
    gpu_active = false;
    gpu_flat = false;
    vram_low = false;
    vram_stable = false;
    power_stable = false;
    tensor_inactive = false;
    sm_high = false;
    stealth_mismatch_power = false;
    stealth_mismatch_vram = false;
  }
  gpu_signals (some g) hs =
      let gpu_vals = recent (λ h. h.gpu_percent) hs in
      let power_vals = recent (λ h. truthy h.gpu_power_w) hs in
      let active = leb 30_000 g.load_percent in
      let total = or_8192 g.memory_total_mb in
      record {
        gpu_pct = g.load_percent;
        gpu_active = active;
        gpu_flat = steady gpu_vals 5000 && active;
        vram_low = ltb (10 * g.memory_used_mb) (3 * total) && active;
        vram_stable = steady (recent (λ h. h.gpu_vram_mb) hs) 50_000 && active;
        power_stable = steady power_vals 10_000 && active && mean_at_least power_vals 60_000;
        tensor_inactive = elim g.tensor_core_active [ none ↦ false | some t ↦ t == 0 && active ];
        sm_high = elim g.sm_utilization [ none ↦ false | some u ↦ leb 70_000 u ];
        stealth_mismatch_power = mean_at_least power_vals 80_000 && mean_under gpu_vals 30_000;
        stealth_mismatch_vram =
            ltb (7 * total) (10 * g.memory_used_mb) && ltb g.load_percent 20_000;
      }

  -- `_cores`
  unfoldable pub cores : Metrics Text → ℕ
  cores m =
      max
        (if m.cpu_core_count == 0
          then elim m.derived.per_core_length [ none ↦ 1 | some n ↦ n ]
          else m.cpu_core_count)
        1

-- What `extract_signals` is given beside the sample and the history: the lists, the policy, the
-- slot, the score of the models in thousandths and the streak that is stored of the PC.
pub record Surroundings (Text : Type 0) : Type 0 where
  pub texts : Texts Text
  pub lists : Lists Text
  pub allow : Option (Allow Text)
  pub dos_detection : DosDetection
  pub slot : Slot
  pub ml_weighted_score : ℤ
  pub streak : ℕ

module _ {Text : Type 0} where
  -- The signals before the masks.
  unfoldable pub raw_signals : Surroundings Text → Metrics Text → List (Past Text) → Signals
  raw_signals e m hs =
      let tx = e.texts in
      let whitelist = effective_whitelist tx e.lists e.allow in
      let infra = all_external_to_infra tx e.allow m.external_connections in
      let g = gpu_signals m.gpu hs in
      let avg_outbound = mean_of (λ h. h.outbound_mb) hs in
      let sustained = net_out_sustained avg_outbound m.outbound_mb in
      let miner = any (λ p. true) (known_miners tx e.lists whitelist m.top_processes) in
      let pool = any (is_pool tx e.lists) m.external_connections in
      let temp = any (is_temp_exec tx e.lists whitelist) m.top_processes in
      let appdata = any (is_appdata_exec tx e.lists whitelist) m.top_processes in
      let unique = m.derived.unique_remote_ip_count in
      let many = leb 8 m.external_packet_count in
      record {
        is_gaming = runs_any tx e.lists whitelist e.lists.game_render_processes m.top_processes;
        is_compiling =
            runs_any tx e.lists whitelist e.lists.compile_encode_processes m.top_processes;
        gpu_active = g.gpu_active;
        gpu_high = leb 70_000 g.gpu_pct;
        gpu_flat = g.gpu_flat;
        gpu_cpu_gap = leb 70_000 g.gpu_pct && ltb m.cpu_percent 20_000;
        vram_low = g.vram_low;
        vram_stable = g.vram_stable;
        power_stable = g.power_stable;
        tensor_inactive = g.tensor_inactive;
        sm_high = g.sm_high;
        stealth_mismatch_power = g.stealth_mismatch_power;
        stealth_mismatch_vram = g.stealth_mismatch_vram;
        cpu_high = leb 80_000 m.cpu_percent;
        cpu_flat =
            has_history hs
            && stdev_under (map (λ h. h.cpu_percent) hs) 5000
            && leb 60_000 m.cpu_percent;
        mem_critical = leb 95_000 m.memory_percent;
        mem_high = leb 85_000 m.memory_percent;
        net_external_high = many && not infra;
        mining_pool_ip = pool;
        outbound_spike = outbound_spike avg_outbound m.outbound_mb && not infra;
        dos_spike =
            dos_spike e.dos_detection (mean_of (λ h. h.inbound_mb) hs) e.slot m.inbound_mb e.streak;
        known_miner = miner;
        temp_exec = temp;
        appdata_exec = appdata;
        exec_path_suspicious = temp || appdata;
        unknown_process_active = any (is_unknown_active tx e.lists whitelist) m.top_processes;
        persistent_miner =
            persistent_miner tx e.lists whitelist (has_history hs) m.top_processes hs;
        persistent_ext = at_least (mean_of (λ h. h.external_packet_count) hs) 8 && not infra;
        ml_anomaly = ltb_ℤ e.ml_weighted_score (negsuc 99);
        net_out_sustained = sustained && not infra;
        disk_write_net_out_sustained = leb 1000 m.disk_write_mb && sustained && not infra;
        new_remote_ip_burst = leb 8 unique && ltb m.derived.duplicate_connection_count unique;
        mining_process_or_pool = miner || pool;
        spike_count_1m = many && not infra;
        external_conn_suspicious_owner =
            any (suspicious_owner tx e.lists whitelist) m.external_connections;
        single_core_full =
            leb 90_000 m.derived.single_core_max_percent && leb (m.cpu_percent * cores m) 200_000;
        process_recreation = detect_process_recreation tx whitelist (map (λ h. h.top_processes) hs);
      }

  -- The signals, and the streak that is stored.
  unfoldable pub extract_signals : Surroundings Text → Metrics Text → List (Past Text) → Signals × ℕ
  unfolding raw_signals
  extract_signals e m hs = (
    mask_missing m.derived.has_network_missing m.derived.has_process_missing (raw_signals e m hs),
    dos_streak e.dos_detection (mean_of (λ h. h.inbound_mb) hs) e.slot m.inbound_mb e.streak,
  )

  -- `signals_missing`
  unfoldable pub signals_missing : Metrics Text → List Category
  signals_missing m =
      (if m.derived.has_network_missing then network ∷ [] else [])
      ++ ((if m.derived.has_process_missing then process ∷ [] else [])
          ++ ((if m.derived.has_derived_missing then derived_features ∷ [] else []) ++ elim m.gpu [
            | none ↦ []
            | some g ↦ if g.has_partial_failure then gpu_partial ∷ [] else []
          ]))
