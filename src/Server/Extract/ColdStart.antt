-- ===== src/Server/Extract/ColdStart.antt =====
-- What ml_server/scorer/signal_extractor.py says of a PC with a short history.
use inha_rada.Common.{
  ℕ, ◌<◌, ◌≡◌, refl, Bool, true, false, ◌&&◌, Option, none, some, List, arith, leb, lt→leb_false,
  length,
}
use inha_rada.Server.Signals.{Signals, mask_network, mask_process, mask_missing}
use inha_rada.Server.Extract.Sample.{Slot, Gpu, Metrics, Past, DosDetection}
use inha_rada.Server.Extract.Statistics.{nought, at_least, above}
use inha_rada.Server.Extract.Processes.{persistent_miner}
use inha_rada.Server.Extract.Network.{
  dos_hit, dos_streak, dos_spike, outbound_spike, net_out_sustained,
}
use inha_rada.Server.Extract.Extraction.{
  GpuSignals, steady, mean_at_least, has_history, recent, mean_of, gpu_signals, Surroundings,
  raw_signals, extract_signals,
}

-- No signal that compares the sample with the history.
pub record IsCold (s : Signals) : Type 0 where
  pub gpu_flat : s.gpu_flat ≡ false
  pub vram_stable : s.vram_stable ≡ false
  pub power_stable : s.power_stable ≡ false
  pub stealth_mismatch_power : s.stealth_mismatch_power ≡ false
  pub cpu_flat : s.cpu_flat ≡ false
  pub outbound_spike : s.outbound_spike ≡ false
  pub dos_spike : s.dos_spike ≡ false
  pub persistent_miner : s.persistent_miner ≡ false
  pub persistent_ext : s.persistent_ext ≡ false
  pub net_out_sustained : s.net_out_sustained ≡ false
  pub disk_write_net_out_sustained : s.disk_write_net_out_sustained ≡ false

mask_missing-IsCold : (n p : Bool) (s : Signals) → IsCold s → IsCold (mask_missing n p s)
unfolding mask_missing mask_network mask_process
mask_missing-IsCold true true s c = ground arith
mask_missing-IsCold true false s c = ground arith
mask_missing-IsCold false true s c = ground arith
mask_missing-IsCold false false s c = c

and_false : (a b : Bool) → (a && false && b) ≡ false
and_false true b = refl
and_false false b = refl

dos_hit_cold : (dd : DosDetection) (slot : Slot) (x : ℕ) → dos_hit dd nought slot x ≡ false
unfolding dos_hit above
dos_hit_cold dd slot x = refl

dos_spike_cold : (dd : DosDetection) (slot : Slot) (x n : ℕ) → dos_spike dd nought slot x n ≡ false
unfolding dos_spike
dos_spike_cold dd slot x n = rw (dos_hit_cold dd slot x)

dos_streak_cold : (dd : DosDetection) (slot : Slot) (x n : ℕ) → dos_streak dd nought slot x n ≡ 0
unfolding dos_streak
dos_streak_cold dd slot x n = refl

outbound_spike_cold : (x : ℕ) → outbound_spike nought x ≡ false
unfolding outbound_spike above
outbound_spike_cold x = refl

net_out_sustained_cold : (x : ℕ) → net_out_sustained nought x ≡ false
unfolding net_out_sustained above
net_out_sustained_cold x = refl

at_least_cold : at_least nought 8 ≡ false
unfolding at_least
at_least_cold = refl

module _ {Text : Type 0} (hs : List (Past Text)) (short : leb 12 (length hs) ≡ false) where
  has_history_cold : has_history hs ≡ false
  unfolding has_history
  has_history_cold = short

  recent_cold : (key : Past Text → Option ℕ) → recent key hs ≡ none
  unfolding recent
  recent_cold key = rw has_history_cold

  mean_of_cold : (key : Past Text → ℕ) → mean_of key hs ≡ nought
  unfolding mean_of
  mean_of_cold key = rw has_history_cold

  -- The GPU's signals of a short history.
  record IsColdGpu (g : GpuSignals) : Type 0 where
    flat : g.gpu_flat ≡ false
    vram : g.vram_stable ≡ false
    power : g.power_stable ≡ false
    mismatch : g.stealth_mismatch_power ≡ false

  gpu_signals_cold : (g : Option Gpu) → IsColdGpu (gpu_signals g hs)
  unfolding gpu_signals steady mean_at_least
  gpu_signals_cold none = record { flat = refl; vram = refl; power = refl; mismatch = refl }
  gpu_signals_cold (some g) = record {
    flat = rw (recent_cold _);
    vram = rw (recent_cold _);
    power = rw (recent_cold _);
    mismatch = rw (recent_cold _);
  }

  raw_signals-IsCold : (e : Surroundings Text) (m : Metrics Text) → IsCold (raw_signals e m hs)
  unfolding raw_signals persistent_miner
  raw_signals-IsCold e m =
      let g = gpu_signals_cold m.gpu in
      record {
        gpu_flat = g.flat;
        vram_stable = g.vram;
        power_stable = g.power;
        stealth_mismatch_power = g.mismatch;
        cpu_flat = rw has_history_cold;
        outbound_spike = rw (mean_of_cold (λ h. h.outbound_mb), outbound_spike_cold m.outbound_mb);
        dos_spike = rw (
          mean_of_cold (λ h. h.inbound_mb),
          dos_spike_cold e.dos_detection e.slot m.inbound_mb e.streak,
        );
        persistent_miner = rw has_history_cold;
        persistent_ext = rw (mean_of_cold (λ h. h.external_packet_count), at_least_cold);
        net_out_sustained =
            rw (mean_of_cold (λ h. h.outbound_mb), net_out_sustained_cold m.outbound_mb);
        disk_write_net_out_sustained =
            rw (mean_of_cold (λ h. h.outbound_mb), net_out_sustained_cold m.outbound_mb)
              (and_false (leb 1000 m.disk_write_mb) _);
      }

-- With fewer than twelve snapshots no signal fires that compares the sample with its history, and
-- the streak of inbound spikes starts again from 0.
pub extract_signals-IsCold :
    {Text : Type 0} (e : Surroundings Text) (m : Metrics Text) (hs : List (Past Text))
    → length hs < 12
    → IsCold (extract_signals e m hs).0 × ((extract_signals e m hs).1 ≡ 0)
unfolding extract_signals
extract_signals-IsCold e m hs h =
    let short = lt→leb_false 12 (length hs) h in
    (
      mask_missing-IsCold m.derived.has_network_missing m.derived.has_process_missing _
          (raw_signals-IsCold hs short e m),
      rw (mean_of_cold hs short (λ p. p.inbound_mb))
          (dos_streak_cold e.dos_detection e.slot m.inbound_mb e.streak),
    )
