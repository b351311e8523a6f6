-- ===== src/Server/Verdict.antt =====
-- ml_server/scorer/verdict_classifier.py: verdict, alerts, evidence and promotion gating. Texts are
-- left out of the alerts. The thresholds are counted in tenths of a point.
pub mod Promotion
use inha_rada.Common.{
  ℕ, ◌+◌, ◌*◌, Bool, true, false, not, ◌&&◌, ◌||◌, Option, none, some, List, [], ◌∷◌, ◌++◌, foldl,
  ltb, leb, if◌then◌else◌, pts, any, count_if, ℤ, pos, ltb_ℤ,
}
use inha_rada.Server.Signals.{Signals}
use inha_rada.Server.Indicators.{Indicators, process_score}
use inha_rada.Server.ScoreHistory.{Mean}
use inha_rada.Server.Gating.{Verdict, high_risk, suspicious, observe, normal}

pub data Severity : Type 0 where
  high medium low normal_severity : Severity

-- `_VERDICT_TO_SEVERITY`
unfoldable pub severity_of : Verdict → Severity
severity_of high_risk = high
severity_of suspicious = medium
severity_of observe = low
severity_of normal = normal_severity

-- `_VERDICT_RANK` and `_SEV_RANK`
unfoldable pub verdict_rank : Verdict → ℕ
verdict_rank high_risk = 3
verdict_rank suspicious = 2
verdict_rank observe = 1
verdict_rank normal = 0

unfoldable pub severity_rank : Severity → ℕ
severity_rank high = 3
severity_rank medium = 2
severity_rank low = 1
severity_rank normal_severity = 0

pub record Thresholds : Type 0 where
  pub observe : ℕ
  pub suspicious : ℕ
  pub high_risk : ℕ

-- `final_score >= threshold`
abbrev pub reaches : Mean → ℕ → Bool
reaches a th = leb (th * a.weight) a.total

-- The process score is taken, and not read.
unfoldable pub classify_verdict : Thresholds → Mean → ℕ → Verdict × Severity
classify_verdict th a process_score =
    if reaches a th.high_risk
    then (high_risk, high)
    else if reaches a th.suspicious
    then (suspicious, medium)
    else if reaches a th.observe
    then (observe, low)
    else (normal, normal_severity)

pub data Cause : Type 0 where
  gpu_mining cpu_mining stealth exfil dos memory ml : Cause

pub data AlertType : Type 0 where
  confirmed_mining process_persistent dos_suspected : AlertType
  verdict_cause : Verdict → Cause → AlertType
  -- Of analyze_router.py: from the behaviour gate, and of all PCs.
  mining_confirmed_by_behavior global_hw_degradation : AlertType
  behavior : Verdict → AlertType

pub record Alert : Type 0 where
  pub type : AlertType
  pub severity : Severity
  pub network_only_capped : Bool

abbrev pub alert : AlertType → Severity → Alert
alert t s = record { type = t; severity = s; network_only_capped = false }

-- `max(…, key=lambda x: x[1])`: of equal scores the first wins.
abbrev best : Cause × ℤ → Cause × ℤ → Cause × ℤ
best (c, m) (d, n) = if ltb_ℤ m n then (d, n) else (c, m)

unfoldable pub top_cause : Indicators → Cause
top_cause i =
    (foldl best (gpu_mining, i.gpu_mining)
      ((cpu_mining, i.cpu_mining)
        ∷ (stealth, i.stealth)
        ∷ (exfil, pos i.exfil)
        ∷ (dos, pos i.dos)
        ∷ (memory, pos i.mem)
        ∷ (ml, pos i.ml)
        ∷ [])).0

abbrev pub is_normal : Verdict → Bool
is_normal normal = true
is_normal _ = false

unfoldable pub is_confirmed_mining : Indicators → Bool
is_confirmed_mining i = leb 10 i.process

abbrev pub if_list {ℓ} : {A : Type ℓ} → Bool → List A → List A
if_list b xs = if b then xs else []

-- `inbound` says that the average inbound traffic is above 0.
unfoldable pub build_alerts : Verdict → Signals → Indicators → Bool → List Alert
unfolding top_cause severity_of is_confirmed_mining
build_alerts v s i inbound =
    if_list (is_confirmed_mining i) (
      alert confirmed_mining high ∷ if_list s.persistent_miner (alert process_persistent high ∷ []))
    ++ if_list (not (is_normal v) && not (is_confirmed_mining i))
        (alert (verdict_cause v (top_cause i)) (severity_of v) ∷ [])
    ++ if_list (s.dos_spike && inbound) (alert dos_suspected high ∷ [])

pub data FastPath : Type 0 where
  mining_known alerts_contain_confirmed_mining confirmed_sustained : FastPath

pub data Reason : Type 0 where
  no_reason gating_disabled gating_passed gating_not_applicable : Reason
  fast_path : FastPath → Reason
  blocked_high blocked_high_medium blocked_medium : Reason

pub record EvidenceMeta : Type 0 where
  pub active_signal_count : ℕ
  pub category_count : ℕ
  pub promotion_gated : Bool
  pub promotion_reason : Reason
  pub fast_path_match : Option FastPath
  pub network_only_capped : Bool

-- The signals that map to each category.
unfoldable pub resource_signals : Signals → List Bool
resource_signals s =
    s.gpu_active ∷ s.gpu_high ∷ s.gpu_flat ∷ s.gpu_cpu_gap ∷ s.vram_low ∷ s.vram_stable
    ∷ s.power_stable ∷ s.tensor_inactive ∷ s.sm_high ∷ s.stealth_mismatch_power
    ∷ s.stealth_mismatch_vram ∷ s.cpu_high ∷ s.cpu_flat ∷ s.mem_high ∷ s.mem_critical ∷ []

unfoldable pub network_signals : Signals → List Bool
network_signals s =
    s.net_external_high ∷ s.mining_pool_ip ∷ s.outbound_spike ∷ s.dos_spike ∷ s.net_out_sustained
    ∷ s.disk_write_net_out_sustained ∷ s.new_remote_ip_burst ∷ s.spike_count_1m ∷ s.persistent_ext
    ∷ []

unfoldable pub process_signals : Signals → List Bool
process_signals s =
    s.known_miner ∷ s.temp_exec ∷ s.appdata_exec ∷ s.exec_path_suspicious ∷ s.unknown_process_active
    ∷ s.persistent_miner ∷ s.mining_process_or_pool ∷ []

-- Active signals of no category.
unfoldable pub other_signals : Signals → List Bool
other_signals s = s.external_conn_suspicious_owner ∷ s.single_core_full ∷ s.process_recreation ∷ []

abbrev holds : Bool → Bool
holds b = b

unfoldable pub active_signal_count : Signals → ℕ
unfolding resource_signals network_signals process_signals other_signals
active_signal_count s = count_if holds (
    resource_signals s
    ++ network_signals s
    ++ process_signals s
    ++ other_signals s
    ++ s.ml_anomaly ∷ [])

unfoldable pub category_count : Signals → Indicators → ℕ
unfolding resource_signals network_signals process_signals
category_count s i =
    pts (ltb 0 i.breakdown_resource || any holds (resource_signals s)) 1
    + pts (ltb 0 i.breakdown_network || any holds (network_signals s)) 1
    + pts (ltb 0 i.breakdown_process || any holds (process_signals s)) 1
    + pts (ltb 0 i.breakdown_episode) 1
    + pts (ltb 0 i.breakdown_correlation) 1
    + pts (ltb 0 i.breakdown_ml || s.ml_anomaly) 1

abbrev pub is_confirmed : Alert → Bool
is_confirmed a = elim a.type [ confirmed_mining ↦ true | _ ↦ false ]

unfoldable pub build_evidence_meta : Signals → Indicators → List Alert → EvidenceMeta
unfolding active_signal_count category_count
build_evidence_meta s i alerts = record {
  active_signal_count = active_signal_count s;
  category_count = category_count s i;
  promotion_gated = false;
  promotion_reason = no_reason;
  fast_path_match =
      if leb 10 i.process
      then some mining_known
      else if any is_confirmed alerts
      then some alerts_contain_confirmed_mining
      else none;
  network_only_capped = false;
}
