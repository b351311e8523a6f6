-- ===== src/Server/Pipeline.antt =====
-- What ml_server/api/analyze_router.py does with the analysis of a sample: the gate's verdict, the cap
-- of scorer/network_only_cap.py, the alert on all PCs, and the calls of the AI agent.
pub mod Consistent
pub mod AiCalls
pub mod AiCover
pub mod NetworkOnly
use inha_rada.Common.{
  ℕ, ◌+◌, Bool, true, false, not, ◌&&◌, ◌||◌, Option, none, some, [], ◌∷◌, ◌++◌, map, ltb, leb,
  if◌then◌else◌,
}
use inha_rada.Server.Gating.{observe, GatingResult}
use inha_rada.Server.Verdict.{
  Severity, high, medium, low, normal_severity, severity_of, verdict_rank, severity_rank, AlertType,
  mining_confirmed_by_behavior, global_hw_degradation, behavior, Alert, alert, confirmed_sustained,
  fast_path, EvidenceMeta,
}
use inha_rada.Server.Signals.{Signals}
use inha_rada.Server.Analysis.{PatternResult}

-- The alert's type: `detail["alert_type"]` where mining is confirmed, else `{gv}_BEHAVIOR`.
abbrev gate_alert : GatingResult → AlertType
gate_alert g = if g.mining_confirmed then mining_confirmed_by_behavior else behavior g.verdict

abbrev at_least_low : Severity → Severity
at_least_low normal_severity = low
at_least_low s = s

unfoldable pub mark_confirmed : GatingResult → EvidenceMeta → EvidenceMeta
mark_confirmed g m =
    if g.mining_confirmed
    then record m {
      fast_path_match = some confirmed_sustained;
      promotion_gated = false;
      promotion_reason = fast_path confirmed_sustained;
    }
    else m

-- The stronger of the two verdicts stands.
unfoldable pub merge_gating : GatingResult → PatternResult → PatternResult
unfolding mark_confirmed verdict_rank severity_rank severity_of
merge_gating g r =
    let m = mark_confirmed g r.evidence_meta in
    let severity = severity_of g.verdict in
    if ltb (verdict_rank r.verdict) (verdict_rank g.verdict)
    then record r {
      evidence_meta = m;
      verdict = g.verdict;
      overall_severity =
          if ltb (severity_rank r.overall_severity) (severity_rank severity)
          then severity
          else r.overall_severity;
      alerts = r.alerts ++ alert (gate_alert g) (at_least_low severity) ∷ [];
    }
    else record r { evidence_meta = m }

unfoldable pub net_active : Signals → Bool
net_active s =
    s.net_external_high || s.persistent_ext || s.outbound_spike || s.net_out_sustained
    || s.spike_count_1m || s.new_remote_ip_burst || s.dos_spike

unfoldable pub res_sys_active : Signals → Bool
res_sys_active s =
    s.gpu_high || s.gpu_flat || s.cpu_high || s.cpu_flat || s.vram_low || s.sm_high
    || s.power_stable || s.mem_high || s.mem_critical || s.stealth_mismatch_power
    || s.stealth_mismatch_vram

-- The fast path of the cap, and its strong evidence.
unfoldable pub is_exempt : Signals → Bool
is_exempt s =
    (s.known_miner || s.mining_pool_ip)
    || (s.external_conn_suspicious_owner || s.single_core_full || s.process_recreation)

unfoldable pub cap_applies : PatternResult → Bool
unfolding verdict_rank net_active res_sys_active is_exempt
cap_applies r =
    (net_active r.signals && not (res_sys_active r.signals))
    && not (is_exempt r.signals)
    && ltb 1 (verdict_rank r.verdict)

unfoldable pub cap_alert : Alert → Alert
unfolding severity_rank
cap_alert a =
    if ltb 1 (severity_rank a.severity)
    then record a { severity = low; network_only_capped = true }
    else a

unfoldable pub cap_result : PatternResult → PatternResult
unfolding cap_alert
cap_result r = record r {
  verdict = observe;
  overall_severity = low;
  evidence_meta = record (r.evidence_meta) { network_only_capped = true };
  alerts = map cap_alert r.alerts;
}

-- The result, and whether the cap was applied.
unfoldable pub apply_network_only_cap : PatternResult → PatternResult × Bool
unfolding cap_applies cap_result
apply_network_only_cap r = if cap_applies r then (cap_result r, true) else (r, false)

unfoldable pub add_global_hw : Bool → PatternResult → PatternResult
add_global_hw detected r =
    if detected
    then record r { alerts = r.alerts ++ alert global_hw_degradation medium ∷ [] }
    else r

-- From the analysis to the response.
unfoldable pub respond : GatingResult → Bool → PatternResult → PatternResult
unfolding merge_gating apply_network_only_cap add_global_hw
respond g detected r = add_global_hw detected (apply_network_only_cap (merge_gating g r)).0

-- `ai_call_last[pc_id]`: the time in seconds and the rank.
abbrev pub AiCall : Type 0
AiCall = ℕ × ℕ

unfoldable pub needs_ai : Severity → Bool
needs_ai high = true
needs_ai medium = true
needs_ai _ = false

-- `_escalated` and `_cooled`
unfoldable pub may_call : ℕ → Option AiCall → ℕ → ℕ → Bool
may_call cooldown none now rank = true
may_call cooldown (some (last, last_rank)) now rank =
    leb cooldown 0 || ltb last_rank rank || leb (last + cooldown) now

-- Whether the agent is called at `now`, and what is stored of the last call.
unfoldable pub ai_step : ℕ → Option AiCall → ℕ → Severity → Bool × Option AiCall
unfolding needs_ai may_call severity_rank
ai_step cooldown last now sev =
    if needs_ai sev && may_call cooldown last now (severity_rank sev)
    then (true, some (now, severity_rank sev))
    else (false, last)
