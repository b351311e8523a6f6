-- ===== src/Tests/Verdicts.antt =====
-- The theorems of the analysis, the scores and the pipeline at concrete inputs.
use inha_rada.Common.{
  ◌*◌, ◌+ℤ◌, ◌≤◌, ◌<◌, ◌≡◌, refl, true, false, none, some, List, [], ◌∷◌, arith, pos,
}
use inha_rada.Tests.Samples.{miner, spike, pack, context}
use inha_rada.Server.Gating.{GatingResult, high_risk, suspicious, normal}
use inha_rada.Server.Signals.{Signals}
use inha_rada.Server.Indicators.{
  default_weights, calculate_indicators, gpu_mining_score, cpu_mining_score, stealth_score,
  process_score, ml_score, ml_after_cap,
}
use inha_rada.Server.Context.{apply_context_multiplier, other_score, multiplier}
use inha_rada.Server.Verdict.{
  severity_rank, high, medium, normal_severity, severity_of, verdict_rank, Alert, alert,
  confirmed_mining, dos_suspected, EvidenceMeta, no_reason,
}
use inha_rada.Server.Verdict.Promotion.{
  policy_gating, Guarded, apply_promotion_gating, apply_promotion_gating-Guarded,
}
use inha_rada.Server.ScoreHistory.{RuleScores, append_rule_score}
use inha_rada.Server.ScoreHistory.Decay.{zeros_appended}
use inha_rada.Server.ScoreHistory.Spike.{append_rule_score-cleared}
use inha_rada.Server.Analysis.{
  Policy, Request, PatternResult, analyze_pattern, adjusted_score, indicators_of,
}
use inha_rada.Server.Analysis.FirstSample.{first_sample-normal}
use inha_rada.Server.Pipeline.{
  apply_network_only_cap, cap_applies, net_active, res_sys_active, is_exempt, respond, ai_step,
}
use inha_rada.Server.Pipeline.Consistent.{respond-IsConsistent}
use inha_rada.Server.Pipeline.NetworkOnly.{IsNetworkOnly, respond-IsNetworkOnly}
use inha_rada.Server.Pipeline.AiCalls.{ai_run, AreSpaced, ai_run-AreSpaced}
use inha_rada.Server.Pipeline.AiCover.{newest, Covers, ai_run-Covers}

abbrev policy : Policy
policy = record {
  thresholds = record { observe = 50; suspicious = 90; high_risk = 140 };
  ml_score_cap = 5;
  scores = default_weights;
  context = context;
  promotion_gating = policy_gating;
  decay_after = 12;
}

abbrev request : Signals → Request
request s = record { signals = s; pack = pack; hints = []; teaching = true; inbound = false }

abbrev quiet : RuleScores
quiet = record { history = 0 ∷ 0 ∷ 0 ∷ 0 ∷ []; zero_streak = 4 }

abbrev loud : RuleScores
loud = record { history = 90 ∷ 140 ∷ []; zero_streak = 0 }

append_rule_score-cleared_example :
    let a = (append_rule_score 12 5 (zeros_appended 12 5 loud 12) 90).1 in a.total ≡ 90 * a.weight
append_rule_score-cleared_example = append_rule_score-cleared 11 5 90 loud (omega arith) refl

miner_low : adjusted_score policy (request miner) < 150
unfolding adjusted_score indicators_of calculate_indicators apply_context_multiplier other_score
    multiplier gpu_mining_score cpu_mining_score stealth_score process_score ml_score ml_after_cap
    ◌+ℤ◌
miner_low = omega arith

first_sample-normal_example :
    let result = (analyze_pattern policy quiet (request miner)).1 in
    (result.verdict ≡ normal)
    × (result.overall_severity ≡ normal_severity)
    × ((rest : List Alert) × (result.alerts ≡ alert confirmed_mining high ∷ rest))
first_sample-normal_example =
    first_sample-normal policy quiet (request miner) refl (omega arith) (omega arith) (omega arith)
      miner_low refl

abbrev evidence : EvidenceMeta
evidence = record {
  active_signal_count = 3;
  category_count = 2;
  promotion_gated = false;
  promotion_reason = no_reason;
  fast_path_match = none;
  network_only_capped = false;
}

apply_promotion_gating-Guarded_example :
    Guarded policy_gating high_risk evidence
      (apply_promotion_gating policy_gating high_risk evidence)
apply_promotion_gating-Guarded_example =
    apply_promotion_gating-Guarded policy_gating high_risk evidence refl refl refl

-- The gate has confirmed mining.
abbrev confirmed : GatingResult
confirmed = record {
  verdict = high_risk;
  cats_count = 3;
  sustained = pos 200;
  mining_confirmed = true;
}

respond-IsConsistent_example :
    let r = respond confirmed true (analyze_pattern policy quiet (request miner)).1 in
    r.overall_severity ≡ severity_of r.verdict
respond-IsConsistent_example = respond-IsConsistent policy quiet (request miner) confirmed true

-- An analysis of a sample with network signals only.
abbrev suspect : PatternResult
suspect = record {
  verdict = suspicious;
  overall_severity = medium;
  alerts = alert dos_suspected high ∷ [];
  evidence_meta = evidence;
  signals = spike;
  final = record { total = 500; weight = 5 };
}

suspect-IsNetworkOnly : IsNetworkOnly spike
unfolding net_active res_sys_active is_exempt
suspect-IsNetworkOnly = (refl, refl, refl)

medium-of : medium ≡ severity_of suspicious
unfolding severity_of
medium-of = refl

respond-IsNetworkOnly_example :
    let r = respond confirmed false suspect in
    (verdict_rank r.verdict ≤ 1)
    × (ai_step 1800 (some (100, 2)) 5_000 r.overall_severity ≡ (false, some (100, 2)))
respond-IsNetworkOnly_example =
    respond-IsNetworkOnly confirmed false suspect 1800 5_000 (some (100, 2)) suspect-IsNetworkOnly
      medium-of

suspect_capped : (apply_network_only_cap suspect).1 ≡ true
unfolding apply_network_only_cap cap_applies net_active res_sys_active is_exempt verdict_rank
suspect_capped = refl

ai_run-AreSpaced_example :
    AreSpaced 1800 none (ai_run 1800 none ((10, medium) ∷ (15, medium) ∷ (20, high) ∷ []))
ai_run-AreSpaced_example =
    ai_run-AreSpaced 1800 none ((10, medium) ∷ (15, medium) ∷ (20, high) ∷ [])

medium_rank : 2 ≤ severity_rank medium
unfolding severity_rank
medium_rank = omega arith

ai_run-Covers_example :
    Covers 1800 15
      (severity_rank medium)
      (newest none (ai_run 1800 none ((10, high) ∷ (12, medium) ∷ (15, medium) ∷ [])))
ai_run-Covers_example =
    ai_run-Covers 1800 ((10, high) ∷ (12, medium) ∷ []) none 15 medium (omega arith) medium_rank
