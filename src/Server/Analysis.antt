-- ===== src/Server/Analysis.antt =====
-- `analyze_pattern` of ml_server/scorer/verdict_classifier.py, for one PC and slot. What Layer 1
-- (signal_extractor.py) finds is the request.
pub mod KnownMiner
pub mod FirstSample
use inha_rada.Common.{ℕ, Bool, List, pos_part}
use inha_rada.Server.Gating.{Verdict}
use inha_rada.Server.Verdict.{
  Severity, severity_of, Thresholds, classify_verdict, Alert, build_alerts, EvidenceMeta,
  build_evidence_meta,
}
use inha_rada.Server.Verdict.Promotion.{PromotionGating, apply_promotion_gating}
use inha_rada.Server.Signals.{Signals}
use inha_rada.Server.Indicators.{Pack, Weights, Indicators, calculate_indicators}
use inha_rada.Server.Context.{Label, ContextPolicy, apply_context_multiplier}
use inha_rada.Server.ScoreHistory.{Mean, RuleScores, append_rule_score}

-- The parts of ScoringPolicy that the analysis reads.
pub record Policy : Type 0 where
  pub thresholds : Thresholds
  pub ml_score_cap : ℕ
  pub scores : Weights
  pub context : ContextPolicy
  pub promotion_gating : PromotionGating
  pub decay_after : ℕ

pub record Request : Type 0 where
  pub signals : Signals
  pub pack : Pack
  pub hints : List Label
  pub teaching : Bool
  -- The average inbound traffic is above 0.
  pub inbound : Bool

pub record PatternResult : Type 0 where
  pub verdict : Verdict
  pub overall_severity : Severity
  pub alerts : List Alert
  pub evidence_meta : EvidenceMeta
  pub signals : Signals
  pub final : Mean

-- `maxlen=5`
abbrev pub rule_window : ℕ
rule_window = 5

unfoldable pub indicators_of : Policy → Request → Indicators
indicators_of p r = calculate_indicators p.ml_score_cap p.scores r.signals r.pack

-- The adjusted score, not below 0.
unfoldable pub adjusted_score : Policy → Request → ℕ
unfolding indicators_of
adjusted_score p r =
    pos_part
      (apply_context_multiplier p.context (indicators_of p r) r.signals.is_gaming
        r.signals.is_compiling r.signals r.hints r.teaching).adjusted

unfoldable pub final_score : Policy → RuleScores → Request → RuleScores × Mean
unfolding adjusted_score
final_score p st r = append_rule_score p.decay_after rule_window st (adjusted_score p r)

-- The alerts and the verdict that the scores give, before the gate.
unfoldable pub scored_verdict : Policy → RuleScores → Request → Verdict
unfolding final_score indicators_of
scored_verdict p st r =
    (classify_verdict p.thresholds (final_score p st r).1 (indicators_of p r).process).0

unfoldable pub alerts_of : Policy → RuleScores → Request → List Alert
unfolding scored_verdict indicators_of
alerts_of p st r = build_alerts (scored_verdict p st r) r.signals (indicators_of p r) r.inbound

unfoldable pub analyze_pattern : Policy → RuleScores → Request → RuleScores × PatternResult
unfolding final_score alerts_of
analyze_pattern p st r =
    let (st', final) = final_score p st r in
    let alerts = alerts_of p st r in
    let meta = build_evidence_meta r.signals (indicators_of p r) alerts in
    let (verdict, meta') = apply_promotion_gating p.promotion_gating (scored_verdict p st r) meta in
    (
      st',
      record {
        verdict = verdict;
        overall_severity = severity_of verdict;
        alerts = alerts;
        evidence_meta = meta';
        signals = r.signals;
        final = final;
      },
    )
