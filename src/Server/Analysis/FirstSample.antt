-- ===== src/Server/Analysis/FirstSample.antt =====
-- A known miner's first sample in `analyze_pattern` of ml_server/scorer/verdict_classifier.py.
use inha_rada.Common.{
  ℕ, zero, suc, ◌+◌, ◌*◌, ◌≤◌, ◌<◌, ◌≡◌, refl, ap, ◌∙◌, ◌⊎◌, inl, inr, Bool, true, List, [], ◌∷◌,
  arith, leb, if-intro, drop,
}
use inha_rada.Deque.{push}
use inha_rada.Server.Gating.{Verdict, normal}
use inha_rada.Server.Verdict.{
  high, normal_severity, severity_of, Thresholds, classify_verdict, confirmed_mining, Alert, alert,
  is_confirmed_mining, build_alerts, EvidenceMeta, build_evidence_meta,
}
use inha_rada.Server.Verdict.Promotion.{PromotionGating, gate_verdict, apply_promotion_gating}
use inha_rada.Server.Signals.{Signals}
use inha_rada.Server.Indicators.{Indicators}
use inha_rada.Server.ScoreHistory.{
  Mean, RuleScores, weight_of, weights_sum, weighted_sum, weighted_average, decay, appended,
  append_rule_score,
}
use inha_rada.Server.Analysis.KnownMiner.{known_miner_flag}
use inha_rada.Server.Analysis.{
  Policy, Request, rule_window, indicators_of, adjusted_score, final_score, scored_verdict,
  alerts_of, analyze_pattern,
}

normal_ungated :
    (pg : PromotionGating) (m : EvidenceMeta) → (apply_promotion_gating pg normal m).0 ≡ normal
unfolding apply_promotion_gating gate_verdict
normal_ungated pg m = ground arith

-- The averages that four zeros and the score `s` can have.
abbrev Low : ℕ → Mean → Type 0
Low s a = (a ≡ record { total = 0; weight = 1 }) ⊎ (a ≡ record { total = s * 5; weight = 15 })

average-zeros :
    (s : ℕ) → weighted_average (0 ∷ 0 ∷ 0 ∷ 0 ∷ s ∷ []) ≡ record { total = s * 5; weight = 15 }
unfolding weighted_average weighted_sum weights_sum weight_of
average-zeros s = ap (λ t. record { total = t; weight = 15 }) (omega arith)

average-quiet :
    (d s : ℕ) (st : RuleScores)
    → st.history ≡ 0 ∷ 0 ∷ 0 ∷ 0 ∷ []
    → Low s (append_rule_score d rule_window st s).1
unfolding append_rule_score appended decay push
average-quiet zero s st e =
    inr (ap (λ h. weighted_average (push rule_window h s)) e ∙ average-zeros s)
average-quiet (suc d) (suc s) st e =
    inr (ap (λ h. weighted_average (push rule_window h (suc s))) e ∙ average-zeros (suc s))
average-quiet (suc d) zero st e =
    if-intro {A = RuleScores} (λ t. Low 0 (weighted_average t.history))
      (leb (suc d) (st.zero_streak + 1)) (λ _. inl (unfold weighted_average in refl))
      (λ _. inr (ap (λ h. weighted_average (push rule_window h 0)) e ∙ average-zeros 0))

classify-Low :
    (th : Thresholds) (s : ℕ) (a : Mean) (process : ℕ)
    → Low s a
    → 0 < th.observe
    → th.observe ≤ th.suspicious
    → th.suspicious ≤ th.high_risk
    → s < 3 * th.observe
    → (classify_verdict th a process).0 ≡ normal
unfolding classify_verdict
classify-Low th s a process (inl e) positive o u lt = rw e (ground arith)
classify-Low th s a process (inr e) positive o u lt = rw e (ground arith)

confirmed_first :
    (v : Verdict) (s : Signals) (i : Indicators) (inbound : Bool)
    → leb 10 i.process ≡ true
    → (rest : List Alert) × (build_alerts v s i inbound ≡ alert confirmed_mining high ∷ rest)
unfolding build_alerts is_confirmed_mining
confirmed_first v s i inbound h = (drop 1 (build_alerts v s i inbound), rw h refl)

severity-normal : severity_of normal ≡ normal_severity
unfolding severity_of
severity-normal = refl

-- With ascending thresholds above 0, and after four samples of score 0: a sample in which a known
-- miner runs, and whose score is below three times the OBSERVE threshold, is judged NORMAL with
-- severity NORMAL, while its first alert confirms mining with severity HIGH.
pub first_sample-normal :
    (p : Policy) (st : RuleScores) (r : Request)
    → st.history ≡ 0 ∷ 0 ∷ 0 ∷ 0 ∷ []
    → 0 < p.thresholds.observe
    → p.thresholds.observe ≤ p.thresholds.suspicious
    → p.thresholds.suspicious ≤ p.thresholds.high_risk
    → adjusted_score p r < 3 * p.thresholds.observe
    → r.signals.known_miner ≡ true
    → let result = (analyze_pattern p st r).1 in
      (result.verdict ≡ normal)
      × (result.overall_severity ≡ normal_severity)
      × ((rest : List Alert) × (result.alerts ≡ alert confirmed_mining high ∷ rest))
unfolding analyze_pattern
first_sample-normal p st r quiet positive o u small miner =
    let confirmed =
      confirmed_first (scored_verdict p st r) r.signals (indicators_of p r) r.inbound
        (known_miner_flag p r ∙ miner) in
    let normal_score : scored_verdict p st r ≡ normal =
      unfold scored_verdict final_score in
      classify-Low p.thresholds (adjusted_score p r) (final_score p st r).1 _
        (average-quiet p.decay_after (adjusted_score p r) st quiet) positive o u small in
    let gated =
      ap
        (λ v.
          (apply_promotion_gating p.promotion_gating v
            (build_evidence_meta r.signals (indicators_of p r) (alerts_of p st r))).0)
        normal_score
      ∙ normal_ungated p.promotion_gating _ in
    (gated, ap severity_of gated ∙ severity-normal, unfold alerts_of in confirmed)
