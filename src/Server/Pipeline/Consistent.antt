-- ===== src/Server/Pipeline/Consistent.antt =====
-- Verdict, severity and alerts of the response of ml_server/api/analyze_router.py.
use inha_rada.Common.{
  ◌+◌, max, ◌≡◌, refl, ap, inl, inr, Bool, true, false, arith, ltb, pts, Bool-cases, if-intro,
  length, take, length-append, take-append, take_all,
}
use inha_rada.Server.Gating.{Verdict, high_risk, suspicious, observe, normal, GatingResult}
use inha_rada.Server.Verdict.{severity_of, verdict_rank, severity_rank}
use inha_rada.Server.Analysis.{Policy, Request, PatternResult, analyze_pattern}
use inha_rada.Server.ScoreHistory.{RuleScores}
use inha_rada.Server.Pipeline.{
  merge_gating, cap_applies, cap_result, apply_network_only_cap, add_global_hw, respond,
}

abbrev IsConsistent : PatternResult → Type 0
IsConsistent r = r.overall_severity ≡ severity_of r.verdict

severity_rank-of : (v : Verdict) → severity_rank (severity_of v) ≡ verdict_rank v
unfolding severity_rank severity_of verdict_rank
severity_rank-of high_risk = refl
severity_rank-of suspicious = refl
severity_rank-of observe = refl
severity_rank-of normal = refl

merge_gating-IsConsistent :
    (g : GatingResult) (r : PatternResult) → IsConsistent r → IsConsistent (merge_gating g r)
unfolding merge_gating
merge_gating-IsConsistent g r c =
    if-intro IsConsistent (ltb (verdict_rank r.verdict) (verdict_rank g.verdict))
      (λ h.
        if-intro (λ s. s ≡ severity_of g.verdict)
          (ltb (severity_rank r.overall_severity) (severity_rank (severity_of g.verdict)))
          (λ _. refl)
          (λ k. absurd (
            ground
              (arith, ap severity_rank c, severity_rank-of r.verdict, severity_rank-of g.verdict))))
      (λ _. c)

apply_network_only_cap-IsConsistent :
    (r : PatternResult) → IsConsistent r → IsConsistent (apply_network_only_cap r).0
unfolding apply_network_only_cap cap_result severity_of
apply_network_only_cap-IsConsistent r c =
    if-intro {A = PatternResult × Bool} (λ p. IsConsistent p.0) (cap_applies r) (λ _. refl) (λ _. c)

add_global_hw-IsConsistent :
    (d : Bool) (r : PatternResult) → IsConsistent r → IsConsistent (add_global_hw d r)
unfolding add_global_hw
add_global_hw-IsConsistent true r c = c
add_global_hw-IsConsistent false r c = c

pub respond-keeps :
    (g : GatingResult) (detected : Bool) (r : PatternResult)
    → r.overall_severity ≡ severity_of r.verdict
    → let r' = respond g detected r in r'.overall_severity ≡ severity_of r'.verdict
unfolding respond
respond-keeps g detected r c =
    let merged = merge_gating g r in
    add_global_hw-IsConsistent detected (apply_network_only_cap merged).0
      (apply_network_only_cap-IsConsistent merged (merge_gating-IsConsistent g r c))

-- The severity of every response is that of its verdict, whatever the analysis, the gate and the
-- other PCs say.
pub respond-IsConsistent :
    (p : Policy) (st : RuleScores) (q : Request) (g : GatingResult) (detected : Bool)
    → let r = respond g detected (analyze_pattern p st q).1 in
      r.overall_severity ≡ severity_of r.verdict
unfolding analyze_pattern
respond-IsConsistent p st q g detected = respond-keeps g detected (analyze_pattern p st q).1 refl

-- The gate can only raise the verdict: the merged one has the greater rank of the two, and the
-- alerts of the analysis stay in front, with one of the gate behind them exactly if its verdict was
-- the greater.
pub merge_gating-max :
    (g : GatingResult) (r : PatternResult)
    → let r' = merge_gating g r in
      (verdict_rank r'.verdict ≡ max (verdict_rank r.verdict) (verdict_rank g.verdict))
      × (take (length r.alerts) r'.alerts ≡ r.alerts)
      × (length r'.alerts
          ≡ length r.alerts + pts (ltb (verdict_rank r.verdict) (verdict_rank g.verdict)) 1)
unfolding merge_gating
merge_gating-max g r = elim (Bool-cases (ltb (verdict_rank r.verdict) (verdict_rank g.verdict))) [
  | inl more ↦ rw more (ground arith, take-append r.alerts _, length-append r.alerts _)
  | inr not_more ↦ rw not_more (ground arith, take_all r.alerts, omega arith)
]
