-- ===== src/Server/Analysis/KnownMiner.antt =====
-- The fast path of `_build_evidence_meta` in ml_server/scorer/verdict_classifier.py.
use inha_rada.Common.{
  ◌≡◌, refl, ap, ◌∙◌, inl, inr, Bool, true, false, not, ◌&&◌, none, some, [], ◌∷◌, arith, leb,
  if◌then◌else◌, Bool-cases, any, any-append,
}
use inha_rada.Server.Gating.{Verdict}
use inha_rada.Server.Verdict.{
  high, severity_of, dos_suspected, verdict_cause, Alert, alert, top_cause, is_normal,
  is_confirmed_mining, if_list, build_alerts, mining_known, is_confirmed, build_evidence_meta,
}
use inha_rada.Server.Signals.{Signals}
use inha_rada.Server.Indicators.{Indicators, process_score, calculate_indicators}
use inha_rada.Server.ScoreHistory.{RuleScores}
use inha_rada.Server.Analysis.{Policy, Request, indicators_of, scored_verdict, alerts_of}

any-if_list :
    (a : Alert) (b : Bool) → is_confirmed a ≡ false → any is_confirmed (if_list b (a ∷ [])) ≡ false
any-if_list a true e = rw e refl
any-if_list a false e = refl

build_alerts-unconfirmed :
    (v : Verdict) (s : Signals) (i : Indicators) (inbound : Bool)
    → leb 10 i.process ≡ false
    → any is_confirmed (build_alerts v s i inbound) ≡ false
unfolding build_alerts is_confirmed_mining
build_alerts-unconfirmed v s i inbound h =
    rw (h, any-append)
      (rw
        (
          any-if_list (alert (verdict_cause v (top_cause i)) (severity_of v))
              (not (is_normal v) && true) refl,
          any-if_list (alert dos_suspected high) (s.dos_spike && inbound) refl,
        )
        refl)

build_evidence_meta-fast_path :
    (v : Verdict) (s : Signals) (i : Indicators) (inbound : Bool)
    → (build_evidence_meta s i (build_alerts v s i inbound)).fast_path_match
      ≡ (if leb 10 i.process then some mining_known else none)
unfolding build_evidence_meta
build_evidence_meta-fast_path v s i inbound = elim (Bool-cases (leb 10 i.process)) [
  | inl sure ↦ rw sure refl
  | inr unsure ↦ rw (unsure, build_alerts-unconfirmed v s i inbound unsure) refl
]

pub known_miner_flag :
    (p : Policy) (r : Request) → leb 10 (indicators_of p r).process ≡ r.signals.known_miner
unfolding indicators_of calculate_indicators process_score
known_miner_flag p r = ground arith

-- The fast path is that of a known miner, and is taken exactly if a known miner runs: the other
-- test, for an alert of confirmed mining, never decides.
pub fast_path-known_miner :
    (p : Policy) (st : RuleScores) (r : Request)
    → (build_evidence_meta r.signals (indicators_of p r) (alerts_of p st r)).fast_path_match
      ≡ (if r.signals.known_miner then some mining_known else none)
unfolding alerts_of
fast_path-known_miner p st r =
    build_evidence_meta-fast_path (scored_verdict p st r) r.signals (indicators_of p r) r.inbound
    ∙ ap (λ b. if b then some mining_known else none) (known_miner_flag p r)
