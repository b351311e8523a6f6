-- ===== src/Server/Agent/Judging.antt =====
-- What ml_server/agent answers.
use inha_rada.Common.{
  ℕ, ◌+◌, ◌≡◌, refl, ◌≢◌, ◌↔◌, ◌⊎◌, inl, inr, Bool, true, false, not, ◌&&◌, ◌||◌, Option, none,
  some, arith, if◌then◌else◌, Bool-cases, any,
}
use inha_rada.Server.Counters.{increment}
use inha_rada.Server.Gating.{Verdict}
use inha_rada.Server.Agent.{
  AlertFacts, dangerous, HwField, none_status, suspected, confirmed, boolean, unknown_status,
  Answer, Case, is_layer1_mem, answer, by_verdict, mock_agent_judgment, normalize_hw_degradation,
  Runner, should_use_claude, normalized, run_ai_agent,
}

by_verdict-dangerous :
    (c : Case) (v : Verdict) → (by_verdict c v).judgment ≡ dangerous → v ≡ Verdict.high_risk
unfolding by_verdict answer
by_verdict-dangerous c Verdict.high_risk h = refl
by_verdict-dangerous c Verdict.suspicious h = cc
by_verdict-dangerous c Verdict.observe h = cc
by_verdict-dangerous c Verdict.normal h = ground arith

high_risk-dangerous :
    (c : Case) (v : Verdict) → v ≡ Verdict.high_risk → (by_verdict c v).judgment ≡ dangerous
unfolding by_verdict answer
high_risk-dangerous c v h = rw h refl

-- The mock calls a case dangerous exactly if no local HIGH alert of the memory is there, and
-- mining is confirmed or the verdict is HIGH_RISK: such a memory alert hides both.
pub mock_agent_judgment-dangerous :
    (c : Case)
    → ((mock_agent_judgment c).judgment ≡ dangerous) ↔ (
        (any is_layer1_mem c.alerts ≡ false)
        × ((any (λ a. a.is_confirmed_mining) c.alerts ≡ true) ⊎ (c.verdict ≡ Verdict.high_risk)))
unfolding mock_agent_judgment answer
mock_agent_judgment-dangerous c = elim (Bool-cases (any is_layer1_mem c.alerts)) [
  | inl mem ↦ rw mem (λ h. cc, λ h. cc)
  | inr no_mem ↦ elim (Bool-cases (any (λ (a : AlertFacts). a.is_confirmed_mining) c.alerts)) [
    | inl mining ↦ rw (no_mem, mining) (λ h. (refl, inl refl), λ h. refl)
    | inr no_mining ↦
        rw (no_mem, no_mining)
          (
            λ h. (refl, inr (by_verdict-dangerous c c.verdict h)),
            λ h. elim (h.1) [ inl e ↦ cc | inr e ↦ high_risk-dangerous c c.verdict e ],
          )
  ]
]

-- One of the three statuses that the receivers know.
abbrev pub IsStatus : HwField → Type 0
IsStatus h = (h ≡ none_status) ⊎ ((h ≡ suspected) ⊎ (h ≡ confirmed))

normalize-IsStatus : (h : HwField) → IsStatus (normalize_hw_degradation h)
unfolding normalize_hw_degradation
normalize-IsStatus (boolean true) = inr (inl refl)
normalize-IsStatus (boolean false) = inl refl
normalize-IsStatus none_status = inl refl
normalize-IsStatus suspected = inr (inl refl)
normalize-IsStatus confirmed = inr (inr refl)
normalize-IsStatus unknown_status = inl refl

-- Whether the agent is on at run time, and configured or forced.
abbrev pub is_on : Runner → Bool
is_on r = not r.runtime_ai_disabled && (r.use_real_claude || r.configured)

-- What a run of the agent gives.
pub record IsAnswered (r : Runner) (reply : Option Answer) (out : Answer × Runner) : Type 0 where
  pub status : IsStatus out.0.hw_degradation
  pub mock_iff : (out.0.is_mock ≡ false) ↔ ((is_on r ≡ true) × (reply ≢ none))
  pub counted :
      out.1.counters.claude_mock_count
      ≡ r.counters.claude_mock_count + (if is_on r then elim reply [ none ↦ 1 | some _ ↦ 0 ] else 0)

should_use_claude-is_on : (r : Runner) → should_use_claude r ≡ is_on r
unfolding should_use_claude
should_use_claude-is_on r = ground arith

add_none : (n : ℕ) → n ≡ n + 0
add_none n = omega arith

some-ne-none {ℓ} : {A : Type ℓ} (a : A) → some a ≢ none
some-ne-none a h = cc

-- A run answers with one of the three statuses of the hardware, whatever the API replied; the
-- answer is not the mock's exactly if the agent is on at run time, configured or forced, and the
-- call did not raise; and the counter grows by one exactly if such a call raised.
pub run_ai_agent-IsAnswered :
    (r : Runner) (reply : Option Answer) (c : Case) → IsAnswered r reply (run_ai_agent r reply c)
unfolding run_ai_agent normalized increment
run_ai_agent-IsAnswered r none c = elim (Bool-cases (is_on r)) [
  | inl on ↦
      rw (run_ai_agent, should_use_claude-is_on r, on)
        (record {
          status = normalize-IsStatus (mock_agent_judgment c).hw_degradation;
          mock_iff = (λ h. cc, λ h. absurd (h.1 refl));
          counted = rw on refl;
        })
  | inr off ↦
      rw (run_ai_agent, should_use_claude-is_on r, off)
        (record {
          status = normalize-IsStatus (mock_agent_judgment c).hw_degradation;
          mock_iff = (λ h. cc, λ h. absurd (h.1 refl));
          counted = rw off (add_none r.counters.claude_mock_count);
        })
]
run_ai_agent-IsAnswered r (some a) c = elim (Bool-cases (is_on r)) [
  | inl on ↦
      rw (run_ai_agent, should_use_claude-is_on r, on)
        (record {
          status = normalize-IsStatus a.hw_degradation;
          mock_iff = (λ h. (on, some-ne-none a), λ h. refl);
          counted = rw on (add_none r.counters.claude_mock_count);
        })
  | inr off ↦
      rw (run_ai_agent, should_use_claude-is_on r, off)
        (record {
          status = normalize-IsStatus (mock_agent_judgment c).hw_degradation;
          mock_iff = (λ h. cc, λ h. cc);
          counted = rw off (add_none r.counters.claude_mock_count);
        })
]
