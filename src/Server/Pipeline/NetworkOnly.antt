-- ===== src/Server/Pipeline/NetworkOnly.antt =====
-- Samples with network signals only, in ml_server/scorer/network_only_cap.py and the response.
use inha_rada.Common.{
  ℕ, ◌≤◌, ◌≡◌, refl, sym, ap, ◌∙◌, subst, Bool, true, false, Option, List, [], ◌∷◌, map, arith, ltb,
  if-intro, All,
}
use inha_rada.Server.Gating.{Verdict, high_risk, suspicious, observe, normal, GatingResult}
use inha_rada.Server.Verdict.{low, severity_of, verdict_rank, severity_rank, Alert}
use inha_rada.Server.Signals.{Signals}
use inha_rada.Server.Analysis.{PatternResult}
use inha_rada.Server.Pipeline.{
  merge_gating, net_active, res_sys_active, is_exempt, cap_applies, cap_alert, cap_result,
  apply_network_only_cap, add_global_hw, respond, AiCall, needs_ai, ai_step,
}
use inha_rada.Server.Pipeline.Consistent.{respond-keeps}

-- Only network signals, and nothing that exempts the sample.
abbrev pub IsNetworkOnly : Signals → Type 0
IsNetworkOnly s = (net_active s ≡ true) × (res_sys_active s ≡ false) × (is_exempt s ≡ false)

cap_alert-low : (a : Alert) → severity_rank (cap_alert a).severity ≤ 1
unfolding cap_alert severity_rank
cap_alert-low a = ground arith

cap_alert-type : (a : Alert) → (cap_alert a).type ≡ a.type
unfolding cap_alert
cap_alert-type a = ground arith

All-low : (l : List Alert) → All (λ a. severity_rank a.severity ≤ 1) (map cap_alert l)
All-low [] = tt
All-low (a ∷ l) = (cap_alert-low a, All-low l)

same_types : (l : List Alert) → map (λ a. a.type) (map cap_alert l) ≡ map (λ a. a.type) l
same_types [] = refl
same_types (a ∷ l) =
    ap (λ t. t ∷ map (λ b. b.type) (map cap_alert l)) (cap_alert-type a)
    ∙ ap (λ ts. a.type ∷ ts) (same_types l)

cap_applies-low : (r : PatternResult) → verdict_rank r.verdict ≤ 1 → cap_applies r ≡ false
unfolding cap_applies
cap_applies-low r h = ground arith

cap-no : (r : PatternResult) → cap_applies r ≡ false → apply_network_only_cap r ≡ (r, false)
unfolding apply_network_only_cap
cap-no r h = rw h refl

-- What the cap makes of `r`.
abbrev pub Applied : PatternResult → PatternResult → Type 0
Applied r r' =
    (r'.verdict ≡ observe)
    × (r'.overall_severity ≡ low)
    × All (λ a. severity_rank a.severity ≤ 1) r'.alerts
    × (map (λ a. a.type) r'.alerts ≡ map (λ a. a.type) r.alerts)
    × (apply_network_only_cap r' ≡ (r', false))

cap_result-Applied : (r : PatternResult) → Applied r (cap_result r)
unfolding cap_result verdict_rank
cap_result-Applied r = (
  refl,
  refl,
  All-low r.alerts,
  same_types r.alerts,
  cap-no (cap_result r) (cap_applies-low (cap_result r) (omega arith)),
)

-- Where the cap is applied, the verdict is OBSERVE, its severity LOW, every alert at most LOW, and
-- the alerts' types are as they were; a second call applies nothing.
pub apply_network_only_cap-Applied :
    (r : PatternResult)
    → (apply_network_only_cap r).1 ≡ true
    → Applied r (apply_network_only_cap r).0
unfolding apply_network_only_cap
apply_network_only_cap-Applied r h =
    if-intro {A = PatternResult × Bool} (λ p. p.1 ≡ true → Applied r p.0) (cap_applies r)
      (λ _ _. cap_result-Applied r) (λ _ e. absurd (cc (e))) h

merge_gating-signals :
    (g : GatingResult) (r : PatternResult) → (merge_gating g r).signals ≡ r.signals
unfolding merge_gating
merge_gating-signals g r =
    if-intro {A = PatternResult} (λ r'. r'.signals ≡ r.signals)
      (ltb (verdict_rank r.verdict) (verdict_rank g.verdict)) (λ _. refl) (λ _. refl)

cap_blocked :
    (r : PatternResult)
    → IsNetworkOnly r.signals
    → cap_applies r ≡ false
    → verdict_rank r.verdict ≤ 1
unfolding cap_applies
cap_blocked r only h = ground (arith, only.0, only.1, only.2)

capped_rank :
    (r : PatternResult)
    → IsNetworkOnly r.signals
    → verdict_rank (apply_network_only_cap r).0.verdict ≤ 1
unfolding apply_network_only_cap cap_result verdict_rank
capped_rank r only =
    if-intro {A = PatternResult × Bool} (λ p. verdict_rank p.0.verdict ≤ 1) (cap_applies r)
      (λ _. omega arith) (λ h. cap_blocked r only h)

add_global_hw-verdict : (d : Bool) (r : PatternResult) → (add_global_hw d r).verdict ≡ r.verdict
unfolding add_global_hw
add_global_hw-verdict true r = refl
add_global_hw-verdict false r = refl

low_uncalled :
    (v : Verdict) (cooldown now : ℕ) (last : Option AiCall)
    → verdict_rank v ≤ 1
    → ai_step cooldown last now (severity_of v) ≡ (false, last)
unfolding verdict_rank severity_of ai_step needs_ai
low_uncalled high_risk cooldown now last h = absurd (omega arith)
low_uncalled suspicious cooldown now last h = absurd (omega arith)
low_uncalled observe cooldown now last h = refl
low_uncalled normal cooldown now last h = refl

respond-rank :
    (g : GatingResult) (detected : Bool) (r : PatternResult)
    → IsNetworkOnly r.signals
    → verdict_rank (respond g detected r).verdict ≤ 1
unfolding respond
respond-rank g detected r only =
    let merged = merge_gating g r in
    subst (λ v. verdict_rank v ≤ 1)
      (sym (add_global_hw-verdict detected (apply_network_only_cap merged).0))
      (capped_rank merged (subst IsNetworkOnly (sym (merge_gating-signals g r)) only))

-- A sample with network signals only and without the exempting evidence, whose analysis gave it the
-- severity of its verdict, is answered with OBSERVE or NORMAL, also where the gate has confirmed mining; it never calls the AI agent, and leaves what
-- is stored of the last call.
pub respond-IsNetworkOnly :
    (g : GatingResult) (detected : Bool) (r : PatternResult) (cooldown now : ℕ)
    (last : Option AiCall)
    → IsNetworkOnly r.signals
    → r.overall_severity ≡ severity_of r.verdict
    → let r' = respond g detected r in
      (verdict_rank r'.verdict ≤ 1)
      × (ai_step cooldown last now r'.overall_severity ≡ (false, last))
respond-IsNetworkOnly g detected r cooldown now last only c =
    let rank = respond-rank g detected r only in
    (
      rank,
      ap (ai_step cooldown last now) (respond-keeps g detected r c)
          ∙ low_uncalled (respond g detected r).verdict cooldown now last rank,
    )
