-- ===== src/Server/Policy/Usable.antt =====
-- What the rest of the program may assume of a policy that ml_server/policy/loader.py has loaded.
use Prim.Native.String.{String}
use text.Mathlib.Text.{◌==◌ as str_eq}
use inha_rada.Common.{
  ◌<◌, ◌≡◌, subst, inl, inr, Option, arith, Bool-cases, ℤ, pos, negsuc, ◌≤ℤ◌, ◌<ℤ◌,
}
use inha_rada.Server.Policy.Yaml.{
  Value, Fields, end, field, ok, get, as_number, truncated, bind_ok, ok_injective,
}
use inha_rada.Server.Policy.Validation.{validate_scoring_policy}
use inha_rada.Server.Policy.Sections.{
  Texts, build_dos_detection, build_episode_dedupe, build_dos_detection-pos,
}
use inha_rada.Server.Policy.Sound.{AreDiscounts, validate_scoring_policy-IsSound}
use inha_rada.Server.Policy.Loader.{
  read_yaml, section_of, build_promotion_gating, ScoringPolicy, whole_limits, entry, discount,
  load_scoring_policy,
}

pub record IsUsable (p : ScoringPolicy) : Type 0 where
  pub observe_below : p.thresholds.observe <ℤ p.thresholds.suspicious
  pub suspicious_below : p.thresholds.suspicious <ℤ p.thresholds.high_risk
  pub cap_ge : pos 0 ≤ℤ p.limits.ml_score_cap
  pub most_le : p.limits.max_context_discount ≤ℤ pos 0
  pub danger_le : p.limits.danger_override_max_discount ≤ℤ pos 0
  pub discount_le : (k : String) → discount p k ≤ℤ pos 0
  pub sustained_pos : 0 < p.dos_detection.min_sustained_count

truncated-nonpos : (n : ℤ) → n ≤ℤ pos 0 → truncated n ≤ℤ pos 0
unfolding truncated
truncated-nonpos (pos n) h = omega arith
truncated-nonpos (negsuc n) h = ground arith

truncated-nonneg : (n : ℤ) → pos 0 ≤ℤ n → pos 0 ≤ℤ truncated n
unfolding truncated
truncated-nonneg (pos n) h = omega arith
truncated-nonneg (negsuc n) h = absurd (omega arith)

entry-nonpos : (k : String) (fs : Fields) → AreDiscounts fs → entry (get k fs) ≤ℤ pos 0
unfolding get entry as_number
entry-nonpos k end a = omega arith
entry-nonpos k (field j v fs) a =
    let (n, is_n, le) = a.0 in
    elim (Bool-cases (str_eq j k)) [
      | inl same ↦ rw (get, same, is_n) (truncated-nonpos n le)
      | inr differs ↦ rw (get, differs) (entry-nonpos k fs a.1)
    ]

-- A policy that was loaded has thresholds that ascend strictly, a cap of 0 or more, limits and
-- context discounts of 0 or less, also after `int`, for every key, and never asks for a streak of
-- no samples.
pub load_scoring_policy-IsUsable :
    (tx : Texts) (file : Option Value) (p : ScoringPolicy)
    → load_scoring_policy tx file ≡ ok p
    → IsUsable p
unfolding load_scoring_policy whole_limits discount
load_scoring_policy-IsUsable tx file p h =
    let (d, _, h1) = bind_ok (read_yaml file) _ h in
    let (c, valid, h2) = bind_ok (validate_scoring_policy tx.is_blank d) _ h1 in
    let (_, _, h3) = bind_ok (section_of d "category_patterns") _ h2 in
    let (_, _, h4) = bind_ok (section_of d "gating") _ h3 in
    let (_, _, h5) = bind_ok (build_promotion_gating tx (get "promotion_gating" d)) _ h4 in
    let (dos, is_dos, h6) = bind_ok (build_dos_detection tx (get "dos_detection" d)) _ h5 in
    let (_, _, h7) = bind_ok (build_episode_dedupe tx (get "episode_dedupe" d)) _ h6 in
    let s = validate_scoring_policy-IsSound tx.is_blank d c valid in
    subst IsUsable (ok_injective h7) (record {
      observe_below = s.thresholds_ok.observe_below;
      suspicious_below = s.thresholds_ok.suspicious_below;
      cap_ge = truncated-nonneg c.limits.ml_score_cap s.limits_ok.cap_ge;
      most_le = truncated-nonpos c.limits.max_context_discount s.limits_ok.most_le;
      danger_le = truncated-nonpos c.limits.danger_override_max_discount s.limits_ok.danger_le;
      discount_le = λ k. entry-nonpos k c.context_discounts s.discounts_ok;
      sustained_pos = build_dos_detection-pos tx (get "dos_detection" d) dos is_dos;
    })
