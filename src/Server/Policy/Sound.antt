-- ===== src/Server/Policy/Sound.antt =====
-- Which policies ml_server/policy/validation.py accepts.
use Prim.Native.String.{String}
use inha_rada.Common.{
  ◌≡◌, refl, ap, ◌∙◌, subst, inl, inr, Bool, false, not, ◌&&◌, some, arith, Bool-cases,
  Option-cases, ℤ, pos, ◌≤ℤ◌, ◌<ℤ◌, ltb_ℤ,
}
use inha_rada.Server.Policy.Yaml.{
  Value, null, flag, num, not_finite, str, sequence, mapping, Fields, end, field, missing_key,
  bad_version, not_ascending, out_of_range, ok, guard, get, as_number, bind_ok, ok_injective,
}
use inha_rada.Server.Policy.Validation.{
  require, require_mapping, require_number, check_version, check_scores, check_discounts, Limits,
  Thresholds, check_thresholds, check_limits, Checked, validate_scoring_policy,
}
use inha_rada.Server.Policy.Answers.{
  guard_ok, as_number_ok, require_ok, require_mapping_ok, require_number_ok, below_of, both,
  not_below,
}

-- A mapping with the three thresholds as numbers that ascend strictly.
pub record ThresholdsAt (v : Value) (th : Thresholds) : Type 0 where
  pub section_fields : Fields
  pub is_mapping : v ≡ mapping section_fields
  pub observe_at : get "observe" section_fields ≡ some (num th.observe)
  pub suspicious_at : get "suspicious" section_fields ≡ some (num th.suspicious)
  pub high_risk_at : get "high_risk" section_fields ≡ some (num th.high_risk)
  pub observe_below : th.observe <ℤ th.suspicious
  pub suspicious_below : th.suspicious <ℤ th.high_risk

check_thresholds_ok : (v : Value) (th : Thresholds) → check_thresholds v ≡ ok th → ThresholdsAt v th
unfolding check_thresholds
check_thresholds_ok v th h =
    let (fs, m, h1) = bind_ok (require_mapping "thresholds" v) _ h in
    let (o, at_o, h2) = bind_ok (require_number fs "observe") _ h1 in
    let (s, at_s, h3) = bind_ok (require_number fs "suspicious") _ h2 in
    let (r, at_r, h4) = bind_ok (require_number fs "high_risk") _ h3 in
    let (_, g, h5) = bind_ok (guard (ltb_ℤ o s && ltb_ℤ s r) not_ascending) _ h4 in
    let (below, above) = both (ltb_ℤ o s) (ltb_ℤ s r) (guard_ok _ _ g) in
    let made : Thresholds = record { observe = o; suspicious = s; high_risk = r } in
    let same_made : made ≡ th = cc in
    subst (ThresholdsAt v) same_made (record {
      section_fields = fs;
      is_mapping = require_mapping_ok "thresholds" v fs m;
      observe_at = require_number_ok fs "observe" o at_o;
      suspicious_at = require_number_ok fs "suspicious" s at_s;
      high_risk_at = require_number_ok fs "high_risk" r at_r;
      observe_below = below_of o s below;
      suspicious_below = below_of s r above;
    })

-- A mapping with the three limits as numbers, the cap not below 0 and the others not above it.
pub record LimitsAt (v : Value) (lm : Limits) : Type 0 where
  pub section_fields : Fields
  pub is_mapping : v ≡ mapping section_fields
  pub cap_at : get "ml_score_cap" section_fields ≡ some (num lm.ml_score_cap)
  pub most_at : get "max_context_discount" section_fields ≡ some (num lm.max_context_discount)
  pub danger_at :
      get "danger_override_max_discount" section_fields ≡ some (num lm.danger_override_max_discount)
  pub cap_ge : pos 0 ≤ℤ lm.ml_score_cap
  pub most_le : lm.max_context_discount ≤ℤ pos 0
  pub danger_le : lm.danger_override_max_discount ≤ℤ pos 0

check_limits_ok : (v : Value) (lm : Limits) → check_limits v ≡ ok lm → LimitsAt v lm
unfolding check_limits
check_limits_ok v lm h =
    let (fs, m, h1) = bind_ok (require_mapping "limits" v) _ h in
    let (c, at_c, h2) = bind_ok (require_number fs "ml_score_cap") _ h1 in
    let (t, at_t, h3) = bind_ok (require_number fs "max_context_discount") _ h2 in
    let (d, at_d, h4) = bind_ok (require_number fs "danger_override_max_discount") _ h3 in
    let (_, g1, h5) = bind_ok (guard (not (ltb_ℤ c (pos 0))) (out_of_range "ml_score_cap")) _ h4 in
    let (_, g2, h6) =
      bind_ok (guard (not (ltb_ℤ (pos 0) t)) (out_of_range "max_context_discount")) _ h5 in
    let (_, g3, h7) =
      bind_ok (guard (not (ltb_ℤ (pos 0) d)) (out_of_range "danger_override_max_discount")) _ h6 in
    let made : Limits = record {
      ml_score_cap = c;
      max_context_discount = t;
      danger_override_max_discount = d;
    } in
    let same_made : made ≡ lm = cc in
    subst (LimitsAt v) same_made (record {
      section_fields = fs;
      is_mapping = require_mapping_ok "limits" v fs m;
      cap_at = require_number_ok fs "ml_score_cap" c at_c;
      most_at = require_number_ok fs "max_context_discount" t at_t;
      danger_at = require_number_ok fs "danger_override_max_discount" d at_d;
      cap_ge = not_below c (pos 0) (guard_ok _ _ g1);
      most_le = not_below (pos 0) t (guard_ok _ _ g2);
      danger_le = not_below (pos 0) d (guard_ok _ _ g3);
    })

-- Every value is a number, or a number that is not above 0.
abbrev pub AreNumbers : Fields → Type 0
AreNumbers end = Unit
AreNumbers (field k v fs) = ((n : ℤ) × (v ≡ num n)) × AreNumbers fs

abbrev pub AreDiscounts : Fields → Type 0
AreDiscounts end = Unit
AreDiscounts (field k v fs) = ((n : ℤ) × (v ≡ num n) × (n ≤ℤ pos 0)) × AreDiscounts fs

check_scores_ok : (fs : Fields) {u : Unit {0}} → check_scores fs ≡ ok u → AreNumbers fs
unfolding check_scores
check_scores_ok end h = tt
check_scores_ok (field k v fs) h = elim (Option-cases (as_number v)) [
  | inl n ↦ cc (rw (check_scores, n) at h)
  | inr (n, s) ↦ ((n, as_number_ok v n s), check_scores_ok fs (rw (check_scores, s) at h))
]

check_discounts_ok : (fs : Fields) {u : Unit {0}} → check_discounts fs ≡ ok u → AreDiscounts fs
unfolding check_discounts
check_discounts_ok end h = tt
check_discounts_ok (field k v fs) h = elim (Option-cases (as_number v)) [
  | inl n ↦ cc (rw (check_discounts, n) at h)
  | inr (n, s) ↦ elim (Bool-cases (ltb_ℤ (pos 0) n)) [
    | inl high ↦ cc (rw (check_discounts, s, high) at h)
    | inr low ↦ (
      (n, as_number_ok v n s, ground arith),
      check_discounts_ok fs (rw (check_discounts, s, low) at h),
    )
  ]
]

-- What a policy that passes the validation is.
pub record IsSound (is_blank : String → Bool) (d : Fields) (c : Checked) : Type 0 where
  pub version_text : String
  pub version_at : get "version" d ≡ some (str version_text)
  pub version_not_blank : is_blank version_text ≡ false
  pub thresholds_value : Value
  pub thresholds_at : get "thresholds" d ≡ some thresholds_value
  pub thresholds_ok : ThresholdsAt thresholds_value c.thresholds
  pub limits_value : Value
  pub limits_at : get "limits" d ≡ some limits_value
  pub limits_ok : LimitsAt limits_value c.limits
  pub scores_at : get "scores" d ≡ some (mapping c.scores)
  pub scores_ok : AreNumbers c.scores
  pub discounts_at : get "context_discounts" d ≡ some (mapping c.context_discounts)
  pub discounts_ok : AreDiscounts c.context_discounts

check_version_ok :
    (is_blank : String → Bool) (v : Value) {u : Unit {0}}
    → check_version is_blank v ≡ ok u
    → (s : String) × (v ≡ str s) × (is_blank s ≡ false)
unfolding check_version
check_version_ok is_blank (str s) h =
    (s, refl, ground (arith, guard_ok (not (is_blank s)) bad_version h))
check_version_ok is_blank null h = cc
check_version_ok is_blank (flag b) h = cc
check_version_ok is_blank (num n) h = cc
check_version_ok is_blank (not_finite k) h = cc
check_version_ok is_blank (sequence xs) h = cc
check_version_ok is_blank (mapping fs) h = cc

-- A policy that the validation accepts has a version that is not blank, thresholds that ascend
-- strictly, a cap of 0 or more, limits on the discount of 0 or less, scores that are numbers, and
-- context discounts that are numbers of 0 or less; and what is handed on is what stands in it.
pub validate_scoring_policy-IsSound :
    (is_blank : String → Bool) (d : Fields) (c : Checked)
    → validate_scoring_policy is_blank d ≡ ok c
    → IsSound is_blank d c
unfolding validate_scoring_policy
validate_scoring_policy-IsSound is_blank d c h =
    let (v, at_v, h1) = bind_ok (require "version" d (missing_key "version")) _ h in
    let (t, at_t, h2) = bind_ok (require "thresholds" d (missing_key "thresholds")) _ h1 in
    let (l, at_l, h3) = bind_ok (require "limits" d (missing_key "limits")) _ h2 in
    let (s, at_s, h4) = bind_ok (require "scores" d (missing_key "scores")) _ h3 in
    let (x, at_x, h5) =
      bind_ok (require "context_discounts" d (missing_key "context_discounts")) _ h4 in
    let (_, v_ok, h6) = bind_ok (check_version is_blank v) _ h5 in
    let (th, t_ok, h7) = bind_ok (check_thresholds t) _ h6 in
    let (lm, l_ok, h8) = bind_ok (check_limits l) _ h7 in
    let (sc, s_map, h9) = bind_ok (require_mapping "scores" s) _ h8 in
    let (_, s_ok, h10) = bind_ok (check_scores sc) _ h9 in
    let (cd, x_map, h11) = bind_ok (require_mapping "context_discounts" x) _ h10 in
    let (_, x_ok, h12) = bind_ok (check_discounts cd) _ h11 in
    let (text_of, is_text, not_blank) = check_version_ok is_blank v v_ok in
    let made : Checked = record {
      version = v;
      thresholds = th;
      limits = lm;
      scores = sc;
      context_discounts = cd;
    } in
    let same_made : made ≡ c = ok_injective h12 in
    subst (IsSound is_blank d) same_made (record {
      version_text = text_of;
      version_at = require_ok "version" d (missing_key "version") v at_v ∙ ap some is_text;
      version_not_blank = not_blank;
      thresholds_value = t;
      thresholds_at = require_ok "thresholds" d (missing_key "thresholds") t at_t;
      thresholds_ok = check_thresholds_ok t th t_ok;
      limits_value = l;
      limits_at = require_ok "limits" d (missing_key "limits") l at_l;
      limits_ok = check_limits_ok l lm l_ok;
      scores_at =
          require_ok "scores" d (missing_key "scores") s at_s
          ∙ ap some (require_mapping_ok "scores" s sc s_map);
      scores_ok = check_scores_ok sc s_ok;
      discounts_at =
          require_ok "context_discounts" d (missing_key "context_discounts") x at_x
          ∙ ap some (require_mapping_ok "context_discounts" x cd x_map);
      discounts_ok = check_discounts_ok cd x_ok;
    })
