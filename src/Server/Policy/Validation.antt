-- ===== src/Server/Policy/Validation.antt =====
-- ml_server/policy/validation.py. Whether a text is blank is a parameter.
use Prim.Native.String.{String}
use inha_rada.Common.{Bool, not, ◌&&◌, none, some, if◌then◌else◌, ℤ, pos, ltb_ℤ}
use inha_rada.Server.Policy.Yaml.{
  Value, str, Fields, end, field, Problem, missing_key, bad_version, not_a_mapping, missing,
  not_a_number, not_ascending, out_of_range, Result, ok, raised, ◌>>=◌, ◌>>◌, guard, get,
  as_mapping, as_number,
}

-- `data[k]`, where the check before found the key.
unfoldable pub require : String → Fields → Problem → Result Value
require k fs e = elim (get k fs) [ none ↦ raised e | some v ↦ ok v ]

unfoldable pub require_mapping : String → Value → Result Fields
require_mapping k v = elim (as_mapping v) [ none ↦ raised (not_a_mapping k) | some fs ↦ ok fs ]

-- One round of the loops over the required numbers.
unfoldable pub require_number : Fields → String → Result ℤ
unfolding require as_number
require_number fs k = do
  v ← require k fs (missing k)
  elim (as_number v) [ none ↦ raised (not_a_number k) | some n ↦ ok n ]

-- `version`: a text that is not blank
unfoldable pub check_version : (String → Bool) → Value → Result (Unit {0})
check_version is_blank (str s) = guard (not (is_blank s)) bad_version
check_version is_blank _ = raised bad_version

-- The loop over the scores.
unfoldable pub check_scores : Fields → Result (Unit {0})
unfolding as_number
check_scores end = ok tt
check_scores (field k v fs) =
    let rest = check_scores fs in
    elim (as_number v) [ none ↦ raised (not_a_number k) | some n ↦ rest ]

-- The loop over the context discounts: numbers, none above 0.
unfoldable pub check_discounts : Fields → Result (Unit {0})
unfolding as_number
check_discounts end = ok tt
check_discounts (field k v fs) =
    let rest = check_discounts fs in
    elim (as_number v) [
      | none ↦ raised (not_a_number k)
      | some n ↦ if ltb_ℤ (pos 0) n then raised (out_of_range k) else rest
    ]

pub record Limits : Type 0 where
  pub ml_score_cap : ℤ
  pub max_context_discount : ℤ
  pub danger_override_max_discount : ℤ

pub record Thresholds : Type 0 where
  pub observe : ℤ
  pub suspicious : ℤ
  pub high_risk : ℤ

unfoldable pub check_thresholds : Value → Result Thresholds
unfolding require_mapping require_number
check_thresholds v = do
  fs ← require_mapping "thresholds" v
  observe ← require_number fs "observe"
  suspicious ← require_number fs "suspicious"
  high_risk ← require_number fs "high_risk"
  guard (ltb_ℤ observe suspicious && ltb_ℤ suspicious high_risk) not_ascending
  ok (record { observe = observe; suspicious = suspicious; high_risk = high_risk })

unfoldable pub check_limits : Value → Result Limits
unfolding require_mapping require_number
check_limits v = do
  fs ← require_mapping "limits" v
  cap ← require_number fs "ml_score_cap"
  most ← require_number fs "max_context_discount"
  danger ← require_number fs "danger_override_max_discount"
  guard (not (ltb_ℤ cap (pos 0))) (out_of_range "ml_score_cap")
  guard (not (ltb_ℤ (pos 0) most)) (out_of_range "max_context_discount")
  guard (not (ltb_ℤ (pos 0) danger)) (out_of_range "danger_override_max_discount")
  ok (record {
    ml_score_cap = cap;
    max_context_discount = most;
    danger_override_max_discount = danger;
  })

-- What the validation has read, in the source's types before any conversion.
pub record Checked : Type 0 where
  pub version : Value
  pub thresholds : Thresholds
  pub limits : Limits
  pub scores : Fields
  pub context_discounts : Fields

-- `validate_scoring_policy` of a mapping; it hands on what it read, which the loader reads again.
unfoldable pub validate_scoring_policy : (String → Bool) → Fields → Result Checked
unfolding require check_version check_thresholds check_limits require_mapping check_scores
    check_discounts
validate_scoring_policy is_blank d = do
  version ← require "version" d (missing_key "version")
  thresholds ← require "thresholds" d (missing_key "thresholds")
  limits ← require "limits" d (missing_key "limits")
  scores ← require "scores" d (missing_key "scores")
  discounts ← require "context_discounts" d (missing_key "context_discounts")
  check_version is_blank version
  th ← check_thresholds thresholds
  lm ← check_limits limits
  sc ← require_mapping "scores" scores
  check_scores sc
  cd ← require_mapping "context_discounts" discounts
  check_discounts cd
  ok (record {
    version = version;
    thresholds = th;
    limits = lm;
    scores = sc;
    context_discounts = cd;
  })
