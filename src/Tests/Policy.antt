-- ===== src/Tests/Policy.antt =====
-- The theorems on the policy, the configuration and the AI agent at concrete inputs.
use inha_rada.Common.{◌≡◌, refl, true, false, none, some, [], pos, negsuc}
use inha_rada.Server.Counters.{no_failures}
use inha_rada.Server.Gating.{Verdict}
use inha_rada.Server.Policy.Yaml.{Value, Fields, num, str, mapping, end, field, ok}
use inha_rada.Server.Policy.Sections.{Texts, finite, default_dedupe}
use inha_rada.Server.Policy.Loader.{ScoringPolicy, disabled, load_scoring_policy}
use inha_rada.Server.Policy.Usable.{IsUsable, load_scoring_policy-IsUsable}
use inha_rada.Server.Policy.Reload.{
  Files, Caches, Outcome, reload_policies, reload_policies-Outcome,
}
use inha_rada.Client.Config.Settings.{default_config}
use inha_rada.Client.Config.Loading.{Environment, Disk, load_config}
use inha_rada.Client.Config.Modes.{IsLoaded, load_config-IsLoaded}
use inha_rada.Server.Agent.{Answer, Case, Runner, doubtful, medium_level, boolean, run_ai_agent}
use inha_rada.Server.Agent.Judging.{IsAnswered, run_ai_agent-IsAnswered}

abbrev texts : Texts
texts = record {
  is_blank = λ s. false;
  float_of = λ s. none;
  int_of = λ s. none;
  str_of = λ v. "1.0";
  occurs_in = λ s t. false;
}

abbrev thresholds : Fields
thresholds =
    field "observe" (num (pos 3000))
      (field "suspicious" (num (pos 6000)) (field "high_risk" (num (pos 9000)) end))

abbrev limits : Fields
limits = field "ml_score_cap" (num (pos 3000)) (
    field "max_context_discount" (num (negsuc 3999))
      (field "danger_override_max_discount" (num (negsuc 999)) end))

abbrev discounts : Fields
discounts = field "startup" (num (negsuc 999)) end

abbrev policy_file : Value
policy_file = mapping (
    field "version" (str "1.0") (
      field "thresholds" (mapping thresholds) (
        field "limits" (mapping limits)
          (field "scores" (mapping end) (field "context_discounts" (mapping discounts) end)))))

abbrev policy : ScoringPolicy
policy = record {
  version = "1.0";
  thresholds = record { observe = pos 3000; suspicious = pos 6000; high_risk = pos 9000 };
  limits = record {
    ml_score_cap = pos 3;
    max_context_discount = negsuc 3;
    danger_override_max_discount = negsuc 0;
  };
  scores = end;
  context_discounts = discounts;
  category_patterns = end;
  gating = end;
  promotion_gating = disabled;
  dos_detection = record { min_inbound_mb_per_5s = finite (pos 0); min_sustained_count = 1 };
  episode_dedupe = default_dedupe;
}

policy_loads : load_scoring_policy texts (some policy_file) ≡ ok policy
unfolding load_scoring_policy
policy_loads = refl

load_scoring_policy-IsUsable_example : IsUsable policy
load_scoring_policy-IsUsable_example =
    load_scoring_policy-IsUsable texts (some policy_file) policy policy_loads

-- The policy's file is there, and that of the lists is not.
abbrev files : Files
files = record { scoring_policy = some policy_file; allowlist = none }

abbrev caches : Caches
caches = record { scoring = none; allow = none; counters = no_failures }

reload_policies-Outcome_example : Outcome texts files caches (reload_policies texts files caches)
reload_policies-Outcome_example = reload_policies-Outcome texts files caches

abbrev environment : Environment
environment = record {
  rada_mode = some "mlserver";
  rada_ml_server_url = none;
  rada_spring_boot_url = none;
  rada_api_key = none;
  rada_local_queue_path = none;
  rada_pc_id = none;
  rada_config = none;
  appdata = none;
}

abbrev disk : Disk
disk = record {
  exists = λ p. false;
  contents = λ p. num (pos 0);
  has_yaml = true;
  cwd_path = "config.yaml";
  appdata_path = λ p. p;
}

config_loads :
    load_config texts environment disk none true ≡ ok (record default_config { mode = "mlserver" })
unfolding load_config
config_loads = refl

load_config-IsLoaded_example : IsLoaded environment (record default_config { mode = "mlserver" })
load_config-IsLoaded_example =
    load_config-IsLoaded texts environment disk none true
      (record default_config { mode = "mlserver" }) config_loads

abbrev runner : Runner
runner = record {
  runtime_ai_disabled = false;
  use_real_claude = false;
  configured = true;
  counters = no_failures;
}

abbrev reply : Answer
reply = record {
  judgment = doubtful;
  severity = medium_level;
  hw_degradation = boolean true;
  is_mock = true;
}

abbrev quiet_case : Case
quiet_case = record { verdict = Verdict.observe; alerts = []; hw_detected = false }

run_ai_agent-IsAnswered_example :
    IsAnswered runner (some reply) (run_ai_agent runner (some reply) quiet_case)
run_ai_agent-IsAnswered_example = run_ai_agent-IsAnswered runner (some reply) quiet_case
