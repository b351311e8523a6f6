-- ===== src/Server/Agent.antt =====
-- ml_server/agent/runner.py and mock_agent.py, without the texts for people. The call of the Claude
-- API is a parameter.
pub mod Judging
use inha_rada.Common.{Bool, true, false, not, ◌&&◌, Option, none, some, List, if◌then◌else◌, any}
use inha_rada.Server.Counters.{Counters, claude_mock, increment}
use inha_rada.Server.Gating.{Verdict, high_risk, suspicious, observe, normal}

-- What the mock reads of an alert: whether its type begins with `LOCAL_`, contains `MEM`, and is
-- `CONFIRMED_MINING`, and whether its severity is HIGH.
pub record AlertFacts : Type 0 where
  pub is_local : Bool
  pub has_mem : Bool
  pub is_confirmed_mining : Bool
  pub is_high : Bool

pub data Judgment : Type 0 where
  fine doubtful dangerous : Judgment

pub data Level : Type 0 where
  low_level medium_level high_level : Level

-- The value of `hw_degradation` as it stands in an answer.
pub data HwField : Type 0 where
  none_status suspected confirmed : HwField
  boolean : Bool → HwField
  -- another value, or no such key
  unknown_status : HwField

pub record Answer : Type 0 where
  pub judgment : Judgment
  pub severity : Level
  pub hw_degradation : HwField
  pub is_mock : Bool

-- What the mock's answer depends on; the loads and the other scores stand only in its texts.
pub record Case : Type 0 where
  pub verdict : Verdict
  pub alerts : List AlertFacts
  pub hw_detected : Bool

unfoldable pub is_layer1_high : AlertFacts → Bool
is_layer1_high a = a.is_local && a.is_high

unfoldable pub is_layer1_mem : AlertFacts → Bool
unfolding is_layer1_high
is_layer1_mem a = is_layer1_high a && a.has_mem

unfoldable pub hw_status : Bool → HwField
hw_status true = confirmed
hw_status false = none_status

unfoldable pub answer : Judgment → Level → HwField → Answer
answer j s hw = record { judgment = j; severity = s; hw_degradation = hw; is_mock = true }

-- The answer by the verdict.
unfoldable pub by_verdict : Case → Verdict → Answer
unfolding answer hw_status
by_verdict c Verdict.high_risk = answer dangerous high_level (hw_status c.hw_detected)
by_verdict c Verdict.suspicious = answer doubtful medium_level (hw_status c.hw_detected)
by_verdict c Verdict.observe = answer doubtful low_level (hw_status c.hw_detected)
by_verdict c Verdict.normal =
    if c.hw_detected
    then answer doubtful medium_level suspected
    else answer fine low_level (hw_status c.hw_detected)

-- `mock_agent_judgment`: a local HIGH alert counts only if one of them is of the memory.
unfoldable pub mock_agent_judgment : Case → Answer
unfolding is_layer1_mem by_verdict answer hw_status
mock_agent_judgment c =
    if any is_layer1_mem c.alerts
    then answer doubtful high_level (hw_status c.hw_detected)
    else if any (λ a. a.is_confirmed_mining) c.alerts
    then answer dangerous high_level (hw_status c.hw_detected)
    else by_verdict c c.verdict

-- `_normalize_hw_degradation`
unfoldable pub normalize_hw_degradation : HwField → HwField
normalize_hw_degradation (boolean true) = suspected
normalize_hw_degradation (boolean false) = none_status
normalize_hw_degradation none_status = none_status
normalize_hw_degradation suspected = suspected
normalize_hw_degradation confirmed = confirmed
normalize_hw_degradation unknown_status = none_status

-- The module's two variables and the counters; `configured` is `config.use_real_claude()`.
pub record Runner : Type 0 where
  pub runtime_ai_disabled : Bool
  pub use_real_claude : Bool
  pub configured : Bool
  pub counters : Counters

unfoldable pub set_ai_enabled : Bool → Runner → Runner
set_ai_enabled enabled r = record r { runtime_ai_disabled = not enabled }

unfoldable pub is_ai_enabled : Runner → Bool
is_ai_enabled r = not r.runtime_ai_disabled

unfoldable pub should_use_claude : Runner → Bool
should_use_claude r =
    if r.runtime_ai_disabled then false else if r.use_real_claude then true else r.configured

unfoldable pub normalized : Bool → Answer → Answer
unfolding normalize_hw_degradation
normalized mock a = record a {
  hw_degradation = normalize_hw_degradation a.hw_degradation;
  is_mock = mock;
}

-- `run_ai_agent`; the reply of the API is `none` where the call raises.
unfoldable pub run_ai_agent : Runner → Option Answer → Case → Answer × Runner
unfolding should_use_claude normalized mock_agent_judgment increment
run_ai_agent r reply c =
    if should_use_claude r
    then elim reply [
      | some a ↦ (normalized false a, r)
      | none ↦ (
        normalized true (mock_agent_judgment c),
        record r { counters = increment r.counters claude_mock 1 },
      )
    ]
    else (normalized true (mock_agent_judgment c), r)
