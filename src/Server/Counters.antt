-- ===== src/Server/Counters.antt =====
-- ml_server/silent_fail_counters.py: the dictionary `_COUNTERS` as a record with a field for each key.
use inha_rada.Common.{ℕ, ◌+◌}

pub record Counters : Type 0 where
  pub claude_mock_count : ℕ
  pub model_train_failure_count : ℕ
  pub model_predict_failure_count : ℕ
  pub retrieval_store_eviction_count : ℕ
  pub retrieval_evidence_skip_count : ℕ
  pub policy_reload_failed_count : ℕ

-- The keys; `unknown` is any other text, which is ignored.
pub data Key : Type 0 where
  claude_mock : Key
  model_train_failure : Key
  model_predict_failure : Key
  retrieval_store_eviction : Key
  retrieval_evidence_skip : Key
  policy_reload_failed : Key
  unknown : Key

unfoldable pub increment : Counters → Key → ℕ → Counters
increment c claude_mock n = record c { claude_mock_count = c.claude_mock_count + n }
increment c model_train_failure n = record c {
  model_train_failure_count = c.model_train_failure_count + n;
}
increment c model_predict_failure n = record c {
  model_predict_failure_count = c.model_predict_failure_count + n;
}
increment c retrieval_store_eviction n = record c {
  retrieval_store_eviction_count = c.retrieval_store_eviction_count + n;
}
increment c retrieval_evidence_skip n = record c {
  retrieval_evidence_skip_count = c.retrieval_evidence_skip_count + n;
}
increment c policy_reload_failed n = record c {
  policy_reload_failed_count = c.policy_reload_failed_count + n;
}
increment c unknown n = c

abbrev pub no_failures : Counters
no_failures = record {
  claude_mock_count = 0;
  model_train_failure_count = 0;
  model_predict_failure_count = 0;
  retrieval_store_eviction_count = 0;
  retrieval_evidence_skip_count = 0;
  policy_reload_failed_count = 0;
}
