-- ===== src/Tests/Layers.antt =====
-- The theorems of the additive layers at concrete inputs.
use inha_rada.Common.{◌≢◌, true, false}
use inha_rada.Tests.Samples.{miner}
use inha_rada.Server.RiskVector.{IsPrimary, compute_risk_vector, compute_risk_vector-IsPrimary}
use inha_rada.Server.Quality.{
  Collection, full, low_level, Retrieval, compute_explanation_confidence, confidence_score, gains,
  losses,
}

compute_risk_vector-IsPrimary_example :
    IsPrimary (compute_risk_vector miner).axes (compute_risk_vector miner).primary_type
compute_risk_vector-IsPrimary_example = compute_risk_vector-IsPrimary miner

-- The list of connections was cut off.
abbrev truncated : Collection
truncated = record {
  network_missing = false;
  connections_truncated = true;
  process_missing = false;
  gpu_missing = false;
  gpu_partial = false;
  derived_missing = false;
}

abbrev similar : Retrieval
similar = record {
  available = true;
  similar_high_risk_count = 3;
  similar_suspicious_count = 0;
  similar_normal_count = 0;
  peer_mismatch = true;
  novelty = false;
  same_slot_peer_count = 4;
}

similar_above_low : (compute_explanation_confidence full similar).0 ≢ low_level
unfolding compute_explanation_confidence confidence_score gains losses
similar_above_low e = absurd (cc (e))
