-- ===== src/Server.antt =====
-- The server that scores the samples: ml_server/.
pub mod Gating
pub mod Aggregates
pub mod Signals
pub mod Indicators
pub mod ScoreHistory
pub mod Context
pub mod Verdict
pub mod Analysis
pub mod Pipeline
pub mod Patterns
pub mod RiskVector
pub mod Quality
pub mod Counters
pub mod Features
pub mod Retraining
pub mod Anomaly
pub mod Boxplot
pub mod Extract
pub mod Retrieval
pub mod Policy
pub mod Agent
pub mod GlobalHw
pub mod Admin
