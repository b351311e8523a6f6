-- ===== src/Server/Extract.antt =====
-- ml_server/scorer/signal_extractor.py: from a sample and its history to the signals.
pub mod Sample
pub mod Statistics
pub mod Processes
pub mod Network
pub mod Recreation
pub mod Extraction
pub mod ColdStart
pub mod Streak
pub mod Steady
pub mod Infra
