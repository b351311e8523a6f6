-- ===== src/Server/Retrieval.antt =====
-- Retrieval of similar segments: ml_server/retrieval.
pub mod Evidence
pub mod Score
pub mod Store
pub mod Nearest
pub mod Evictions
