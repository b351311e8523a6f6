-- ===== src/Server/Policy.antt =====
-- The policy files: ml_server/policy.
pub mod Yaml
pub mod Validation
pub mod Answers
pub mod Sound
pub mod Sections
pub mod Loader
pub mod Reload
pub mod Usable
