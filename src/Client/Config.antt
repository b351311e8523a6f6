-- ===== src/Client/Config.antt =====
-- The configuration of the client: client_core/config.
pub mod Settings
pub mod Reading
pub mod Loading
pub mod Modes
