-- ===== src/Client.antt =====
-- The client of the lab PCs: client_core/.
pub mod Window
pub mod Queue
pub mod Sender
pub mod Sanitizer
pub mod Identity
pub mod Runtime
pub mod Detectors
pub mod Config
