-- ===== src/Tests.antt =====
-- The theorems at concrete inputs.
mod Samples
mod Client
mod Server
mod Verdicts
mod Patterns
mod Layers
mod Learning
mod Extract
mod Policy
mod Payload
mod Rows
mod Windows
mod Predictions
