-- ===== src/Tests.antt =====
-- The theorems at concrete inputs, and runs of the code.
mod Samples
mod Text
mod Rules
mod Runtime
mod Secrets
mod Hooks
mod Loads
mod Scans
mod Variables
mod Lifecycle
