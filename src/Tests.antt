-- ===== src/Tests.antt =====
-- The theorems at concrete inputs, and the programs run on them.
mod Plans
mod Manifests
mod Schedules
mod Headers
mod Downloads
mod Transfers
mod Settings
mod Receptions
mod Adapters
