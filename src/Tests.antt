-- ===== src/Tests.antt =====
-- Runs of the program's parts at concrete inputs, at which the theorems are applied.
pub mod Samples
pub mod Codecs
pub mod Alerts
pub mod Store
pub mod Discoverers
pub mod Accounts
pub mod Pipeline
pub mod Registry
pub mod Mail
pub mod Sheets
pub mod Settings
