-- ===== src/Tests.antt =====
-- Runs of the scripts on a concrete network, and the theorems at concrete inputs.
pub mod Reference
pub mod Guards
pub mod Scripts
pub mod Common
pub mod Phase3
pub mod Services
pub mod Wallets
