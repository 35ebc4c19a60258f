-- ===== src/Phase3.antt =====
-- scripts/deployment/phase3-rtoken/: the configuration of the RToken of a network, and the scripts that
-- deploy the RToken and its governance.
pub mod Config
pub mod Values
pub mod Bounds
pub mod Scripts
pub mod Guarding
pub mod Soundness
pub mod Updating
pub mod Starting
pub mod Recording
pub mod Telling
pub mod Asking
