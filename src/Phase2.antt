-- ===== src/Phase2.antt =====
-- scripts/deployment/phase2-assets/: the scripts that deploy the assets and the collateral of a network
-- and record their addresses in its file of assets and collateral.
pub mod Assets
pub mod Collateral
pub mod Recording
pub mod Blocks
pub mod Soundness
pub mod Iceth
