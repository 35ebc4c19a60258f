-- ===== src/Phase1.antt =====
-- scripts/deployment/phase1-common/: the scripts that deploy the protocol's contracts and record
-- their addresses in the deployment file of the network, and their order in scripts/deploy.ts.
pub mod Setup
pub mod Updating
pub mod Refining
pub mod Meeting
pub mod Implementing
pub mod Components
pub mod Completion
pub mod Implementations
pub mod Facades
pub mod Soundness
pub mod Starting
