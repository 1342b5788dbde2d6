-- ===== src/Contracts.antt =====
-- contracts/deploy.py: the deployment of the two contracts.
pub mod Web3
pub mod Deploy
pub mod Artifacts
pub mod Created
pub mod Verified
pub mod Main
mod Tests
