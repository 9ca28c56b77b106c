-- ===== src/Governance.antt =====
-- social/governance: proposals to change a group's configuration, votes, and their resolution.
pub mod Types
pub mod Quorum
pub mod Config
pub mod Store
pub mod Service
pub mod Repository
pub mod Governor
pub mod Quiet
pub mod Outcomes
pub mod Sound
pub mod Requests
pub mod Ballots
pub mod Race
pub mod Postgres
mod Examples
