-- ===== src/Governance/Outcomes.antt =====
-- What each operation of social/governance/service.go does to the tables, on every branch.
pub mod Vote
pub mod Resolve
pub mod Create
