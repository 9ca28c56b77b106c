-- ===== src/Governance/Repository/Sound.antt =====
-- The invariant of the tables of social/governance/repository.go, and its preservation.
pub mod Inv
pub mod Approve
pub mod Reject
pub mod Create
