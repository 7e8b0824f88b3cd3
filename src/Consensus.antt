-- ===== src/Consensus.antt =====
-- src/consensus: votes on a contribution, and when they decide it.
pub mod Votes
pub mod Quorum
pub mod Witnesses
pub mod Round
pub mod Engine
