-- ===== src/Consensus.antt =====
-- The data and the rules of consensus/, less the engine that runs the rounds.
pub mod Staking
pub mod Validators
pub mod Votes
pub mod Commit
pub mod Selection
pub mod State
pub mod Engine
pub mod Tests
