-- ===== src/L2.antt =====
-- internal/helios/l2_checkpoint.go: validators vote for blocks, quorums of votes become certificates,
-- and three certificates in a row commit a block.
pub mod State
pub mod Voting
pub mod Certificates
pub mod Handlers
pub mod Queries
pub mod Quorum
pub mod Steps
pub mod Runs
mod Tests
