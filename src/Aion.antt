-- ===== src/Aion.antt =====
-- internal/aion: slots and epochs, entropy estimates, weights and ranks, and the election of leaders.
pub mod Bits
pub mod Weight
pub mod Rank
pub mod Order
pub mod Entropy
pub mod Scheduler
pub mod Commitment
pub mod ChainEntropy
pub mod Election
pub mod Leader
