-- ===== src/L1.antt =====
-- internal/helios/l1_notarization.go: nodes attest to the blocks that they see, and a block with enough
-- attesters is notarized.
pub mod State
pub mod Records
pub mod Handlers
pub mod Index
pub mod Counting
pub mod Notarize
pub mod Stale
mod Tests
