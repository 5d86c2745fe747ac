-- ===== src/L3.antt =====
-- internal/helios/l3_finality.go: cells and devices attest that a block's data is available, and a
-- committed block with enough of them and of the stake becomes final.
pub mod State
pub mod Cells
pub mod Sampling
pub mod Finality
pub mod Handlers
pub mod Steps
pub mod Queries
mod Tests
