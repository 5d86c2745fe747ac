-- ===== src/L2/Runs.antt =====
-- l2_checkpoint.go: every handler returns, and what it does is a sequence of the steps of L2.Steps.
pub mod Pending
pub mod Handled
pub mod Retried
pub mod Received
