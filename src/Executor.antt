-- ===== src/Executor.antt =====
-- executor: the views of the two chains, and the reset of the heights.
pub mod Withdrawals
pub mod Child
pub mod Reset
pub mod Host
