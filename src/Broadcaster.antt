-- ===== src/Broadcaster.antt =====
-- node/broadcaster: the queue of messages that become transactions, and of transactions that wait to
-- be included in a block.
pub mod Types
pub mod Store
pub mod Chunks
pub mod Loops
pub mod Queue
pub mod Sending
pub mod Retry
pub mod Loading
