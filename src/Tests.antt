-- ===== src/Tests.antt =====
-- Runs of the modelled code, and the theorems at concrete inputs.
mod Executor
mod Node
mod Store
mod Merkle
mod Challenger
mod Watcher
mod Level
mod Broadcaster
mod Batch
mod Block
mod Provider
mod Records
mod Host
mod Messages
