-- ===== src/Challenger.antt =====
-- The challenger: what it watches for, and what it raises.
pub mod Event
pub mod Pending
pub mod Check
pub mod Keys
pub mod Store
pub mod Child
pub mod Latest
pub mod Records
pub mod Handler
pub mod Host
