-- ===== src/Provider.antt =====
-- provider: what the bots of both kinds share.
pub mod Messages
pub mod Parse
pub mod Start
