-- ===== src/Network.antt =====
-- internal/network: connections that the firewall rejects, and the addresses to ban for them.
pub mod Scoring
pub mod Address
pub mod Rejects
pub mod Bans
pub mod Collector
pub mod Deletion
pub mod Forward
pub mod Formatting
