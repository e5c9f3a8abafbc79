-- ===== src/Client.antt =====
-- client.go: Client and Consumer over the store interface.
pub mod Options
pub mod Publishing
pub mod Finishing
pub mod Reads
pub mod Consumer
pub mod Upkeep
