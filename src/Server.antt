-- ===== src/Server.antt =====
-- What driver/postgres and driver/mysql share: the same code on two engines.
pub mod Engine
pub mod Publish
pub mod Finish
pub mod Maintenance
pub mod Stats
pub mod Admin
pub mod Claim
pub mod Histories
pub mod Fixture
