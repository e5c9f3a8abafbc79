-- ===== src/Sqlite.antt =====
-- The SQLite driver (driver/sqlite/).
pub mod Schema
pub mod Engine
pub mod Invariant
pub mod Lifecycle
pub mod Evolution
pub mod Names
pub mod Sink
pub mod Publish
pub mod Claim
pub mod Finish
pub mod Maintenance
pub mod Stats
pub mod Flush
pub mod Admin
pub mod Driver
pub mod Fixture
pub mod Histories
