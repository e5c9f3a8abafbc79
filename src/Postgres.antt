-- ===== src/Postgres.antt =====
-- driver/postgres: what its code and its engine do in their own way, and the driver.
pub mod Names
pub mod Claim
pub mod Maintenance
pub mod Driver
pub mod Histories
