-- ===== src/Mysql.antt =====
-- driver/mysql: what its code and its engine do in their own way, and the driver.
pub mod Names
pub mod Claim
pub mod Maintenance
pub mod Publish
pub mod Stats
pub mod Admin
pub mod Driver
pub mod Histories
