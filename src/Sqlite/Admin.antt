-- ===== src/Sqlite/Admin.antt =====
-- driver/sqlite/admin.go: the admin surface, addressed by ids.
pub mod Listings
pub mod Daily
pub mod Dead
pub mod Cascade
