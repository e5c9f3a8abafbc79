-- ===== src/Server/Admin.antt =====
-- driver/postgres/admin.go and driver/mysql/admin.go.
pub mod Listings
pub mod Dead
pub mod Cascade
