-- ===== src/Store.antt =====
-- The dialect-agnostic package store (store/).
pub mod Errors
pub mod Types
pub mod Delay
pub mod Interface
pub mod Cache
