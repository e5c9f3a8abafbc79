-- ===== src/Admin.antt =====
-- admin/: the pages and the JSON endpoints on a Client.
pub mod Heatmap
pub mod Prefix
pub mod Views
pub mod Replies
pub mod Loads
pub mod Pages
pub mod Dead
pub mod Api
pub mod Middleware
pub mod Routes
pub mod Links
