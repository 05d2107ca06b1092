-- ===== src/Sidebar.antt =====
-- The sidebar and the bar above a page: web/src/components/app-sidebar.
pub mod Trail
pub mod Sharing
pub mod Buckets
mod Examples
