-- ===== src/Settings.antt =====
-- The settings of the user: web/src/components/settings-view and web/src/components/theme.
pub mod Theme
pub mod Style
pub mod Profile
mod Examples
