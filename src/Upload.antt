-- ===== src/Upload.antt =====
-- Uploads: web/src/components/upload/context/UploadProvider.tsx and its helpers.
pub mod Provider
pub mod Transfer
pub mod Status
pub mod Life
pub mod Popover
mod Examples
