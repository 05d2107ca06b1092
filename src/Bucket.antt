-- ===== src/Bucket.antt =====
-- A bucket as the client shows and edits it: web/src/components/bucket-view,
-- web/src/components/bucket-members, web/src/hooks/usePermissions.ts and the sharing form.
pub mod Email
pub mod Sharing
pub mod Members
pub mod Permissions
pub mod Items
pub mod Trash
pub mod Requests
pub mod FileActions
pub mod Menu
pub mod Cells
pub mod Page
pub mod Queries
pub mod Views
pub mod Uploads
pub mod Handlers
pub mod Run
mod Examples
