-- ===== src/Workspace.antt =====
-- The archive of a workspace's export, apps/api/src/workspace/zip.ts.
pub mod Zip
pub mod Reader
pub mod Entries
pub mod Archive
pub mod Bounds
mod Examples
