-- ===== src/Extension.antt =====
-- apps/extension: what the browser extension decides about a page, apart from the browser.
pub mod Session
pub mod Named
pub mod Follows
pub mod Guarded
mod Examples
