-- ===== src/Usage.antt =====
-- The daily model budget of apps/api/src/usage/service.ts: the ledger of reservations over a rolling
-- window, kept under the lease of the task that spends it.
pub mod Ledger
pub mod Service
pub mod Within
pub mod Isolation
pub mod Window
mod Examples
