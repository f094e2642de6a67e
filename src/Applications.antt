-- ===== src/Applications.antt =====
-- apps/api/src/applications: the life of an application, its approved packet, and when it may be
-- filled.
pub mod Status
pub mod Transition
pub mod Packet
pub mod Reconcile
pub mod Review
pub mod History
pub mod Ready
pub mod Withdrawn
pub mod Observe
pub mod Observed
pub mod Discover
pub mod Fill
pub mod Discovered
pub mod Paused
pub mod Revised
pub mod Late
mod Examples
mod Reports
