-- ===== src/Network.antt =====
-- The destination policy for outbound requests, apps/api/src/settings/network.ts, and its use for
-- provider settings in apps/api/src/settings/providers.ts.
pub mod Parse
pub mod Ranges
pub mod Blocks
pub mod Quads
pub mod Policy
pub mod Settings
pub mod Allowed
pub mod Stored
mod Examples
