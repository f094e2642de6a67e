-- ===== src/Tasks.antt =====
-- The task queue of apps/api/src/tasks/queue.ts, with its vocabulary from
-- packages/contracts/src/tasks/registry.ts and its rows from apps/api/src/db/types.ts.
pub mod Types
pub mod Store
pub mod Retry
pub mod Lease
pub mod Claim
pub mod Finish
pub mod Sweep
pub mod Rows
pub mod Writes
pub mod Preserve
pub mod Select
pub mod PreserveClaim
pub mod Machine
pub mod Grant
pub mod Stale
pub mod Delay
pub mod Commit
pub mod Idempotency
pub mod Records
pub mod Replay
pub mod Enqueue
pub mod Staging
pub mod Swept
mod Replays
mod Sweeps
mod Enqueues
mod Examples
