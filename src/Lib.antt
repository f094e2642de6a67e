-- ===== src/Lib.antt =====
-- Octopus Job Search: the task queue of its API with its usage budget and its replayed responses, the
-- planner that decides what is typed into an application form, the judgement of its browser
-- extension, the life of an application and the reports that move it, the policy for outbound
-- requests, and the archive of an export.
--
-- The parts and how they meet. The API keeps tasks in a table; workers claim them under a lease,
-- report heartbeats, reserve model usage, and complete or fail them, and a task's end is passed on to
-- the rows of the component that owns it. One such task, and one such client, the extension, fills a
-- form: it reads the page, compares its identity with what the approved packet names, and asks the
-- planner what to type. Its report moves the application, or writes a packet with the questions that
-- it found; an observation of the page after the person submitted records what was seen. An
-- application is filled only from a packet that a person approved and that still describes the world.
--
-- * Tasks (apps/api/src/tasks/queue.ts, packages/contracts/src/tasks/registry.ts). Types has the rows,
--   Store the tables and the calls of the domain handlers, Retry `isRetryableFailure` and `backoffMs`,
--   Lease `lockLeasedTask`, `heartbeatTask` and the file authorisations, Claim `claimTask`, Finish
--   `completeTask`, `failTask` and `cancelTask`, Sweep `reclaimExpiredLeases`. Rows, Writes, Preserve
--   and PreserveClaim say how a row evolves, Machine makes the operations steps of a machine; Select,
--   Grant, Stale, Delay and Commit are about single operations. Idempotency is
--   apps/api/src/tasks/idempotency.ts, Records and Replay hold the proof about it;
--   Staging is `sweepStaleArtifacts` of apps/api/src/tasks/scheduler.ts, Swept the proof; Enqueue
--   is apps/api/src/tasks/enqueue.ts.
-- * Usage (apps/api/src/usage/service.ts). Ledger has the rows, totals, prices and the budget, Service
--   `reserveUsage`, `settleUsage`, `releaseUsage` and `summariseUsage`; Within, Window and Isolation
--   hold the proofs.
-- * Workspace (apps/api/src/workspace/zip.ts). Zip is `buildZip`, Reader a reader of such archives that
--   knows nothing of the writer; Entries, Archive and Bounds hold the proofs.
-- * Network (apps/api/src/settings/network.ts and providers.ts). Parse reads addresses, Ranges says
--   which are private, Policy is `assertUrlAllowed`, Settings what a provider setting may name; Blocks,
--   Quads, Allowed and Stored hold the proofs.
-- * FillPlanner (packages/fill-planner/src). Forms is forms.ts; Values, Inspect and Identity are
--   inspect.ts: the values that a page reader sends, the fields, and the page's identity; Plan is
--   plan.ts. Honesty says what a plan may be; Keys, Fingerprint, Reading, Chosen and Honest hold the
--   proofs.
-- * Extension (apps/extension/src/session.ts). Session is `decide` and what belongs to it; Named,
--   Follows and Guarded hold the proof about it.
-- * Applications (packages/contracts/src/schemas/applications.ts, and service.ts, fillable.ts, fill.ts
--   and observe.ts of apps/api/src/applications). Status is the transition table, Transition
--   `transitionApplication`, Packet the staleness of a packet and `fillRefusal`, Reconcile
--   `reconcileApplications`, Discover the questions that a fill finds, Fill its report, Observe that of
--   an observation; Review, History, Ready, Withdrawn, Observed, Discovered, Paused, Revised and
--   Late hold the proofs.
-- * Base has the tests, lists, texts and the sort that they share.
--
-- How the code is modelled. A database transaction is a function from the tables to a result and the
-- new tables: a thrown error gives no tables, as the transaction is rolled back. Rows that another
-- transaction has locked are an argument (`FOR UPDATE SKIP LOCKED`). All readings of the clock in one
-- transaction, the database's and the process's, are one argument `now`, in milliseconds; a request
-- with an Idempotency-Key, which is no transaction, has two. Ids, tokens and digests are numbers, texts
-- are lists of code units, buffers lists of bytes, numbers of JavaScript in a form are their texts. The
-- random number of the backoff is an argument below 2^53, and the rounding is exact. Money is a whole
-- number: of millionths in the database, in budgets and in rate cards, and of millionths of those in a
-- price. Tables of applications and packets hold the rows of one workspace, to which the code's scope
-- restricts each query.
--
-- Parameters. The queue's domain handlers, of which one for a result may give another to be stored
-- (`extendTaskResult` of apps/api/src/discovery/imports.ts), the handler of a request, the digest
-- of a token, the schema checks of payloads, results and settings, the preference for requests a
-- day, the URL parser and the origin of a URL, the resolver, `isIP`, the SHA-256 of fingerprints
-- and content hashes, JSON, UTF-8, the checksum of an archive's entry, the object store and
-- `toLowerCase` are arguments: code of other components, of the platform or of libraries. One
-- theorem assumes that a checksum has 32 bits, and one speaks of the dotted quads that `isIP`
-- knows.
--
-- Bounds. No definition runs on fuel: loops are recursions on lists, and the claim's loop over ten
-- candidates is a recursion on that number, as in the source.
--
-- Not modelled: the writes of workspace deletion to the task table, HTTP routes, authentication,
-- the rest of the scheduler, the domain handlers other than those of fills and observations, the
-- loading of an application's context, the fill sessions of the extension, job discovery, the
-- rounding of floating-point sums, the web application and the Python worker. The limits that JSON
-- schemas put on lengths are not modelled.
pub mod Base
pub mod Tasks
pub mod Usage
pub mod Workspace
pub mod Network
pub mod FillPlanner
pub mod Extension
pub mod Applications
