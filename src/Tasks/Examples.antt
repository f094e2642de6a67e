-- ===== src/Tasks/Examples.antt =====
-- Three tasks, one queued, one held past its deadline, one finished, and what the queue does to them.
use mathlib.Core.List.{Memᴰ}
use octopus_job_search.Base.{
  ℕ, ◌+◌, ◌*◌, ◌≤◌, ◌<◌, max, ◌≡◌, refl, Bool, true, false, Option, none, some, [], ◌∷◌, arith,
}
use octopus_job_search.Base.Lists.{All}
use octopus_job_search.Base.Text.{codes}
use octopus_job_search.Tasks.Types.{
  TaskType, fetch_board, fill_local, match_job, TaskArtifact, TaskState, queued, leased, succeeded,
  TaskRow, TaskProgress, Json, lease_ms, rate_limited, reported,
}
use octopus_job_search.Tasks.Store.{
  task_by_id, stale_token, Store, Env, ok, err, apply_domain_failure, failure_handler, update_task,
}
use octopus_job_search.Tasks.Claim.{
  ClaimInput, ClaimResponse, lease_row, worker, claim_task, claim_rounds, claim_candidate,
  lease_candidate, select_claim_candidate, is_claimable, in_workspace, is_candidate, first_of_rows,
  has_capability, workspace_filter, assert_capabilities_allowed, is_runner_only_capability,
}
use octopus_job_search.Tasks.Lease.{
  is_queued, load_input_files, lock_leased_task, check_lease, heartbeat_task,
}
use octopus_job_search.Tasks.Retry.{
  no_retry, random_scale, backoff_ms, exponential, jittered, truncate_message, is_retryable_failure,
  server_retryable,
}
use octopus_job_search.Tasks.Finish.{
  FailTaskInput, requeued_row, complete_task, succeeded_row, success_audit, fail_task, fail_locked,
  retry_delay,
}
use octopus_job_search.Tasks.Rows.{IsKeyed, IsSound}
use octopus_job_search.Tasks.Machine.{Reach, Step, Reach-IsSound, Reach-final, Reach-not_repeated}
use octopus_job_search.Tasks.Stale.{claim_task-stale}
use octopus_job_search.Tasks.Select.{IsDue, IsPassedOver, select_claim_candidate_lem}
use octopus_job_search.Tasks.Delay.{Decided, backoff_ms_bounds, fail_task-Decided}
use octopus_job_search.Tasks.Sweep.{
  give_up_row, Swept, reclaim_one, reclaim_all, reclaim_expired_leases,
}

abbrev task : ℕ → TaskType → TaskState → TaskRow
task id type state = record {
  id = id;
  workspace_id = 7;
  type = type;
  state = state;
  payload = codes "{}";
  result = none;
  idempotency_key = none;
  attempt = 0;
  max_attempts = 3;
  run_after = 10;
  lease_token_hash = none;
  lease_expires_at = none;
  leased_by = none;
  last_heartbeat_at = none;
  capability = type;
  progress = none;
  cancel_requested = false;
  error_code = none;
  error_message = none;
  error_retryable = none;
  input_file_ids = [];
  created_at = 10;
  updated_at = 10;
}

abbrev waiting : TaskRow
waiting = task 1 fetch_board queued

-- A form that a runner began to fill, and then fell silent.
abbrev held : TaskRow
held = record (task 2 fill_local leased) {
  attempt = 1;
  lease_token_hash = some 41;
  lease_expires_at = some 500;
  leased_by = some (codes "runner");
}

abbrev finished : TaskRow
finished = record (task 3 match_job succeeded) { attempt = 2 }

abbrev store : Store ℕ
store = record {
  tasks = waiting ∷ held ∷ finished ∷ [];
  artifacts = [];
  files = [];
  audits = [];
  domain = 0;
}

-- The handlers count their calls; the digest of a token is the token plus one.
abbrev env : Env ℕ
env = record {
  on_result = λ h row json d. ok (none, d + 1);
  on_failure = λ h row code m d. ok (d + 100);
  sha256_hex = λ t. t + 1;
  output_matches = λ type. some (λ json. true);
}

abbrev unlocked : ℕ → Bool
unlocked id = false

abbrev after_sweep : Store ℕ
after_sweep = record store {
  tasks = waiting ∷ give_up_row 1000 held held ∷ finished ∷ [];
  domain = 100;
}

abbrev swept : Swept
swept = record { requeued = []; failed = 2 ∷ [] }

store-IsKeyed : IsKeyed store.tasks
store-IsKeyed =
    ((λ e. omega (arith, e), (λ e. omega (arith, e), tt)), ((λ e. omega (arith, e), tt), (tt, tt)))

waiting-IsSound : IsSound waiting
unfolding no_retry
waiting-IsSound = record {
  queued_budget = λ e. omega arith;
  leased_budget = λ e. omega arith;
  held = λ e. cc;
  cleared = λ e. (refl, refl, refl);
  first_claim = λ e f. refl;
  one_claim = λ e. omega arith;
}

held-IsSound : IsSound held
held-IsSound = record {
  queued_budget = λ e. omega arith;
  leased_budget = λ e. omega arith;
  held = λ e. (refl, refl);
  cleared = λ e. cc;
  first_claim = λ e f. cc;
  one_claim = λ e. omega arith;
}

finished-IsSound : IsSound finished
unfolding no_retry
finished-IsSound = record {
  queued_budget = λ e. cc;
  leased_budget = λ e. cc;
  held = λ e. cc;
  cleared = λ e. (refl, refl, refl);
  first_claim = λ e f. cc;
  one_claim = λ e. cc;
}

store-IsSound : All IsSound store.tasks
store-IsSound = (waiting-IsSound, (held-IsSound, (finished-IsSound, tt)))

sweep : reclaim_expired_leases env 1000 (λ n. 0) unlocked 10 store ≡ ok (swept, after_sweep)
unfolding reclaim_expired_leases reclaim_all reclaim_one apply_domain_failure failure_handler
    update_task no_retry
sweep = refl

sweep-Reach : Reach env store after_sweep
sweep-Reach = Reach.next Reach.here (Step.sweeps 1000 (λ n. 0) unlocked 10 swept sweep)

Reach-IsSound_example : All IsSound after_sweep.tasks × IsKeyed after_sweep.tasks
Reach-IsSound_example = Reach-IsSound env store-IsKeyed store-IsSound sweep-Reach

Reach-final_example : Memᴰ finished after_sweep.tasks
Reach-final_example =
    Reach-final env finished store-IsKeyed (Memᴰ.tail (Memᴰ.tail (Memᴰ.head refl))) refl sweep-Reach

Reach-not_repeated_example :
    (d : TaskRow) × Memᴰ d after_sweep.tasks
    × (d.id ≡ 2)
    × (is_queued d.state ≡ false)
    × (d.attempt ≡ 1)
unfolding no_retry
Reach-not_repeated_example =
    Reach-not_repeated env held store-IsKeyed (Memᴰ.tail (Memᴰ.head refl)) refl refl sweep-Reach

-- A worker of the server asks for boards to fetch.
abbrev input : ClaimInput
input = record {
  principal = worker (codes "server");
  worker_id = codes "server";
  capabilities = fetch_board ∷ match_job ∷ [];
  protocol_version = 1;
}

abbrev response : ClaimResponse
response = record {
  task_id = 1;
  type = fetch_board;
  lease_token = 60;
  lease_expires_at = 100 + lease_ms;
  attempt = 1;
  max_attempts = 3;
  input = codes "{}";
  files = [];
}

abbrev after_claim : Store ℕ
after_claim = record store {
  tasks = lease_row 100 1 61 (codes "server") waiting ∷ held ∷ finished ∷ [];
}

claim : claim_task env unlocked 100 60 input store ≡ ok (some response, after_claim)
unfolding claim_task claim_rounds claim_candidate lease_candidate select_claim_candidate
    is_candidate first_of_rows has_capability workspace_filter assert_capabilities_allowed
    is_runner_only_capability load_input_files no_retry update_task
claim = refl

claim_task-stale_example :
    ((p : Option TaskProgress) → heartbeat_task env 200 after_claim 1 40 p ≡ err stale_token)
    × ((result : Json) → complete_task env 200 after_claim 1 40 result ≡ err stale_token)
    × ((draw : ℕ) (failure : FailTaskInput)
        → fail_task env 200 draw after_claim 1 40 failure ≡ err stale_token)
claim_task-stale_example =
    claim_task-stale env unlocked 100 60 200 40 input store store-IsKeyed claim
      (λ e. omega (arith, e))

selected : select_claim_candidate unlocked 100 input.capabilities none store.tasks ≡ some waiting
unfolding select_claim_candidate is_candidate first_of_rows has_capability
selected = refl

select_claim_candidate_lem_example :
    Memᴰ waiting store.tasks
    × (unlocked 1 ≡ false)
    × (has_capability input.capabilities fetch_board ≡ true)
    × (is_claimable 100 waiting ≡ true)
    × (in_workspace none waiting ≡ true)
    × IsDue 100 waiting
    × All (IsPassedOver unlocked 100 input.capabilities none waiting) store.tasks
select_claim_candidate_lem_example =
    select_claim_candidate_lem unlocked 100 input.capabilities none store.tasks selected

small : 7 < random_scale
small = omega arith

backoff_ms_bounds_example :
    (2000 ≤ backoff_ms 3 7)
    × (backoff_ms 3 7 ≤ 375000)
    × (3 * exponential 3 ≤ 4 * backoff_ms 3 7 + 2)
    × (4 * backoff_ms 3 7 ≤ max (4 * 2000) (5 * exponential 3 + 2))
backoff_ms_bounds_example = backoff_ms_bounds 3 7 small

-- The board answers 429 and asks for a pause of five seconds.
abbrev limited : FailTaskInput
limited = record {
  code = rate_limited;
  retryable = true;
  redacted_message = reported (codes "slow down");
  retry_after_ms = some 5000;
}

abbrev leased_row : TaskRow
leased_row = lease_row 100 1 61 (codes "server") waiting

abbrev requeued : TaskRow
requeued = requeued_row 150 5000 limited leased_row

abbrev after_failure : Store ℕ
after_failure = record store { tasks = requeued ∷ held ∷ finished ∷ [] }

failure : fail_task env 150 7 after_claim 1 60 limited ≡ ok (requeued, after_failure)
unfolding fail_task fail_locked lock_leased_task check_lease update_task is_retryable_failure
    no_retry server_retryable retry_delay backoff_ms exponential jittered truncate_message
failure = refl

fail_task-Decided_example :
    (task : TaskRow) × (lock_leased_task env 150 after_claim 1 60 ≡ ok task)
    × Decided 150 limited task requeued
    × (task_by_id task.id after_failure.tasks ≡ some requeued)
fail_task-Decided_example = fail_task-Decided env 150 7 small after_claim 1 60 limited failure

-- A file that the worker staged under its lease, and one of another lease.
abbrev artifact : ℕ → ℕ → Bool → TaskArtifact
artifact id digest committed = record {
  id = id;
  workspace_id = 7;
  task_id = 1;
  file_id = id;
  lease_token_hash = digest;
  committed = committed;
  updated_at = 120;
}

abbrev staged : Store ℕ
staged = record after_claim { artifacts = artifact 80 61 false ∷ artifact 81 33 false ∷ [] }

abbrev succeeded_task : TaskRow
succeeded_task = succeeded_row 160 (codes "{}") leased_row

abbrev after_completion : Store ℕ
after_completion = record {
  tasks = succeeded_task ∷ held ∷ finished ∷ [];
  artifacts = record (artifact 80 61 true) { updated_at = 160 } ∷ artifact 81 33 false ∷ [];
  files = [];
  audits = success_audit leased_row ∷ [];
  domain = 1;
}
