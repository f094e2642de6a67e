-- ===== src/Tasks/Finish.antt =====
-- How a lease ends, in apps/api/src/tasks/queue.ts: `completeTask`, `failTask` with `failTaskRow`,
-- and `cancelTask`.
use octopus_job_search.Base.{
  ℕ, ◌+◌, max, Bool, true, false, not, ◌&&◌, Option, none, some, List, [], ◌∷◌, ◌++◌, map,
}
use octopus_job_search.Base.Tests.{◌==◌, if◌then◌else◌}
use octopus_job_search.Base.Lists.{find, keep, elem}
use octopus_job_search.Base.Text.{codes}
use octopus_job_search.Tasks.Types.{
  TaskRow, TaskArtifact, FileRow, AuditEvent, TaskFailureCode, Message, Json, queued, succeeded,
  failed, cancelled, ready, provider_invalid_output, unsupported_task_type, rate_limited,
  no_output_schema, output_mismatch,
}
use octopus_job_search.Tasks.Store.{
  Store, Env, Result, ok, err, ◌>>=◌, no_such_task, apply_domain_result, apply_domain_failure,
  update_task,
}
use octopus_job_search.Tasks.Retry.{is_retryable_failure, backoff_ms, truncate_message}
use octopus_job_search.Tasks.Lease.{lock_leased_task, is_leased, is_queued}

pub record FailTaskInput : Type 0 where
  pub code : TaskFailureCode
  pub retryable : Bool
  pub redacted_message : Message
  pub retry_after_ms : Option ℕ

-- The columns that every end of a lease clears.
abbrev pub release_lease : ℕ → TaskRow → TaskRow
release_lease now r = record r {
  lease_token_hash = none;
  lease_expires_at = none;
  leased_by = none;
  updated_at = now;
}

abbrev pub fail_row : ℕ → TaskFailureCode → Message → TaskRow → TaskRow
fail_row now code message r = record (release_lease now r) {
  state = failed;
  error_code = some code;
  error_message = some (truncate_message message);
  error_retryable = some false;
}

abbrev pub cancelled_row : ℕ → FailTaskInput → TaskRow → TaskRow
cancelled_row now input r = record (release_lease now r) {
  state = cancelled;
  error_code = some input.code;
  error_message = some (truncate_message input.redacted_message);
  error_retryable = some false;
}

-- A 429 is never retried sooner than it asked.
abbrev pub is_rate_limited : TaskFailureCode → Bool
is_rate_limited rate_limited = true
is_rate_limited _ = false

unfoldable pub retry_delay : ℕ → FailTaskInput → ℕ
retry_delay backoff input = elim input.retry_after_ms [
  | none ↦ backoff
  | some asked ↦ if is_rate_limited input.code then max backoff asked else backoff
]

abbrev pub requeued_row : ℕ → ℕ → FailTaskInput → TaskRow → TaskRow
requeued_row now delay input r = record (release_lease now r) {
  state = queued;
  run_after = now + delay;
  error_code = some input.code;
  error_message = some (truncate_message input.redacted_message);
  error_retryable = some true;
}

abbrev pub succeeded_row : ℕ → Json → TaskRow → TaskRow
succeeded_row now result r = record (release_lease now r) {
  state = succeeded;
  result = some result;
  progress = some (record { stage = codes "complete"; percent = 100 });
  error_code = none;
  error_message = none;
  error_retryable = none;
}

pub record CompleteResult : Type 0 where
  pub task : TaskRow
  pub accepted : Bool

-- The artifacts staged under this very lease.
abbrev pub staged_under : TaskRow → ℕ → TaskArtifact → Bool
staged_under task digest a =
    a.task_id == task.id && (a.workspace_id == task.workspace_id && a.lease_token_hash == digest)

unfoldable pub commit_artifacts : ℕ → TaskRow → ℕ → List TaskArtifact → List TaskArtifact
commit_artifacts now task digest =
    map (λ a.
      if staged_under task digest a then record a { committed = true; updated_at = now } else a)

unfoldable pub publish_files : ℕ → TaskRow → List ℕ → List FileRow → List FileRow
publish_files now task ids = map (λ f.
    if f.workspace_id == task.workspace_id && elem f.id ids
    then record f { state = ready; expires_at = none; updated_at = now }
    else f)

abbrev pub success_audit : TaskRow → AuditEvent
success_audit task = record {
  workspace_id = task.workspace_id;
  action = codes "task.succeeded";
  object_id = task.id;
  object_type = codes "task";
  metadata = (task.type, task.attempt);
}

module _ {D : Type 0} (env : Env D) (now : ℕ) where
  -- `failTaskRow`: the row, then the domain row that it owns.
  unfoldable pub fail_task_row :
      TaskRow → TaskFailureCode → Message → Store D → Result (TaskRow × Store D)
  fail_task_row task code message s =
      let row : TaskRow = fail_row now code message task in
      apply_domain_failure env row code message
        (record s { tasks = update_task task.id (fail_row now code message) s.tasks })
      >>= λ s'. ok (row, s')

  unfoldable pub reject_result :
      TaskRow → TaskFailureCode → Message → Store D → Result (CompleteResult × Store D)
  reject_result task code message s = fail_task_row task code message s >>= λ (row, s').
      ok (record { task = row; accepted = false }, s')

  -- A result that matches its schema.
  unfoldable pub accept_result : TaskRow → ℕ → Json → Store D → Result (CompleteResult × Store D)
  accept_result task digest result s =
      let ids : List ℕ = map (λ a. a.file_id) (keep (staged_under task digest) s.artifacts) in
      let row : TaskRow = succeeded_row now result task in
      apply_domain_result env now row result (record s {
        artifacts = commit_artifacts now task digest s.artifacts;
        files = publish_files now task ids s.files;
        tasks = update_task task.id (succeeded_row now result) s.tasks;
      })
      >>= λ s'. ok (
        record { task = row; accepted = true },
        record s' { audits = s'.audits ++ success_audit task ∷ [] },
      )

  -- The completion under the lease, by the schema that is registered for the task's type.
  unfoldable pub complete_locked :
      TaskRow → ℕ → Json → Store D → Option (Json → Bool) → Result (CompleteResult × Store D)
  complete_locked task digest result s none =
      reject_result task unsupported_task_type (no_output_schema task.type) s
  complete_locked task digest result s (some check) =
      if check result
      then accept_result task digest result s
      else reject_result task provider_invalid_output (output_mismatch task.type) s

  unfoldable pub complete_task : Store D → ℕ → ℕ → Json → Result (CompleteResult × Store D)
  complete_task s task_id lease_token result =
      lock_leased_task env now s task_id lease_token >>= λ task.
      complete_locked task (env.sha256_hex lease_token) result s (env.output_matches task.type)

  abbrev pub write_row : TaskRow → (TaskRow → TaskRow) → Store D → Result (TaskRow × Store D)
  write_row task f s = ok (f task, record s { tasks = update_task task.id f s.tasks })

  -- The server decides whether a failure is retried; `draw` is the jitter's random number.
  unfoldable pub fail_locked : ℕ → FailTaskInput → TaskRow → Store D → Result (TaskRow × Store D)
  fail_locked draw input task s =
      if not task.cancel_requested
        && is_retryable_failure task.type input.code input.retryable task.attempt task.max_attempts
      then write_row task
          (requeued_row now (retry_delay (backoff_ms task.attempt draw) input) input) s
      else if task.cancel_requested
      then write_row task (cancelled_row now input) s
      else fail_task_row task input.code input.redacted_message s

  unfoldable pub fail_task : ℕ → Store D → ℕ → ℕ → FailTaskInput → Result (TaskRow × Store D)
  fail_task draw s task_id lease_token input =
      lock_leased_task env now s task_id lease_token >>= λ task. fail_locked draw input task s

  -- A queued task is cancelled at once, a leased one is told at its next heartbeat.
  unfoldable pub cancel_locked : TaskRow → Store D → Result (TaskRow × Store D)
  cancel_locked row s =
      if is_queued row.state
      then write_row row
          (λ r. record r { state = cancelled; cancel_requested = true; updated_at = now }) s
      else if is_leased row.state
      then write_row row (λ r. record r { cancel_requested = true; updated_at = now }) s
      else ok (row, s)

  unfoldable pub cancel_task : Store D → ℕ → ℕ → Result (TaskRow × Store D)
  cancel_task s workspace_id task_id =
      elim (find (λ r. r.id == task_id && r.workspace_id == workspace_id) s.tasks) [
        | none ↦ err no_such_task
        | some row ↦ cancel_locked row s
      ]
