-- ===== src/Tasks/Lease.antt =====
-- What a worker may do under its lease, in apps/api/src/tasks/queue.ts: `lockLeasedTask`,
-- `heartbeatTask`, `authorizeTaskFile`, `authorizeArtifactUpload` and `loadInputFiles`.
-- `now` is the clock (`Date.now()`, and the database's `now()`) during the transaction.
use octopus_job_search.Base.{
  ℕ, ◌+◌, Bool, true, false, not, ◌&&◌, ◌||◌, Option, none, some, List, map,
}
use octopus_job_search.Base.Tests.{◌==◌, leb, if◌then◌else◌, same_opt}
use octopus_job_search.Base.Lists.{find, keep, elem}
use octopus_job_search.Base.Text.{Text}
use octopus_job_search.Tasks.Types.{
  TaskRow, TaskState, TaskProgress, FileRow, queued, leased, lease_ms,
}
use octopus_job_search.Tasks.Store.{
  Store, Env, Result, ok, err, ◌>>=◌, no_such_task, not_leased, stale_token, lease_expired,
  invalid_token, not_an_input, no_such_file, update_task, task_by_id,
}

abbrev pub is_leased : TaskState → Bool
is_leased leased = true
is_leased _ = false

abbrev pub is_queued : TaskState → Bool
is_queued queued = true
is_queued _ = false

-- A deadline that is set and has passed (`<=` is false of null in SQL).
abbrev pub is_past : Option ℕ → ℕ → Bool
is_past none now = false
is_past (some t) now = leb t now

-- The checks of `lockLeasedTask` on the row that it found.
unfoldable pub check_lease : ℕ → ℕ → TaskRow → Result TaskRow
check_lease now digest row = elim row.lease_token_hash [
  | none ↦ err not_leased
  | some hash ↦
      if not (is_leased row.state)
      then err not_leased
      else if not (hash == digest)
      then err stale_token
      else if is_past row.lease_expires_at now
      then err lease_expired
      else ok row
]

abbrev find_or {ℓ} : {A : Type ℓ} → Option A → Result A → Result A
find_or none r = r
find_or (some a) r = ok a

pub record HeartbeatResult : Type 0 where
  pub cancel_requested : Bool
  pub lease_expires_at : ℕ

pub record TaskInputFile : Type 0 where
  pub file_id : ℕ
  pub purpose : Text
  pub original_name : Text
  pub mime : Text
  pub bytes : ℕ
  pub sha256 : ℕ

pub record ServedFile : Type 0 where
  pub workspace_id : ℕ
  pub storage_key : Text
  pub original_name : Text
  pub mime : Text

abbrev to_input_file : FileRow → TaskInputFile
to_input_file f = record {
  file_id = f.id;
  purpose = f.purpose;
  original_name = f.original_name;
  mime = f.mime;
  bytes = f.bytes;
  sha256 = f.sha256;
}

abbrev to_served_file : TaskRow → FileRow → ServedFile
to_served_file task f = record {
  workspace_id = task.workspace_id;
  storage_key = f.storage_key;
  original_name = f.original_name;
  mime = f.mime;
}

-- The write of a heartbeat.
abbrev pub beat : ℕ → Option TaskProgress → TaskRow → TaskRow
beat now progress r = record r {
  lease_expires_at = some (now + lease_ms);
  last_heartbeat_at = some now;
  progress = elim progress [ none ↦ r.progress | some p ↦ some p ];
  updated_at = now;
}

module _ {D : Type 0} (env : Env D) where
  unfoldable pub lock_leased_task : ℕ → Store D → ℕ → ℕ → Result TaskRow
  unfolding check_lease
  lock_leased_task now s task_id lease_token = elim (task_by_id task_id s.tasks) [
    | none ↦ err no_such_task
    | some row ↦ check_lease now (env.sha256_hex lease_token) row
  ]

  unfoldable pub heartbeat_task :
      ℕ → Store D → ℕ → ℕ → Option TaskProgress → Result (HeartbeatResult × Store D)
  heartbeat_task now s task_id lease_token progress =
      lock_leased_task now s task_id lease_token >>= λ task. ok (
        record { cancel_requested = task.cancel_requested; lease_expires_at = now + lease_ms },
        record s { tasks = update_task task.id (beat now progress) s.tasks },
      )

  -- Only declared inputs, and only from the task's workspace.
  unfoldable pub load_input_files : Store D → TaskRow → List TaskInputFile
  load_input_files s task =
      map to_input_file
        (keep (λ f. f.workspace_id == task.workspace_id && elem f.id task.input_file_ids) s.files)

  unfoldable pub authorize_task_file : Store D → ℕ → ℕ → ℕ → Result ServedFile
  authorize_task_file s task_id file_id lease_token = elim (task_by_id task_id s.tasks) [
    | none ↦ err no_such_task
    | some task ↦
        if not (is_leased task.state)
          || not (same_opt task.lease_token_hash (some (env.sha256_hex lease_token)))
        then err invalid_token
        else if not (elem file_id task.input_file_ids)
        then err not_an_input
        else elim (find (λ f. f.id == file_id && f.workspace_id == task.workspace_id) s.files) [
          | none ↦ err no_such_file
          | some f ↦ ok (to_served_file task f)
        ]
  ]

  unfoldable pub authorize_artifact_upload : ℕ → Store D → ℕ → ℕ → Result TaskRow
  authorize_artifact_upload now s task_id lease_token = elim (task_by_id task_id s.tasks) [
    | none ↦ err no_such_task
    | some task ↦
        if not (is_leased task.state)
          || not (same_opt task.lease_token_hash (some (env.sha256_hex lease_token)))
        then err invalid_token
        else if is_past task.lease_expires_at now
        then err lease_expired
        else ok task
  ]
