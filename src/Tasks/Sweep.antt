-- ===== src/Tasks/Sweep.antt =====
-- `reclaimExpiredLeases` of apps/api/src/tasks/queue.ts, the housekeeping sweep over the leases whose
-- worker never came back.
use octopus_job_search.Base.{ℕ, ◌+◌, Bool, true, false, not, ◌&&◌, ◌||◌, some, List, [], ◌∷◌, ◌++◌}
use octopus_job_search.Base.Tests.{leb, if◌then◌else◌}
use octopus_job_search.Base.Lists.{keep, take}
use octopus_job_search.Tasks.Types.{
  TaskRow, TaskState, queued, cancelled, timed_out, cancelled_by_user, TaskFailureCode,
  stopped_heartbeating,
}
use octopus_job_search.Tasks.Store.{
  Store, Env, Result, ok, ◌>>=◌, apply_domain_failure, update_task,
}
use octopus_job_search.Tasks.Retry.{no_retry, backoff_ms}
use octopus_job_search.Tasks.Lease.{is_leased, is_past}
use octopus_job_search.Tasks.Claim.{expiry_message}
use octopus_job_search.Tasks.Finish.{release_lease}

pub record Swept : Type 0 where
  pub requeued : List ℕ
  pub failed : List ℕ

abbrev pub gives_up : TaskRow → Bool
gives_up task = leb task.max_attempts task.attempt || (no_retry task.type || task.cancel_requested)

abbrev pub swept_state : TaskRow → TaskState
swept_state task = if task.cancel_requested then cancelled else TaskState.failed

abbrev pub swept_code : TaskRow → TaskFailureCode
swept_code task = if task.cancel_requested then cancelled_by_user else timed_out

abbrev pub give_up_row : ℕ → TaskRow → TaskRow → TaskRow
give_up_row now task r = record (release_lease now r) {
  state = swept_state task;
  error_code = some timed_out;
  error_message = some (expiry_message task.type);
  error_retryable = some false;
}

abbrev pub return_row : ℕ → ℕ → TaskRow → TaskRow
return_row now delay r = record (release_lease now r) {
  state = queued;
  run_after = now + delay;
  error_code = some timed_out;
  error_message = some stopped_heartbeating;
  error_retryable = some true;
}

abbrev pub has_expired : ℕ → TaskRow → Bool
has_expired now r = is_leased r.state && is_past r.lease_expires_at now

-- `draw` gives the jitter of each task.
module _ {D : Type 0} (env : Env D) (now : ℕ) (draw : ℕ → ℕ) where
  unfoldable pub reclaim_one : TaskRow → Swept → Store D → Result (Swept × Store D)
  reclaim_one task out s =
      if gives_up task
      then (apply_domain_failure env task (swept_code task) (expiry_message task.type)
            (record s { tasks = update_task task.id (give_up_row now task) s.tasks })
          >>= λ s'. ok (record out { failed = out.failed ++ task.id ∷ [] }, s'))
      else ok (
        record out { requeued = out.requeued ++ task.id ∷ [] },
        record s {
          tasks =
              update_task task.id (return_row now (backoff_ms task.attempt (draw task.id))) s.tasks;
        },
      )

  unfoldable pub reclaim_all : List TaskRow → Swept → Store D → Result (Swept × Store D)
  reclaim_all [] out s = ok (out, s)
  reclaim_all (task ∷ rest) out s =
      reclaim_one task out s >>= λ (out', s'). reclaim_all rest out' s'

  unfoldable pub reclaim_expired_leases : (ℕ → Bool) → ℕ → Store D → Result (Swept × Store D)
  reclaim_expired_leases locked limit s =
      reclaim_all (take limit (keep (λ r. has_expired now r && not (locked r.id)) s.tasks))
        (record { requeued = []; failed = [] }) s
