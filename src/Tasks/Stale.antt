-- ===== src/Tasks/Stale.antt =====
-- That a granted lease is exclusive.
use octopus_job_search.Base.{ℕ, ◌≡◌, ◌≢◌, Bool, true, Option, some, arith}
use octopus_job_search.Tasks.Types.{TaskRow, TaskProgress, Json}
use octopus_job_search.Tasks.Store.{Store, Env, ok, err, task_by_id, stale_token}
use octopus_job_search.Tasks.Lease.{check_lease, is_leased, lock_leased_task, heartbeat_task}
use octopus_job_search.Tasks.Claim.{ClaimInput, ClaimResponse, claim_task}
use octopus_job_search.Tasks.Finish.{FailTaskInput, complete_task, fail_task}
use octopus_job_search.Tasks.Rows.{IsKeyed}
use octopus_job_search.Tasks.Grant.{claim_task-IsGranted}

stale_check :
    (now digest : ℕ) (row : TaskRow) {hash : ℕ}
    → is_leased row.state ≡ true
    → row.lease_token_hash ≡ some hash
    → digest ≢ hash
    → check_lease now digest row ≡ err stale_token
unfolding check_lease
stale_check now digest row l h other = ground arith

-- The digest on the row decides: a worker whose token has another digest is refused, whichever
-- write it attempts, and the store is as it was.
module _ {D : Type 0} (env : Env D) (now : ℕ) (s : Store D) (id token : ℕ) (row : TaskRow) where
  stale_lock :
      {hash : ℕ}
      → task_by_id id s.tasks ≡ some row
      → is_leased row.state ≡ true
      → row.lease_token_hash ≡ some hash
      → env.sha256_hex token ≢ hash
      → lock_leased_task env now s id token ≡ err stale_token
  unfolding lock_leased_task
  stale_lock {hash} found l h other =
      rw (found, lock_leased_task) (stale_check now (env.sha256_hex token) row l h other)

-- After a claim in a table where no two rows share an id, the task is under the new lease alone: a worker that held it before, whose token has
-- another digest, gets 409 for a heartbeat, a completion and a failure alike.
pub claim_task-stale :
    {D : Type 0} (env : Env D) (locked : ℕ → Bool) (now token later old : ℕ) (input : ClaimInput)
    (s : Store D) {response : ClaimResponse} {t : Store D}
    → IsKeyed s.tasks
    → claim_task env locked now token input s ≡ ok (some response, t)
    → env.sha256_hex old ≢ env.sha256_hex token
    → ((p : Option TaskProgress)
        → heartbeat_task env later t response.task_id old p ≡ err stale_token)
      × ((result : Json) → complete_task env later t response.task_id old result ≡ err stale_token)
      × ((draw : ℕ) (failure : FailTaskInput)
          → fail_task env later draw t response.task_id old failure ≡ err stale_token)
unfolding heartbeat_task complete_task fail_task
claim_task-stale env locked now token later old input s {response} {t} k e other =
    let granted = claim_task-IsGranted env locked now token input s k e in
    let stale =
      stale_lock env later t response.task_id old granted.0 granted.1 granted.2 granted.3 other in
    ((λ p. rw stale), (λ result. rw stale), (λ draw failure. rw stale))
