-- ===== src/Tasks/Writes.antt =====
-- What each write of the queue makes of the row that it is applied to.
use octopus_job_search.Base.{
  ℕ, ◌+◌, ◌<◌, ◌≡◌, true, false, ◌&&◌, ◌||◌, Option, none, some, arith, refl, List, [], ◌∷◌, inl,
  inr,
}
use octopus_job_search.Base.Tests.{◌==◌, leb, or_else, Bool-cases}
use octopus_job_search.Base.Text.{Text}
use octopus_job_search.Tasks.Types.{
  TaskRow, TaskState, TaskProgress, TaskFailureCode, Message, Json,
}
use octopus_job_search.Tasks.Store.{ok, update_task, extend_result}
use octopus_job_search.Tasks.Retry.{no_retry}
use octopus_job_search.Tasks.Lease.{check_lease, is_leased, is_queued, is_past, beat}
use octopus_job_search.Tasks.Claim.{expire_row, cancel_row, lease_row, is_claimable}
use octopus_job_search.Tasks.Finish.{
  FailTaskInput, fail_row, cancelled_row, requeued_row, succeeded_row,
}
use octopus_job_search.Tasks.Sweep.{give_up_row, return_row, gives_up}
use octopus_job_search.Tasks.Rows.{Evolves}

-- What a passed lease check says of the row.
pub check_lease-eq-ok :
    (now digest : ℕ) (row : TaskRow) {c : TaskRow}
    → check_lease now digest row ≡ ok c
    → (row ≡ c)
      × (is_leased row.state ≡ true)
      × (row.lease_token_hash ≡ some digest)
      × (is_past row.lease_expires_at now ≡ false)
unfolding check_lease
check_lease-eq-ok now digest row e = ground (arith)

module _ (c : TaskRow) (lease : is_leased c.state ≡ true) where
  pub beat-Evolves : (now : ℕ) (p : Option TaskProgress) → Evolves c (beat now p c)
  beat-Evolves now p = ground arith

  pub fail_row-Evolves :
      (now : ℕ) (code : TaskFailureCode) (m : Message) → Evolves c (fail_row now code m c)
  fail_row-Evolves now code m = ground arith

  pub cancelled_row-Evolves :
      (now : ℕ) (input : FailTaskInput) → Evolves c (cancelled_row now input c)
  cancelled_row-Evolves now input = ground arith

  pub succeeded_row-Evolves : (now : ℕ) (result : Json) → Evolves c (succeeded_row now result c)
  succeeded_row-Evolves now result = ground arith

  pub requeued_row-Evolves :
      (now delay : ℕ) (input : FailTaskInput)
      → no_retry c.type ≡ false
      → c.attempt < c.max_attempts
      → Evolves c (requeued_row now delay input c)
  requeued_row-Evolves now delay input n b = ground arith

  pub expire_row-Evolves : (now : ℕ) (m : Message) → Evolves c (expire_row now m c)
  expire_row-Evolves now m = ground arith

  pub give_up_row-Evolves : (now : ℕ) → Evolves c (give_up_row now c c)
  give_up_row-Evolves now = ground arith

  pub return_row-Evolves : (now delay : ℕ) → gives_up c ≡ false → Evolves c (return_row now delay c)
  return_row-Evolves now delay g = ground arith

  pub ask_cancel-Evolves :
      (now : ℕ) → Evolves c (record c { cancel_requested = true; updated_at = now })
  ask_cancel-Evolves now = ground arith

pub cancel_row-Evolves :
    (now : ℕ) (c : TaskRow) → is_claimable now c ≡ true → Evolves c (cancel_row now c)
cancel_row-Evolves now c h = ground arith

pub cancel_queued-Evolves :
    (now : ℕ) (c : TaskRow)
    → is_queued c.state ≡ true
    → Evolves c
        (record c { state = TaskState.cancelled; cancel_requested = true; updated_at = now })
cancel_queued-Evolves now c h = ground arith

-- What a completion and the extension of its result make of the table together.
pub extended-tasks :
    (now id : ℕ) (result : Json) (extended : Option Json) (rs : List TaskRow)
    → extend_result now id extended (update_task id (succeeded_row now result) rs)
      ≡ update_task id (succeeded_row now (or_else extended result)) rs
unfolding update_task extend_result
extended-tasks now id result none rs = refl
extended-tasks now id result (some kept) [] = refl
extended-tasks now id result (some kept) (r ∷ rs) =
    let rest = extended-tasks now id result (some kept) rs in
    elim (Bool-cases (r.id == id)) [ inl t ↦ rw (t, t, rest) refl | inr f ↦ rw (f, f, rest) refl ]

-- A lease is granted to a row that is due and that the loop did not expire.
pub lease_row-Evolves :
    (now digest : ℕ) (worker_id : Text) (c : TaskRow)
    → is_claimable now c ≡ true
    → (is_leased c.state && (leb c.max_attempts c.attempt || no_retry c.type)) ≡ false
    → Evolves c (lease_row now (c.attempt + 1) digest worker_id c)
lease_row-Evolves now digest worker_id c h g = ground arith
