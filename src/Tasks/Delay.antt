-- ===== src/Tasks/Delay.antt =====
-- How long a retry waits.
use octopus_job_search.Base.{
  ℕ, ◌+◌, ◌*◌, ◌/◌, ◌^◌, ◌≤◌, ◌<◌, max, ◌≡◌, refl, Bool, true, false, some, ◌⊎◌, inl, inr, sym, ap,
  arith,
}
use octopus_job_search.Tasks.Types.{
  TaskRow, TaskType, TaskFailureCode, Message, queued, cancelled, failed,
}
use octopus_job_search.Tasks.Store.{
  Store, Env, ok, >>=-eq-ok, ok-injective, apply_domain_failure, tasks-apply_domain_failure,
  task_by_id, update_task,
}
use octopus_job_search.Tasks.Rows.{task_by_id-update-found}
use octopus_job_search.Tasks.Preserve.{lock_leased_task-found}
use octopus_job_search.Tasks.Lease.{lock_leased_task}
use octopus_job_search.Base.Tests.{if◌then◌else◌, or_else, Bool-cases}
use octopus_job_search.Tasks.Retry.{
  no_retry, server_retryable, is_retryable_failure, exponential, jittered, backoff_ms, random_scale,
}
use octopus_job_search.Tasks.Finish.{
  FailTaskInput, is_rate_limited, retry_delay, fail_row, cancelled_row, requeued_row, write_row,
  fail_task_row, fail_locked, fail_task,
}

exponential_bounds : (attempt : ℕ) → exponential attempt ≤ 300000
unfolding exponential
exponential_bounds attempt = omega arith

mul_mono : (e a b : ℕ) → a < b → e * a ≤ e * b
mul_mono e a b h = grind arith

-- The jitter moves the delay by a quarter at most, the rounding by a half.
jittered_bounds :
    (e draw : ℕ)
    → draw < 2 ^ 53
    → (3 * e ≤ 4 * ((jittered e draw + 2 ^ 53) / 2 ^ 54) + 2)
      × (4 * ((jittered e draw + 2 ^ 53) / 2 ^ 54) ≤ 5 * e + 2)
unfolding jittered
jittered_bounds e draw h = omega (arith, mul_mono e draw (2 ^ 53))

-- A retry waits for two seconds at least and 375 at most, and within a quarter of the doubling delay
-- (2 s, 4 s, 8 s and so on, 300 s at most), to the rounding, where that is more than two seconds.
pub backoff_ms_bounds :
    (attempt draw : ℕ)
    → draw < random_scale
    → (2000 ≤ backoff_ms attempt draw)
      × (backoff_ms attempt draw ≤ 375000)
      × (3 * exponential attempt ≤ 4 * backoff_ms attempt draw + 2)
      × (4 * backoff_ms attempt draw ≤ max (4 * 2000) (5 * exponential attempt + 2))
unfolding backoff_ms
backoff_ms_bounds attempt draw h =
    omega (arith, exponential_bounds attempt, jittered_bounds (exponential attempt) draw h)

-- The pause that a 429 asked for, in milliseconds.
abbrev pub asked_pause : FailTaskInput → ℕ
asked_pause input = if is_rate_limited input.code then or_else input.retry_after_ms 0 else 0

-- How long the task of a requeued row waits, counted from the failure.
abbrev pub Waits : ℕ → FailTaskInput → TaskRow → Type 0
Waits now input row =
    (now + 2000 ≤ row.run_after)
    × (now + asked_pause input ≤ row.run_after)
    × (row.run_after ≤ now + max 375000 (asked_pause input))

-- What the server decides about a reported failure, for the row of the lease.
abbrev pub Decided : ℕ → FailTaskInput → TaskRow → TaskRow → Type 0
Decided now input task row =
    ((row.state ≡ queued)
      × (no_retry task.type ≡ false)
      × (input.retryable ≡ true)
      × (server_retryable input.code ≡ true)
      × (task.attempt < task.max_attempts)
      × (task.cancel_requested ≡ false)
      × Waits now input row)
    ⊎ ((row.state ≡ cancelled) × (task.cancel_requested ≡ true))
    ⊎ ((row.state ≡ failed)
        × (task.cancel_requested ≡ false)
        × (is_retryable_failure task.type input.code input.retryable task.attempt task.max_attempts
            ≡ false))

retryable_parts :
    (type : TaskType) (code : TaskFailureCode) (retryable : Bool) (attempt max_attempts : ℕ)
    → is_retryable_failure type code retryable attempt max_attempts ≡ true
    → (no_retry type ≡ false)
      × (retryable ≡ true)
      × (server_retryable code ≡ true)
      × (attempt < max_attempts)
unfolding is_retryable_failure
retryable_parts type code retryable attempt max_attempts h = ground arith

requeued-Waits :
    (now draw attempt : ℕ) (input : FailTaskInput) (row : TaskRow)
    → draw < random_scale
    → row.run_after ≡ now + retry_delay (backoff_ms attempt draw) input
    → Waits now input row
unfolding retry_delay
requeued-Waits now draw attempt input row h e =
    let bounds = backoff_ms_bounds attempt draw h in (ground arith, ground arith, ground arith)

module _ {D : Type 0} (env : Env D) (now draw : ℕ) (small : draw < random_scale) where
  fail_task_row_failed :
      (task : TaskRow) (code : TaskFailureCode) (m : Message) (s : Store D) {row : TaskRow}
      {t : Store D}
      → task_by_id task.id s.tasks ≡ some task
      → fail_task_row env now task code m s ≡ ok (row, t)
      → (row.state ≡ failed) × (task_by_id task.id t.tasks ≡ some row)
  unfolding fail_task_row
  fail_task_row_failed task code m s found e =
      let (u, applied, written) = >>=-eq-ok (apply_domain_failure env _ code m _) _ e in
      let tables = tasks-apply_domain_failure env _ code m _ applied in
      let pair = ok-injective written in
      (
        sym (ap (λ q. q.0.state) pair),
        rw (← ap (λ q. q.0) pair, ← ap (λ q. q.1.tasks) pair, tables.0)
            (task_by_id-update-found task.id (fail_row now code m) s.tasks found refl),
      )

  -- A written row is the one that is returned.
  write_row-stored :
      (task : TaskRow) (f : TaskRow → TaskRow) (s : Store D) {row : TaskRow} {t : Store D}
      → task_by_id task.id s.tasks ≡ some task
      → (f task).id ≡ task.id
      → write_row env now task f s ≡ ok (row, t)
      → (f task ≡ row) × (task_by_id task.id t.tasks ≡ some row)
  write_row-stored task f s {row} {t} found same e =
      let pair = ok-injective e in
      let table : update_task task.id f s.tasks ≡ t.tasks = ap (λ q. q.1.tasks) pair in
      let returned : f task ≡ row = ap (λ q. q.0) pair in
      (returned, rw (← returned, ← table) (task_by_id-update-found task.id f s.tasks found same))

  fail_locked-Decided :
      (input : FailTaskInput) (task : TaskRow) (s : Store D) {row : TaskRow} {t : Store D}
      → task_by_id task.id s.tasks ≡ some task
      → fail_locked env now draw input task s ≡ ok (row, t)
      → Decided now input task row × (task_by_id task.id t.tasks ≡ some row)
  unfolding fail_locked
  fail_locked-Decided input task s {row} {t} found e = elim (Bool-cases task.cancel_requested) [
    | inl c ↦
        let chosen : write_row env now task (cancelled_row now input) s ≡ ok (row, t) =
          ground (arith, e, c) in
        let (same, stored) = write_row-stored task (cancelled_row now input) s found refl chosen in
        (inr (inl (cc same, c)), stored)
    | inr c ↦
        elim (Bool-cases (
          is_retryable_failure task.type input.code input.retryable task.attempt
            task.max_attempts)) [
              | inl h ↦
                  let parts =
                    retryable_parts task.type input.code input.retryable task.attempt
                      task.max_attempts h in
                  let delay = retry_delay (backoff_ms task.attempt draw) input in
                  let chosen : write_row env now task (requeued_row now delay input) s
                      ≡ ok (row, t) =
                    ground (arith, e, c, h) in
                  let (same, stored) =
                    write_row-stored task (requeued_row now delay input) s found refl chosen in
                  let run : row.run_after ≡ now + delay = cc same in
                  (
                    inl (
                      cc same,
                      parts.0,
                      parts.1,
                      parts.2,
                      parts.3,
                      c,
                      requeued-Waits now draw task.attempt input row small run,
                    ),
                    stored,
                  )
              | inr h ↦
                  let chosen : fail_task_row env now task input.code input.redacted_message s
                      ≡ ok (row, t) =
                    ground arith in
                  let (end, stored) = fail_task_row_failed task _ _ s found chosen in
                  (inr (inr (end, c, h)), stored)
            ]
  ]

  -- A reported failure, under its lease, has one of three ends. The task is queued again if its type
  -- is retried, the worker and the server both call the failure retryable, attempts are left and
  -- nobody asked to cancel; it then waits two seconds at least and as long as a 429 asked, and no
  -- longer than 375 seconds or what the 429 asked, whichever is more. It is
  -- cancelled if that was asked for, and failed otherwise. The row that is returned is the one that the
  -- table then holds for the task.
  pub fail_task-Decided :
      (s : Store D) (id token : ℕ) (input : FailTaskInput) {row : TaskRow} {t : Store D}
      → fail_task env now draw s id token input ≡ ok (row, t)
      → (task : TaskRow) × (lock_leased_task env now s id token ≡ ok task)
        × Decided now input task row
        × (task_by_id task.id t.tasks ≡ some row)
  unfolding fail_task
  fail_task-Decided s id token input e =
      let (task, locked, done) = >>=-eq-ok (lock_leased_task env now s id token) _ e in
      let decided =
        fail_locked-Decided input task s (lock_leased_task-found env now s id token locked) done in
      (task, locked, decided.0, decided.1)
