-- ===== src/Tasks/Preserve.antt =====
-- Every transaction of the queue takes each row along `Evolves` (Rows.antt), row by row.
use mathlib.Core.List.{Memᴰ}
use octopus_job_search.Base.{
  subst, ℕ, ◌<◌, ◌≡◌, sym, ap, ◌∙◌, inl, inr, Bool, true, false, not, ◌&&◌, Option, none, some,
  arith,
}
use octopus_job_search.Base.Tests.{or_else, ◌==◌, Bool-cases, Option-cases, if-false}
use octopus_job_search.Base.Lists.{find, find-Memᴰ}
use octopus_job_search.Tasks.Types.{TaskRow, TaskType, TaskProgress, TaskFailureCode, Message, Json}
use octopus_job_search.Tasks.Store.{
  Store, Env, ok, no_such_task, >>=-eq-ok, ok-injective, err-ne-ok, update_task, task_by_id,
  tasks-apply_domain_failure, tasks-apply_domain_result, apply_domain_failure, apply_domain_result,
}
use octopus_job_search.Tasks.Retry.{no_retry, is_retryable_failure}
use octopus_job_search.Tasks.Lease.{
  is_leased, is_queued, is_past, beat, lock_leased_task, heartbeat_task, HeartbeatResult,
}
use octopus_job_search.Tasks.Finish.{
  FailTaskInput, CompleteResult, fail_task_row, reject_result, accept_result, complete_locked,
  complete_task, fail_locked, fail_task, cancel_locked, cancel_task,
}
use octopus_job_search.Tasks.Rows.{
  Evolution, Evolution-refl, IsKeyed, update-Evolution, task_by_id-Memᴰ,
}
use octopus_job_search.Tasks.Writes.{
  check_lease-eq-ok, beat-Evolves, fail_row-Evolves, cancelled_row-Evolves, succeeded_row-Evolves,
  requeued_row-Evolves, extended-tasks, ask_cancel-Evolves, cancel_queued-Evolves,
}

-- A failure that the server retries has budget left, and a type that is retried at all.
pub is_retryable_failure-budget :
    (type : TaskType) (code : TaskFailureCode) (retryable : Bool) (attempt max_attempts : ℕ)
    → is_retryable_failure type code retryable attempt max_attempts ≡ true
    → (no_retry type ≡ false) × (attempt < max_attempts)
unfolding is_retryable_failure
is_retryable_failure-budget type code retryable attempt max_attempts h = ground arith

module _ {D : Type 0} (env : Env D) where
  -- A row that passed the lease check is a leased row of the table, with this token's digest.
  pub lock_leased_task-eq-ok :
      (now : ℕ) (s : Store D) (id token : ℕ) {c : TaskRow}
      → lock_leased_task env now s id token ≡ ok c
      → Memᴰ c s.tasks
        × (c.id ≡ id)
        × (is_leased c.state ≡ true)
        × (c.lease_token_hash ≡ some (env.sha256_hex token))
        × (is_past c.lease_expires_at now ≡ false)
  unfolding lock_leased_task
  lock_leased_task-eq-ok now s id token {c} e = elim (Option-cases (task_by_id id s.tasks)) [
    | inl h ↦ absurd (err-ne-ok {e = no_such_task} {a = c} (rw (h, lock_leased_task) at e))
    | inr (row, h) ↦
        let found = task_by_id-Memᴰ id s.tasks h in
        let checked =
          check_lease-eq-ok now (env.sha256_hex token) row {c = c}
            (rw (h, lock_leased_task) at e) in
        let same : row ≡ c = checked.0 in
        rw (← same) (found.0, found.1, checked.1, checked.2, checked.3)
  ]

  pub lock_leased_task-found :
      (now : ℕ) (s : Store D) (id token : ℕ) {c : TaskRow}
      → lock_leased_task env now s id token ≡ ok c
      → task_by_id c.id s.tasks ≡ some c
  unfolding lock_leased_task
  lock_leased_task-found now s id token {c} e = elim (Option-cases (task_by_id id s.tasks)) [
    | inl h ↦ absurd (err-ne-ok {e = no_such_task} {a = c} (rw (h, lock_leased_task) at e))
    | inr (row, h) ↦
        let found = task_by_id-Memᴰ id s.tasks h in
        let checked =
          check_lease-eq-ok now (env.sha256_hex token) row {c = c}
            (rw (h, lock_leased_task) at e) in
        let same : row ≡ c = checked.0 in
        subst (λ (q : TaskRow). task_by_id q.id s.tasks ≡ some q) same
          (subst (λ i. task_by_id i s.tasks ≡ some row) (sym found.1) h)
  ]

  -- A heartbeat takes every row along `Evolves`.
  pub heartbeat_task-Evolution :
      (now : ℕ) (s : Store D) (id token : ℕ) (p : Option TaskProgress) {r : HeartbeatResult}
      {t : Store D}
      → IsKeyed s.tasks
      → heartbeat_task env now s id token p ≡ ok (r, t)
      → Evolution s.tasks t.tasks
  unfolding heartbeat_task
  heartbeat_task-Evolution now s id token p k e =
      let (c, locked, written) = >>=-eq-ok (lock_leased_task env now s id token) _ e in
      let held = lock_leased_task-eq-ok now s id token locked in
      let table : update_task c.id (beat now p) s.tasks ≡ _ =
        ap (λ q. q.1.tasks) (ok-injective written) in
      rw (← table) (update-Evolution c _ s.tasks k held.0 (beat-Evolves c held.2 now p))

  fail_task_row-Evolution :
      (now : ℕ) (c : TaskRow) (code : TaskFailureCode) (m : Message) (s : Store D) {r : TaskRow}
      {t : Store D}
      → IsKeyed s.tasks
      → Memᴰ c s.tasks
      → is_leased c.state ≡ true
      → fail_task_row env now c code m s ≡ ok (r, t)
      → Evolution s.tasks t.tasks
  unfolding fail_task_row
  fail_task_row-Evolution now c code m s k i l e =
      let (u, failed, written) = >>=-eq-ok (apply_domain_failure env _ code m _) _ e in
      let table = tasks-apply_domain_failure env _ code m _ failed in
      let last : u.tasks ≡ _ = ap (λ q. q.1.tasks) (ok-injective written) in
      rw (← last, table.0) (update-Evolution c _ s.tasks k i (fail_row-Evolves c l now code m))

  accept_result-Evolution :
      (now : ℕ) (c : TaskRow) (digest : ℕ) (result : Json) (s : Store D) {r : CompleteResult}
      {t : Store D}
      → IsKeyed s.tasks
      → Memᴰ c s.tasks
      → is_leased c.state ≡ true
      → accept_result env now c digest result s ≡ ok (r, t)
      → Evolution s.tasks t.tasks
  unfolding accept_result
  accept_result-Evolution now c digest result s k i l e =
      let (u, applied, written) = >>=-eq-ok (apply_domain_result env now _ result _) _ e in
      let (extended, given, table, artifacts, files, audits) =
        tasks-apply_domain_result env now _ result _ applied in
      let last : u.tasks ≡ _ = ap (λ q. q.1.tasks) (ok-injective written) in
      rw (← last, table, extended-tasks now c.id result extended s.tasks)
        (update-Evolution c _ s.tasks k i (succeeded_row-Evolves c l now (or_else extended result)))

  reject_result-Evolution :
      (now : ℕ) (c : TaskRow) (code : TaskFailureCode) (m : Message) (s : Store D)
      {r : CompleteResult} {t : Store D}
      → IsKeyed s.tasks
      → Memᴰ c s.tasks
      → is_leased c.state ≡ true
      → reject_result env now c code m s ≡ ok (r, t)
      → Evolution s.tasks t.tasks
  unfolding reject_result
  reject_result-Evolution now c code m s k i l e =
      let ((row, u), failed, written) = >>=-eq-ok (fail_task_row env now c code m s) _ e in
      let last : u.tasks ≡ _ = ap (λ q. q.1.tasks) (ok-injective written) in
      rw (← last) (fail_task_row-Evolution now c code m s k i l failed)

  complete_locked-Evolution :
      (now : ℕ) (c : TaskRow) (digest : ℕ) (result : Json) (s : Store D)
      (schema : Option (Json → Bool)) {r : CompleteResult} {t : Store D}
      → IsKeyed s.tasks
      → Memᴰ c s.tasks
      → is_leased c.state ≡ true
      → complete_locked env now c digest result s schema ≡ ok (r, t)
      → Evolution s.tasks t.tasks
  unfolding complete_locked
  complete_locked-Evolution now c digest result s none k i l e =
      reject_result-Evolution now c _ _ s k i l e
  complete_locked-Evolution now c digest result s (some check) k i l e =
      elim (Bool-cases (check result)) [
        | inl h ↦ accept_result-Evolution now c digest result s k i l (rw h at e)
        | inr h ↦ reject_result-Evolution now c _ _ s k i l (rw h at e)
      ]

  -- A completion takes every row along `Evolves`.
  pub complete_task-Evolution :
      (now : ℕ) (s : Store D) (id token : ℕ) (result : Json) {r : CompleteResult} {t : Store D}
      → IsKeyed s.tasks
      → complete_task env now s id token result ≡ ok (r, t)
      → Evolution s.tasks t.tasks
  unfolding complete_task
  complete_task-Evolution now s id token result k e =
      let (c, locked, done) = >>=-eq-ok (lock_leased_task env now s id token) _ e in
      let held = lock_leased_task-eq-ok now s id token locked in
      complete_locked-Evolution now c _ result s _ k held.0 held.2 done

  fail_locked-Evolution :
      (now draw : ℕ) (c : TaskRow) (input : FailTaskInput) (s : Store D) {r : TaskRow} {t : Store D}
      → IsKeyed s.tasks
      → Memᴰ c s.tasks
      → is_leased c.state ≡ true
      → fail_locked env now draw input c s ≡ ok (r, t)
      → Evolution s.tasks t.tasks
  unfolding fail_locked
  fail_locked-Evolution now draw c input s k i l e =
      elim (Bool-cases (
        not c.cancel_requested
        && is_retryable_failure c.type input.code input.retryable c.attempt c.max_attempts)) [
          | inl h ↦
              let budget =
                is_retryable_failure-budget c.type input.code input.retryable c.attempt
                  c.max_attempts (ground arith) in
              let table = ap (λ q. q.1.tasks) (ok-injective (rw h at e)) in
              rw (← table) (
                update-Evolution c _ s.tasks k i
                  (requeued_row-Evolves c l now _ input budget.0 budget.1))
          | inr h ↦ elim (Bool-cases c.cancel_requested) [
            | inl w ↦
                let table = ap (λ q. q.1.tasks) (ok-injective (rw w at (rw h at e))) in
                rw (← table)
                  (update-Evolution c _ s.tasks k i (cancelled_row-Evolves c l now input))
            | inr w ↦
                fail_task_row-Evolution now c _ _ s k i l
                  (sym (if-false _ _ w) ∙ (sym (if-false _ _ h) ∙ e))
          ]
        ]

  -- A reported failure takes every row along `Evolves`.
  pub fail_task-Evolution :
      (now draw : ℕ) (s : Store D) (id token : ℕ) (input : FailTaskInput) {r : TaskRow}
      {t : Store D}
      → IsKeyed s.tasks
      → fail_task env now draw s id token input ≡ ok (r, t)
      → Evolution s.tasks t.tasks
  unfolding fail_task
  fail_task-Evolution now draw s id token input k e =
      let (c, locked, done) = >>=-eq-ok (lock_leased_task env now s id token) _ e in
      let held = lock_leased_task-eq-ok now s id token locked in
      fail_locked-Evolution now draw c input s k held.0 held.2 done

  cancel_locked-Evolution :
      (now : ℕ) (c : TaskRow) (s : Store D) {r : TaskRow} {t : Store D}
      → IsKeyed s.tasks
      → Memᴰ c s.tasks
      → cancel_locked env now c s ≡ ok (r, t)
      → Evolution s.tasks t.tasks
  unfolding cancel_locked
  cancel_locked-Evolution now c s k i e = elim (Bool-cases (is_queued c.state)) [
    | inl h ↦
        let table = ap (λ q. q.1.tasks) (ok-injective (rw h at e)) in
        rw (← table) (update-Evolution c _ s.tasks k i (cancel_queued-Evolves now c h))
    | inr h ↦ elim (Bool-cases (is_leased c.state)) [
      | inl w ↦
          let table = ap (λ q. q.1.tasks) (ok-injective (rw w at (rw h at e))) in
          rw (← table) (update-Evolution c _ s.tasks k i (ask_cancel-Evolves c w now))
      | inr w ↦
          let table = ap (λ q. q.1.tasks) (ok-injective (rw w at (rw h at e))) in
          rw (← table) (Evolution-refl s.tasks)
    ]
  ]

  -- A cancellation takes every row along `Evolves`.
  pub cancel_task-Evolution :
      (now : ℕ) (s : Store D) (workspace_id id : ℕ) {r : TaskRow} {t : Store D}
      → IsKeyed s.tasks
      → cancel_task env now s workspace_id id ≡ ok (r, t)
      → Evolution s.tasks t.tasks
  unfolding cancel_task
  cancel_task-Evolution now s workspace_id id {r} {t} k e =
      elim (Option-cases (find (λ q. q.id == id && q.workspace_id == workspace_id) s.tasks)) [
        | inl h ↦ absurd (err-ne-ok {e = no_such_task} {a = (r, t)} (rw (h, cancel_task) at e))
        | inr (c, h) ↦
            cancel_locked-Evolution now c s {r = r} {t = t} k (find-Memᴰ _ s.tasks h).0
              (rw (h, cancel_task) at e)
      ]
