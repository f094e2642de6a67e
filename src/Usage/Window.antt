-- ===== src/Usage/Window.antt =====
-- How a settlement and a release move the window's total of tokens.
use octopus_job_search.Base.{
  ℕ, ◌+◌, ◌≡◌, ◌≢◌, sym, ap, subst, true, ◌&&◌, some, List, [], ◌∷◌, arith, inl, inr,
}
use octopus_job_search.Base.Tests.{◌==◌, if◌then◌else◌, Bool-cases, or_else, same_opt}
use octopus_job_search.Base.Lists.{find, All}
use octopus_job_search.Tasks.Types.{TaskRow}
use octopus_job_search.Tasks.Store.{Env, ok, >>=-eq-ok, ok-injective}
use octopus_job_search.Tasks.Lease.{lock_leased_task}
use octopus_job_search.Usage.Ledger.{LedgerRow, Config, window_rows, counts, totals_from, sum_of}
use octopus_job_search.Usage.Service.{
  UsageStore, SettleInput, UsageSettleResponse, settle_usage, release_usage, settle_locked,
  release_locked, lock_reservation, update_ledger, settle_row, release_row,
}
use octopus_job_search.Usage.Isolation.{IsKeyed, update_none, lock_reservation-eq-ok}

-- What a row adds to the workspace's tokens at a time.
abbrev pub charge : ℕ → ℕ → LedgerRow → ℕ
charge ws at row = if counts ws at row then row.input_tokens + row.output_tokens else 0

abbrev pub tokens_at : ℕ → ℕ → List LedgerRow → ℕ
tokens_at ws at l = (totals_from (window_rows ws at l)).tokens

tokens_cons :
    (ws at : ℕ) (r : LedgerRow) (l : List LedgerRow)
    → tokens_at ws at (r ∷ l) ≡ charge ws at r + tokens_at ws at l
unfolding totals_from window_rows sum_of
tokens_cons ws at r l = elim (Bool-cases (counts ws at r)) [
  | inl t ↦ rw t (omega arith)
  | inr f ↦ rw f (omega arith)
]

-- A write to the row that is found moves the total by the difference of the two charges.
tokens-update_ledger :
    (ws id at : ℕ) (f : LedgerRow → LedgerRow) (l : List LedgerRow) (row : LedgerRow)
    → IsKeyed l
    → find (λ r. r.workspace_id == ws && r.id == id) l ≡ some row
    → tokens_at ws at (update_ledger ws id f l) + charge ws at row
      ≡ tokens_at ws at l + charge ws at (f row)
unfolding update_ledger
tokens-update_ledger ws id at f [] row k e = cc
tokens-update_ledger ws id at f (r ∷ rs) row k e =
    elim (Bool-cases (r.workspace_id == ws && r.id == id)) [
      | inl t ↦
          let found : some r ≡ some row = rw t at e in
          let same : r ≡ row = cc in
          let rest =
            update_none ws id f rs (subst (λ n. All (λ q. q.id ≢ n) rs) (ground (arith, t)) k.0) in
          rw t
            (rw (rest, tokens_cons ws at (f r) rs, tokens_cons ws at r rs, sym same) (omega arith))
      | inr n ↦ rw n (
          rw (tokens_cons ws at r (update_ledger ws id f rs), tokens_cons ws at r rs)
            (omega (arith, tokens-update_ledger ws id at f rs row k.1 (rw n at e))))
    ]

charge-release_row : (ws at now : ℕ) (row : LedgerRow) → charge ws at (release_row now row) ≡ 0
unfolding counts
charge-release_row ws at now row = ground arith

-- The reservation that a settlement or a release locks.
abbrev pub IsLocked : TaskRow → ℕ → List LedgerRow → LedgerRow → Type 0
IsLocked task id l row =
    (find (λ r. r.workspace_id == task.workspace_id && r.id == id) l ≡ some row)
    × (same_opt row.task_id (some task.id) ≡ true)

-- The row after the settlement that a reply reports.
abbrev pub settled_as : ℕ → UsageSettleResponse → LedgerRow → LedgerRow
settled_as now reply row =
    settle_row now reply.input_tokens reply.output_tokens reply.measured_cost reply.currency row

module _ {D : Type 0} (config : Config) (env : Env D) where
  -- With distinct ids, a settlement that succeeds locks a reservation of the leased task, charges
  -- what the provider reported, or the estimate where it reported nothing, and moves the window's
  -- total of tokens, at any time, from the old charge of that row to its charge as settled.
  pub settle_usage-tokens :
      (now at : ℕ) (s : UsageStore D) (id token reservation : ℕ) (usage : SettleInput)
      {reply : UsageSettleResponse} {t : UsageStore D}
      → IsKeyed s.ledger
      → settle_usage config env now s id token reservation usage ≡ ok (reply, t)
      → (task : TaskRow) × (row : LedgerRow) × (lock_leased_task env now s.queue id token ≡ ok task)
        × IsLocked task reservation s.ledger row
        × (reply.input_tokens ≡ or_else usage.input_tokens row.input_tokens)
        × (reply.output_tokens ≡ or_else usage.output_tokens row.output_tokens)
        × (tokens_at task.workspace_id at t.ledger + charge task.workspace_id at row
            ≡ tokens_at task.workspace_id at s.ledger
              + charge task.workspace_id at (settled_as now reply row))
  unfolding settle_usage settle_locked
  settle_usage-tokens now at s id token reservation usage {reply} {t} keyed e =
      let (task, locked, rest) = >>=-eq-ok (lock_leased_task env now s.queue id token) _ e in
      let (row, held, wrote) =
        >>=-eq-ok (lock_reservation task.workspace_id reservation task.id s.ledger) _ rest in
      let own = lock_reservation-eq-ok task.workspace_id reservation task.id s.ledger held in
      let pair = ok-injective wrote in
      let moved =
        tokens-update_ledger task.workspace_id reservation at
          (settle_row now (or_else usage.input_tokens row.input_tokens)
            (or_else usage.output_tokens row.output_tokens) _ _)
          s.ledger row keyed own.0 in
      (
        task,
        row,
        locked,
        own,
        sym (ap (λ q. q.0.input_tokens) pair),
        sym (ap (λ q. q.0.output_tokens) pair),
        subst
            (λ q.
              tokens_at task.workspace_id at q.1.ledger + charge task.workspace_id at row
              ≡ tokens_at task.workspace_id at s.ledger
                + charge task.workspace_id at (settled_as now q.0 row))
            pair moved,
      )

  -- With distinct ids, a release that succeeds locks a reservation of the leased task and takes
  -- exactly its charge, at any time, off the window's total of tokens.
  pub release_usage-tokens :
      (now at : ℕ) (s : UsageStore D) (id token reservation : ℕ) {t : UsageStore D}
      → IsKeyed s.ledger
      → release_usage config env now s id token reservation ≡ ok t
      → (task : TaskRow) × (row : LedgerRow) × (lock_leased_task env now s.queue id token ≡ ok task)
        × IsLocked task reservation s.ledger row
        × (tokens_at task.workspace_id at t.ledger + charge task.workspace_id at row
            ≡ tokens_at task.workspace_id at s.ledger)
  unfolding release_usage release_locked
  release_usage-tokens now at s id token reservation {t} keyed e =
      let (task, locked, rest) = >>=-eq-ok (lock_leased_task env now s.queue id token) _ e in
      let (row, held, wrote) =
        >>=-eq-ok (lock_reservation task.workspace_id reservation task.id s.ledger) _ rest in
      let own = lock_reservation-eq-ok task.workspace_id reservation task.id s.ledger held in
      let moved =
        tokens-update_ledger task.workspace_id reservation at (release_row now) s.ledger row keyed
          own.0 in
      (
        task,
        row,
        locked,
        own,
        subst
            (λ q.
              tokens_at task.workspace_id at q.ledger + charge task.workspace_id at row
              ≡ tokens_at task.workspace_id at s.ledger)
            (ok-injective wrote)
            (omega (arith, moved, charge-release_row task.workspace_id at now row)),
      )
