-- ===== src/Usage/Service.antt =====
-- `reserveUsage`, `settleUsage`, `releaseUsage` and `summariseUsage` of
-- apps/api/src/usage/service.ts. Each of the first three is one transaction, under the lease of the
-- task; `now` is its clock, and the database's. The advisory lock makes reservations of a workspace
-- follow one another, so a transaction is a function of the state that it finds.
use octopus_job_search.Base.{ℕ, ◌+◌, ◌*◌, Bool, false, not, ◌&&◌, Option, none, some, List, [], ◌∷◌}
use octopus_job_search.Base.Tests.{◌==◌, leb, ltb, if◌then◌else◌, is_some, or_else, same_opt}
use octopus_job_search.Base.Lists.{find}
use octopus_job_search.Base.Text.{Text}
use octopus_job_search.Tasks.Types.{TaskRow}
use octopus_job_search.Tasks.Store.{
  Store, Env, Result, ok, err, ◌>>=◌, over_budget, no_such_reservation,
}
use octopus_job_search.Tasks.Lease.{lock_leased_task}
use octopus_job_search.Usage.Ledger.{
  LedgerRow, reserved, settled, released, ProviderSettingsRow, Config, RateCard, WorkspaceBudget,
  UsageTotals, totals_from, window_rows, price_of, stored, load_workspace_budget,
}

-- The tables: those of the queue, the ledger, the settings, and the id that the next row will get.
pub record UsageStore (D : Type 0) : Type 0 where
  pub queue : Store D
  pub ledger : List LedgerRow
  pub settings : List ProviderSettingsRow
  pub next_id : ℕ

pub record ReserveInput : Type 0 where
  pub estimated_input_tokens : ℕ
  pub estimated_output_tokens : ℕ

pub record UsageReserveResponse : Type 0 where
  pub reservation_id : ℕ
  pub reserved_tokens : ℕ
  pub reserved_cost : Option ℕ
  pub currency : Option Text

pub record SettleInput : Type 0 where
  pub input_tokens : Option ℕ
  pub output_tokens : Option ℕ

pub record UsageSettleResponse : Type 0 where
  pub reservation_id : ℕ
  pub input_tokens : ℕ
  pub output_tokens : ℕ
  pub measured_cost : Option ℕ
  pub currency : Option Text
  pub cost_is_unknown : Bool

pub record UsageSummary : Type 0 where
  pub totals : UsageTotals
  pub budget : WorkspaceBudget
  pub currency : Option Text

abbrev pub card_currency : Option RateCard → Option Text → Option Text
card_currency none d = d
card_currency (some card) d = some card.currency

abbrev pub stored_opt : Option ℕ → Option ℕ
stored_opt none = none
stored_opt (some price) = some (stored price)

-- The second guard of `reserveUsage`.
abbrev pub passes_tokens : WorkspaceBudget → UsageTotals → ℕ → Bool
passes_tokens budget totals estimated = elim budget.daily_token_budget [
  | none ↦ false
  | some limit ↦ ltb limit (totals.tokens + estimated)
]

-- The third: a stored total and a limit are millionths, a price is millionths of those.
abbrev pub passes_cost : WorkspaceBudget → UsageTotals → Option ℕ → Bool
passes_cost budget totals none = false
passes_cost budget totals (some price) = elim budget.daily_cost_budget [
  | none ↦ false
  | some limit ↦
      budget.cost_cap_enforceable && ltb (limit * 1000000) (totals.cost * 1000000 + price)
]

-- `rows.find((row) => row.currency !== null)?.currency`.
abbrev first_currency : List LedgerRow → Option Text
first_currency [] = none
first_currency (r ∷ rs) = elim r.currency [ none ↦ first_currency rs | some c ↦ some c ]

-- The row that `reserveUsage` inserts.
abbrev pub reserved_row : ℕ → ℕ → TaskRow → WorkspaceBudget → ReserveInput → LedgerRow
reserved_row id now task budget input = record {
  id = id;
  workspace_id = task.workspace_id;
  task_id = some task.id;
  provider = budget.provider;
  input_tokens = input.estimated_input_tokens;
  output_tokens = input.estimated_output_tokens;
  measured_cost = none;
  reserved_cost =
      stored_opt
        (price_of budget.rate_card input.estimated_input_tokens input.estimated_output_tokens);
  currency = card_currency budget.rate_card none;
  status = reserved;
  created_at = now;
  updated_at = now;
}

-- `updateTable('usage_ledger').set(…).where('id', '=', id)` within the workspace's scope.
unfoldable pub update_ledger : ℕ → ℕ → (LedgerRow → LedgerRow) → List LedgerRow → List LedgerRow
update_ledger workspace id f [] = []
update_ledger workspace id f (r ∷ rs) =
    (if r.workspace_id == workspace && r.id == id then f r else r) ∷ update_ledger workspace id f rs

-- The write of `settleUsage`.
abbrev pub settle_row : ℕ → ℕ → ℕ → Option ℕ → Option Text → LedgerRow → LedgerRow
settle_row now input output measured currency row = record row {
  input_tokens = input;
  output_tokens = output;
  measured_cost = stored_opt measured;
  currency = currency;
  status = settled;
  updated_at = now;
}

-- The write of `releaseUsage`.
abbrev pub release_row : ℕ → LedgerRow → LedgerRow
release_row now row = record row { status = released; updated_at = now }

unfoldable pub lock_reservation : ℕ → ℕ → ℕ → List LedgerRow → Result LedgerRow
lock_reservation workspace reservation task_id ledger =
    elim (find (λ r. r.workspace_id == workspace && r.id == reservation) ledger) [
      | none ↦ err no_such_reservation
      | some row ↦
          if not (same_opt row.task_id (some task_id)) then err no_such_reservation else ok row
    ]

module _ {D : Type 0} (config : Config) where
  -- The rest of `reserveUsage` once the lease is proved.
  unfoldable pub reserve_locked :
      ℕ → UsageStore D → TaskRow → ReserveInput → Result (UsageReserveResponse × UsageStore D)
  unfolding load_workspace_budget totals_from window_rows price_of
  reserve_locked now s task input =
      let budget = load_workspace_budget config task.workspace_id s.settings in
      let totals = totals_from (window_rows task.workspace_id now s.ledger) in
      let estimated = input.estimated_input_tokens + input.estimated_output_tokens in
      let price =
        price_of budget.rate_card input.estimated_input_tokens input.estimated_output_tokens in
      if leb budget.requests_per_day totals.requests
      then err over_budget
      else if passes_tokens budget totals estimated
      then err over_budget
      else if passes_cost budget totals price
      then err over_budget
      else ok (
        record {
          reservation_id = s.next_id;
          reserved_tokens = estimated;
          reserved_cost = price;
          currency = card_currency budget.rate_card none;
        },
        record s {
          ledger = reserved_row s.next_id now task budget input ∷ s.ledger;
          next_id = s.next_id + 1;
        },
      )

  unfoldable pub settle_locked :
      ℕ → UsageStore D → TaskRow → ℕ → SettleInput → Result (UsageSettleResponse × UsageStore D)
  unfolding lock_reservation load_workspace_budget price_of update_ledger
  settle_locked now s task reservation usage =
      lock_reservation task.workspace_id reservation task.id s.ledger >>= λ row.
      let budget = load_workspace_budget config task.workspace_id s.settings in
      let input = or_else usage.input_tokens row.input_tokens in
      let output = or_else usage.output_tokens row.output_tokens in
      let measured = price_of budget.rate_card input output in
      let currency = card_currency budget.rate_card row.currency in
      ok (
        record {
          reservation_id = reservation;
          input_tokens = input;
          output_tokens = output;
          measured_cost = measured;
          currency = currency;
          cost_is_unknown = not (is_some measured);
        },
        record s {
          ledger =
              update_ledger task.workspace_id reservation
                (settle_row now input output measured currency) s.ledger;
        },
      )

  unfoldable pub release_locked : ℕ → UsageStore D → TaskRow → ℕ → Result (UsageStore D)
  unfolding lock_reservation update_ledger
  release_locked now s task reservation =
      lock_reservation task.workspace_id reservation task.id s.ledger >>= λ row.
      ok (record s {
        ledger = update_ledger task.workspace_id reservation (release_row now) s.ledger;
      })

  module _ (env : Env D) where
    unfoldable pub reserve_usage :
        ℕ → UsageStore D → ℕ → ℕ → ReserveInput → Result (UsageReserveResponse × UsageStore D)
    unfolding lock_leased_task reserve_locked
    reserve_usage now s task_id lease_token input =
        lock_leased_task env now s.queue task_id lease_token >>= λ task.
        reserve_locked now s task input

    unfoldable pub settle_usage :
        ℕ → UsageStore D → ℕ → ℕ → ℕ → SettleInput → Result (UsageSettleResponse × UsageStore D)
    unfolding lock_leased_task settle_locked
    settle_usage now s task_id lease_token reservation usage =
        lock_leased_task env now s.queue task_id lease_token >>= λ task.
        settle_locked now s task reservation usage

    unfoldable pub release_usage : ℕ → UsageStore D → ℕ → ℕ → ℕ → Result (UsageStore D)
    unfolding lock_leased_task release_locked
    release_usage now s task_id lease_token reservation =
        lock_leased_task env now s.queue task_id lease_token >>= λ task.
        release_locked now s task reservation

  unfoldable pub summarise_usage : ℕ → UsageStore D → ℕ → UsageSummary
  unfolding load_workspace_budget totals_from window_rows
  summarise_usage now s workspace =
      let rows = window_rows workspace now s.ledger in
      let budget = load_workspace_budget config workspace s.settings in
      record {
        totals = totals_from rows;
        budget = budget;
        currency = card_currency budget.rate_card (first_currency rows);
      }
