-- ===== src/Usage/Ledger.antt =====
-- The ledger's rows, totals and prices, and the budget that a workspace configured:
-- apps/api/src/usage/service.ts, with `readValidatedConfig` of apps/api/src/settings/providers.ts and
-- the records of packages/contracts/src/schemas/providers.ts. Money in the database (`numeric(12,6)`),
-- in a budget and in a rate card is a number of millionths of a unit of currency, and a price before
-- it is stored is a number of millionths of those. Rounding of floating-point sums is not modelled.
use octopus_job_search.Base.{
  ℕ, ◌+◌, ◌*◌, ◌/◌, Bool, true, false, not, ◌&&◌, Option, none, some, List, [], ◌∷◌,
}
use octopus_job_search.Base.Tests.{◌==◌, leb, if◌then◌else◌, is_some, or_else}
use octopus_job_search.Base.Lists.{find, keep, length}
use octopus_job_search.Base.Text.{Text, codes}
use octopus_job_search.Tasks.Types.{Json}

pub data LedgerStatus : Type 0 where
  reserved settled released : LedgerStatus

pub record LedgerRow : Type 0 where
  pub id : ℕ
  pub workspace_id : ℕ
  pub task_id : Option ℕ
  pub provider : Text
  pub input_tokens : ℕ
  pub output_tokens : ℕ
  pub measured_cost : Option ℕ
  pub reserved_cost : Option ℕ
  pub currency : Option Text
  pub status : LedgerStatus
  pub created_at : ℕ
  pub updated_at : ℕ

pub record RateCard : Type 0 where
  pub currency : Text
  pub input_cost_per_million : ℕ
  pub output_cost_per_million : ℕ

-- The limits that the budget reads; those on one request are the worker's.
pub record ProviderLimits : Type 0 where
  pub daily_token_budget : Option ℕ
  pub daily_cost_budget : Option ℕ

pub record UsageTotals : Type 0 where
  pub requests : ℕ
  pub input_tokens : ℕ
  pub output_tokens : ℕ
  pub tokens : ℕ
  pub cost : ℕ
  pub unknown_cost_requests : ℕ

-- `USAGE_WINDOW_MS`.
abbrev pub usage_window_ms : ℕ
usage_window_ms = 24 * 60 * 60 * 1000

-- `row.measured_cost ?? row.reserved_cost`.
unfoldable pub priced : LedgerRow → Option ℕ
priced row = elim row.measured_cost [ none ↦ row.reserved_cost | some c ↦ some c ]

-- The sums that the loop of `totalsFrom` gathers.
unfoldable pub sum_of : (LedgerRow → ℕ) → List LedgerRow → ℕ
sum_of f [] = 0
sum_of f (row ∷ rows) = f row + sum_of f rows

abbrev pub cost_of : LedgerRow → ℕ
cost_of row = or_else (priced row) 0

unfoldable pub totals_from : List LedgerRow → UsageTotals
unfolding sum_of priced
totals_from rows = record {
  requests = length rows;
  input_tokens = sum_of (λ r. r.input_tokens) rows;
  output_tokens = sum_of (λ r. r.output_tokens) rows;
  tokens = sum_of (λ r. r.input_tokens) rows + sum_of (λ r. r.output_tokens) rows;
  cost = sum_of cost_of rows;
  unknown_cost_requests = sum_of (λ r. if is_some (priced r) then 0 else 1) rows;
}

abbrev pub was_released : LedgerStatus → Bool
was_released released = true
was_released _ = false

-- The `where` of `windowRows`: at a time before the first day has passed, all rows are recent.
unfoldable pub counts : ℕ → ℕ → LedgerRow → Bool
counts workspace now row =
    row.workspace_id == workspace
    && (leb now (row.created_at + usage_window_ms) && not (was_released row.status))

unfoldable pub window_rows : ℕ → ℕ → List LedgerRow → List LedgerRow
unfolding counts
window_rows workspace now ledger = keep (counts workspace now) ledger

unfoldable pub price_of : Option RateCard → ℕ → ℕ → Option ℕ
price_of none input output = none
price_of (some card) input output =
    some (input * card.input_cost_per_million + output * card.output_cost_per_million)

-- What `numeric(12,6)` keeps of a price: the nearest number, the upper one of two.
unfoldable pub stored : ℕ → ℕ
stored price = (price + 500000) / 1000000

-- `provider_settings`, with the parts of `validated_config` that the budget reads.
pub record ProviderSettingsRow : Type 0 where
  pub workspace_id : ℕ
  pub provider : Text
  pub limits : Json
  pub rate_card : Option Json

pub record ValidatedProviderConfig : Type 0 where
  pub limits : ProviderLimits
  pub rate_card : Option RateCard

pub record WorkspaceBudget : Type 0 where
  pub provider : Text
  pub requests_per_day : ℕ
  pub daily_token_budget : Option ℕ
  pub daily_cost_budget : Option ℕ
  pub rate_card : Option RateCard
  pub cost_cap_enforceable : Bool

-- What the budget asks of the schema checker, which answers with the value that it accepts, and of
-- the workspace's preferences (`ai_requests_per_day`).
pub record Config : Type 0 where
  pub check_limits : Json → Option ProviderLimits
  pub check_rate_card : Json → Option RateCard
  pub ai_requests_per_day : ℕ → ℕ

abbrev pub default_provider_limits : ProviderLimits
default_provider_limits = record { daily_token_budget = none; daily_cost_budget = none }

-- A value that may be absent is checked where it is there.
abbrev then_check {ℓ} : {A : Type ℓ} → (Json → Option A) → Option Json → Option A
then_check check none = none
then_check check (some raw) = check raw

module _ (config : Config) where
  unfoldable pub read_validated_config : Option ProviderSettingsRow → ValidatedProviderConfig
  read_validated_config none = record { limits = default_provider_limits; rate_card = none }
  read_validated_config (some row) = record {
    limits = or_else (config.check_limits row.limits) default_provider_limits;
    rate_card = then_check config.check_rate_card row.rate_card;
  }

  unfoldable pub load_provider_settings : ℕ → List ProviderSettingsRow → Option ProviderSettingsRow
  load_provider_settings workspace settings = find (λ r. r.workspace_id == workspace) settings

  unfoldable pub load_workspace_budget : ℕ → List ProviderSettingsRow → WorkspaceBudget
  unfolding load_provider_settings read_validated_config
  load_workspace_budget workspace settings =
      let row = load_provider_settings workspace settings in
      let valid = read_validated_config row in
      record {
        provider = elim row [ none ↦ codes "none" | some r ↦ r.provider ];
        requests_per_day = config.ai_requests_per_day workspace;
        daily_token_budget = valid.limits.daily_token_budget;
        daily_cost_budget = valid.limits.daily_cost_budget;
        rate_card = valid.rate_card;
        cost_cap_enforceable = is_some valid.limits.daily_cost_budget && is_some valid.rate_card;
      }
