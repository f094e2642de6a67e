-- ===== src/Usage/Within.antt =====
-- The limits of the day hold after every reservation that `reserveUsage` grants.
use octopus_job_search.Base.{
  ℕ, suc, ◌+◌, ◌*◌, ◌≤◌, ◌≡◌, refl, Bool, true, false, ◌&&◌, Option, none, some, List, [], ◌∷◌,
  arith, inl, inr, ap, sym,
}
use octopus_job_search.Base.Tests.{
  leb, ltb, if◌then◌else◌, Bool-cases, Option-cases, is_some, or_else,
}
use octopus_job_search.Tasks.Types.{TaskRow}
use octopus_job_search.Tasks.Store.{Env, ok, >>=-eq-ok, ok-injective, err-ne-ok}
use octopus_job_search.Tasks.Lease.{lock_leased_task}
use octopus_job_search.Usage.Ledger.{
  ProviderSettingsRow, Config, WorkspaceBudget, UsageTotals, totals_from, window_rows, price_of,
  stored, load_workspace_budget, counts, sum_of, priced,
}
use octopus_job_search.Usage.Service.{
  UsageStore, ReserveInput, UsageReserveResponse, reserve_usage, reserve_locked, reserved_row,
  passes_tokens, passes_cost, stored_opt,
}

-- At most the limit, where there is one.
abbrev pub IsUnder : Option ℕ → ℕ → Type 0
IsUnder none n = Unit
IsUnder (some limit) n = n ≤ limit

-- The limit on the cost, where it can be enforced.
abbrev pub cost_limit : WorkspaceBudget → Option ℕ
cost_limit budget = if budget.cost_cap_enforceable then budget.daily_cost_budget else none

pub record IsWithin (budget : WorkspaceBudget) (totals : UsageTotals) : Type 0 where
  pub requests : totals.requests ≤ budget.requests_per_day
  pub tokens : IsUnder budget.daily_token_budget totals.tokens
  pub cost : IsUnder (cost_limit budget) totals.cost

-- What is stored of a price that fits still fits.
stored_fits : (t p b : ℕ) → t * 1000000 + p ≤ b * 1000000 → stored p + t ≤ b
unfolding stored
stored_fits t p b h = omega (arith, h)

below_limit : (b n : ℕ) → leb b n ≡ false → suc n ≤ b
below_limit b n h = ground (arith, h)

tokens_fit :
    (limit : Option ℕ) (i o a b : ℕ)
    → (elim limit [ none ↦ false | some l ↦ ltb l (a + b + (i + o)) ]) ≡ false
    → IsUnder limit (i + a + (o + b))
tokens_fit none i o a b h = tt
tokens_fit (some l) i o a b h = ground (arith, h)

cost_fits :
    (limit : Option ℕ) (budget : WorkspaceBudget) (totals : UsageTotals) (i o : ℕ)
    → budget.daily_cost_budget ≡ limit
    → budget.cost_cap_enforceable ≡ (is_some limit && is_some budget.rate_card)
    → passes_cost budget totals (price_of budget.rate_card i o) ≡ false
    → IsUnder
        (cost_limit budget)
        (or_else (stored_opt (price_of budget.rate_card i o)) 0 + totals.cost)
unfolding price_of
cost_fits none budget totals i o l c h = rw c tt
cost_fits (some b) budget totals i o l c h = elim (Option-cases budget.rate_card) [
  | inl n ↦ rw (c, n) tt
  | inr (card, y) ↦
      let enforced : budget.cost_cap_enforceable ≡ true = rw (c, y) refl in
      rw (enforced, y, l) (stored_fits totals.cost _ b (ground (arith, rw (y, l, enforced) at h)))
]

enforceable :
    (config : Config) (workspace : ℕ) (settings : List ProviderSettingsRow)
    → (load_workspace_budget config workspace settings).cost_cap_enforceable ≡ (
        is_some (load_workspace_budget config workspace settings).daily_cost_budget
        && is_some (load_workspace_budget config workspace settings).rate_card)
unfolding load_workspace_budget
enforceable config workspace settings = refl

counts-reserved_row :
    (id now : ℕ) (task : TaskRow) (budget : WorkspaceBudget) (input : ReserveInput)
    → counts task.workspace_id now (reserved_row id now task budget input) ≡ true
unfolding counts
counts-reserved_row id now task budget input = ground arith

-- A limit in the unit of prices.
abbrev pub scaled : Option ℕ → Option ℕ
scaled none = none
scaled (some limit) = some (limit * 1000000)

-- By itself a request of these many tokens passes no limit of the budget; prices are in millionths
-- of what the limit on the cost counts.
pub record Fits (budget : WorkspaceBudget) (input : ReserveInput) : Type 0 where
  pub requests : 1 ≤ budget.requests_per_day
  pub tokens :
      IsUnder budget.daily_token_budget
        (input.estimated_input_tokens + input.estimated_output_tokens)
  pub cost : IsUnder (scaled (cost_limit budget)) (
      or_else
        (price_of budget.rate_card input.estimated_input_tokens input.estimated_output_tokens)
        0)

first_request :
    (budget : WorkspaceBudget) {input : ReserveInput}
    → Fits budget input
    → leb budget.requests_per_day 0 ≡ false
first_request budget fits = ground (arith, fits.requests)

no_tokens :
    (limit : Option ℕ) (n : ℕ)
    → IsUnder limit n
    → (elim limit [ none ↦ false | some l ↦ ltb l (0 + n) ]) ≡ false
no_tokens none n h = refl
no_tokens (some l) n h = ground (arith, h)

no_cost :
    (limit : Option ℕ) (enforced : Bool) (p : ℕ)
    → IsUnder (scaled (if enforced then limit else none)) p
    → (elim limit [ none ↦ false | some l ↦ enforced && ltb (l * 1000000) (0 * 1000000 + p) ])
      ≡ false
no_cost none enforced p h = refl
no_cost (some l) false p h = refl
no_cost (some l) true p h = ground (arith, h)

no_price :
    (budget : WorkspaceBudget) (price : Option ℕ)
    → IsUnder (scaled (cost_limit budget)) (or_else price 0)
    → passes_cost budget (totals_from []) price ≡ false
unfolding totals_from sum_of
no_price budget none h = refl
no_price budget (some p) h = no_cost budget.daily_cost_budget budget.cost_cap_enforceable p h

-- What the three guards of `reserve_locked` say where it grants the request.
module _ {D : Type 0} (config : Config) (now : ℕ) (s : UsageStore D) (task : TaskRow)
    (input : ReserveInput) where
  abbrev budget_of : WorkspaceBudget
  budget_of = load_workspace_budget config task.workspace_id s.settings

  abbrev totals_of : UsageTotals
  totals_of = totals_from (window_rows task.workspace_id now s.ledger)

  abbrev estimate_of : ℕ
  estimate_of = input.estimated_input_tokens + input.estimated_output_tokens

  abbrev price_here : Option ℕ
  price_here =
      price_of budget_of.rate_card input.estimated_input_tokens input.estimated_output_tokens

  pub record IsGranted (reply : UsageReserveResponse) (t : UsageStore D) : Type 0 where
    pub requests : leb budget_of.requests_per_day totals_of.requests ≡ false
    pub tokens : passes_tokens budget_of totals_of estimate_of ≡ false
    pub cost : passes_cost budget_of totals_of price_here ≡ false
    pub row : t.ledger ≡ reserved_row s.next_id now task budget_of input ∷ s.ledger

  pub reserve_locked-IsGranted :
      {reply : UsageReserveResponse} {t : UsageStore D}
      → reserve_locked config now s task input ≡ ok (reply, t)
      → IsGranted reply t
  unfolding reserve_locked
  reserve_locked-IsGranted {reply} {t} e =
      elim (Bool-cases (leb budget_of.requests_per_day totals_of.requests)) [
        | inl a ↦ absurd (err-ne-ok {a = (reply, t)} (rw a at e))
        | inr a ↦ elim (Bool-cases (passes_tokens budget_of totals_of estimate_of)) [
          | inl b ↦ absurd (err-ne-ok {a = (reply, t)} (rw (a, b) at e))
          | inr b ↦ elim (Bool-cases (passes_cost budget_of totals_of price_here)) [
            | inl c ↦ absurd (err-ne-ok {a = (reply, t)} (rw (a, b, c) at e))
            | inr c ↦
                let pair = ok-injective (rw (a, b, c) at e) in
                record { requests = a; tokens = b; cost = c; row = sym (ap (λ q. q.1.ledger) pair) }
          ]
        ]
      ]

  pub reserve_locked-IsWithin :
      {reply : UsageReserveResponse} {t : UsageStore D}
      → reserve_locked config now s task input ≡ ok (reply, t)
      → IsWithin budget_of (totals_from (window_rows task.workspace_id now t.ledger))
  unfolding totals_from window_rows sum_of priced
  reserve_locked-IsWithin {reply} {t} e =
      let g = reserve_locked-IsGranted e in
      rw (g.row, counts-reserved_row s.next_id now task budget_of input)
        (record {
          requests = below_limit budget_of.requests_per_day totals_of.requests g.requests;
          tokens =
              tokens_fit budget_of.daily_token_budget input.estimated_input_tokens
                input.estimated_output_tokens totals_of.input_tokens totals_of.output_tokens
                g.tokens;
          cost =
              cost_fits budget_of.daily_cost_budget budget_of totals_of input.estimated_input_tokens
                input.estimated_output_tokens refl (enforceable config task.workspace_id s.settings)
                g.cost;
        })

module _ {D : Type 0} (config : Config) (env : Env D) where
  -- Where `reserveUsage` grants a request of a task, the requests, the tokens and, where the cap on
  -- cost can be enforced, the cost that the workspace of the leased task then has in the window are
  -- within the budget that its settings give.
  pub reserve_usage-IsWithin :
      (now : ℕ) (s : UsageStore D) (id token : ℕ) (input : ReserveInput)
      {reply : UsageReserveResponse} {t : UsageStore D}
      → reserve_usage config env now s id token input ≡ ok (reply, t)
      → (task : TaskRow) × (lock_leased_task env now s.queue id token ≡ ok task)
        × IsWithin
            (load_workspace_budget config task.workspace_id s.settings)
            (totals_from (window_rows task.workspace_id now t.ledger))
  unfolding reserve_usage
  reserve_usage-IsWithin now s id token input e =
      let (task, locked, granted) = >>=-eq-ok (lock_leased_task env now s.queue id token) _ e in
      (task, locked, reserve_locked-IsWithin config now s task input granted)

  -- A day in which the workspace has no counted row leaves room: a request of a leased task that fits
  -- the limits by itself, with at least one request a day, is granted.
  pub reserve_usage-after_quiet_day :
      (now : ℕ) (s : UsageStore D) (id token : ℕ) (input : ReserveInput) (task : TaskRow)
      → lock_leased_task env now s.queue id token ≡ ok task
      → window_rows task.workspace_id now s.ledger ≡ []
      → Fits (load_workspace_budget config task.workspace_id s.settings) input
      → (reply : UsageReserveResponse) × (t : UsageStore D) × (reserve_usage config env now s id
            token input
          ≡ ok (reply, t))
  unfolding reserve_usage reserve_locked
  reserve_usage-after_quiet_day now s id token input task locked quiet fits =
      let budget = load_workspace_budget config task.workspace_id s.settings in
      rw
        (
          locked,
          quiet,
          first_request budget fits,
          no_tokens budget.daily_token_budget _ fits.tokens,
          no_price budget
              (price_of budget.rate_card input.estimated_input_tokens input.estimated_output_tokens)
              fits.cost,
        )
        (_, _, refl)
