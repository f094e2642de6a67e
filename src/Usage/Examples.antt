-- ===== src/Usage/Examples.antt =====
-- A workspace with one settled row, and a leased task that reserves, settles and releases.
use octopus_job_search.Base.{ℕ, ◌+◌, ◌≡◌, refl, false, none, some, [], ◌∷◌, arith}
use octopus_job_search.Base.Tests.{or_else}
use octopus_job_search.Base.Text.{codes}
use octopus_job_search.Tasks.Types.{parse_profile, leased, TaskRow}
use octopus_job_search.Tasks.Store.{Env, ok}
use octopus_job_search.Tasks.Lease.{lock_leased_task, check_lease}
use octopus_job_search.Usage.Ledger.{
  LedgerRow, settled, ProviderSettingsRow, Config, load_workspace_budget, load_provider_settings,
  read_validated_config, totals_from, window_rows, counts, sum_of, priced, price_of, stored,
}
use octopus_job_search.Usage.Service.{
  UsageStore, ReserveInput, UsageReserveResponse, SettleInput, UsageSettleResponse, reserved_row,
  reserve_usage, reserve_locked, settle_usage, settle_locked, release_usage, release_locked,
  lock_reservation, update_ledger, release_row,
}
use octopus_job_search.Usage.Within.{
  IsWithin, Fits, reserve_usage-IsWithin, reserve_usage-after_quiet_day,
}
use octopus_job_search.Usage.Isolation.{IsKeyed, release, run_call, others, run_call-others}
use octopus_job_search.Usage.Window.{
  IsLocked, charge, tokens_at, settled_as, settle_usage-tokens, release_usage-tokens,
}

abbrev task : TaskRow
task = record {
  id = 4;
  workspace_id = 7;
  type = parse_profile;
  state = leased;
  payload = codes "{}";
  result = none;
  idempotency_key = none;
  attempt = 1;
  max_attempts = 3;
  run_after = 10;
  lease_token_hash = some 61;
  lease_expires_at = some 900;
  leased_by = some (codes "worker");
  last_heartbeat_at = none;
  capability = parse_profile;
  progress = none;
  cancel_requested = false;
  error_code = none;
  error_message = none;
  error_retryable = none;
  input_file_ids = [];
  created_at = 10;
  updated_at = 10;
}

-- A dollar that another task of the workspace spent.
abbrev spent : LedgerRow
spent = record {
  id = 1;
  workspace_id = 7;
  task_id = some 3;
  provider = codes "openai_compatible";
  input_tokens = 600;
  output_tokens = 100;
  measured_cost = some 1000000;
  reserved_cost = some 900000;
  currency = some (codes "USD");
  status = settled;
  created_at = 100;
  updated_at = 120;
}

abbrev config : Config
config = record {
  check_limits =
      λ json. some (record { daily_token_budget = some 1000; daily_cost_budget = some 2000000 });
  check_rate_card = λ json. some (record {
    currency = codes "USD";
    input_cost_per_million = 5000000;
    output_cost_per_million = 15000000;
  });
  ai_requests_per_day = λ workspace. 3;
}

abbrev settings : ProviderSettingsRow
settings = record {
  workspace_id = 7;
  provider = codes "openai_compatible";
  limits = codes "{}";
  rate_card = some (codes "{}");
}

abbrev env : Env ℕ
env = record {
  on_result = λ h row json d. ok (none, d);
  on_failure = λ h row code m d. ok d;
  sha256_hex = λ t. t + 1;
  output_matches = λ type. none;
}

abbrev fresh : UsageStore ℕ
fresh = record {
  queue = record { tasks = task ∷ []; artifacts = []; files = []; audits = []; domain = 0 };
  ledger = [];
  settings = settings ∷ [];
  next_id = 2;
}

abbrev used : UsageStore ℕ
used = record fresh { ledger = spent ∷ [] }

abbrev ask : ReserveInput
ask = record { estimated_input_tokens = 100; estimated_output_tokens = 50 }

abbrev reply : UsageReserveResponse
reply = record {
  reservation_id = 2;
  reserved_tokens = 150;
  reserved_cost = some 1250000000;
  currency = some (codes "USD");
}

abbrev held_row : LedgerRow
held_row = reserved_row 2 200 task (load_workspace_budget config 7 fresh.settings) ask

abbrev held : UsageStore ℕ
held = record used { ledger = held_row ∷ spent ∷ []; next_id = 3 }

granted : reserve_usage config env 200 used 4 60 ask ≡ ok (reply, held)
unfolding reserve_usage reserve_locked lock_leased_task check_lease load_workspace_budget
    load_provider_settings read_validated_config totals_from window_rows counts sum_of priced
    price_of stored
granted = refl

held-IsKeyed : IsKeyed held.ledger
held-IsKeyed = ((λ e. omega (arith, e), tt), (tt, tt))

ask-Fits : Fits (load_workspace_budget config 7 fresh.settings) ask
unfolding load_workspace_budget load_provider_settings read_validated_config price_of
ask-Fits = record { requests = omega arith; tokens = omega arith; cost = omega arith }

reserve_usage-IsWithin_example :
    (row : TaskRow) × (lock_leased_task env 200 used.queue 4 60 ≡ ok row)
    × IsWithin
        (load_workspace_budget config row.workspace_id used.settings)
        (totals_from (window_rows row.workspace_id 200 held.ledger))
reserve_usage-IsWithin_example = reserve_usage-IsWithin config env 200 used 4 60 ask granted

reserve_usage-after_quiet_day_example :
    (r : UsageReserveResponse) × (t : UsageStore ℕ) × (reserve_usage config env 200 fresh 4 60 ask
      ≡ ok (r, t))
unfolding lock_leased_task check_lease window_rows
reserve_usage-after_quiet_day_example =
    reserve_usage-after_quiet_day config env 200 fresh 4 60 ask task refl refl ask-Fits

abbrev reported : SettleInput
reported = record { input_tokens = some 80; output_tokens = none }

abbrev settle_reply : UsageSettleResponse
settle_reply = record {
  reservation_id = 2;
  input_tokens = 80;
  output_tokens = 50;
  measured_cost = some 1150000000;
  currency = some (codes "USD");
  cost_is_unknown = false;
}

abbrev after_settle : UsageStore ℕ
after_settle = record held { ledger = settled_as 210 settle_reply held_row ∷ spent ∷ [] }

settles : settle_usage config env 210 held 4 60 2 reported ≡ ok (settle_reply, after_settle)
unfolding settle_usage settle_locked lock_leased_task check_lease lock_reservation update_ledger
    load_workspace_budget load_provider_settings read_validated_config price_of stored
settles = refl

settle_usage-tokens_example :
    (row : TaskRow) × (r : LedgerRow) × (lock_leased_task env 210 held.queue 4 60 ≡ ok row)
    × IsLocked row 2 held.ledger r
    × (settle_reply.input_tokens ≡ or_else reported.input_tokens r.input_tokens)
    × (settle_reply.output_tokens ≡ or_else reported.output_tokens r.output_tokens)
    × (tokens_at row.workspace_id 300 after_settle.ledger + charge row.workspace_id 300 r
        ≡ tokens_at row.workspace_id 300 held.ledger
          + charge row.workspace_id 300 (settled_as 210 settle_reply r))
settle_usage-tokens_example =
    settle_usage-tokens config env 210 300 held 4 60 2 reported held-IsKeyed settles

abbrev after_release : UsageStore ℕ
after_release = record held { ledger = release_row 210 held_row ∷ spent ∷ [] }

releases : release_usage config env 210 held 4 60 2 ≡ ok after_release
unfolding release_usage release_locked lock_leased_task check_lease lock_reservation update_ledger
releases = refl

release_usage-tokens_example :
    (row : TaskRow) × (r : LedgerRow) × (lock_leased_task env 210 held.queue 4 60 ≡ ok row)
    × IsLocked row 2 held.ledger r
    × (tokens_at row.workspace_id 300 after_release.ledger + charge row.workspace_id 300 r
        ≡ tokens_at row.workspace_id 300 held.ledger)
release_usage-tokens_example =
    release_usage-tokens config env 210 300 held 4 60 2 held-IsKeyed releases

run_call-others_example :
    (row : TaskRow) × (lock_leased_task env 210 held.queue 4 60 ≡ ok row)
    × (others row after_release.ledger ≡ others row held.ledger)
unfolding run_call
run_call-others_example = run_call-others config env 210 held 4 60 (release 2) held-IsKeyed releases
