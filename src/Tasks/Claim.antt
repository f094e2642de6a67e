-- ===== src/Tasks/Claim.antt =====
-- Claiming a task: `claimTask` and `selectClaimCandidate` of apps/api/src/tasks/queue.ts, with
-- `assertCapabilitiesAllowed` of apps/api/src/auth/worker.ts and the principals of
-- apps/api/src/auth/scope.ts. `locked` says which rows other transactions hold (SKIP LOCKED), and
-- `token` is what `generateToken` returns.
use octopus_job_search.Base.{
  ℕ, zero, suc, ◌+◌, Bool, true, false, not, ◌&&◌, ◌||◌, Option, none, some, List, [], ◌∷◌,
}
use octopus_job_search.Base.Tests.{◌==◌, leb, ltb, if◌then◌else◌}
use octopus_job_search.Base.Lists.{keep, any}
use octopus_job_search.Base.Text.{Text}
use octopus_job_search.Tasks.Types.{
  TaskRow, TaskType, TaskType-discrete, leased, failed, cancelled, lease_ms, protocol_version,
  fill_local, observe_confirmation, Message, expired_never_retried, expired_no_attempts, timed_out,
  Json,
}
use octopus_job_search.Tasks.Store.{
  Store, Env, Result, ok, err, ◌>>=◌, bad_protocol_version, capability_forbidden,
  session_may_not_claim, apply_domain_failure, update_task,
}
use octopus_job_search.Tasks.Retry.{no_retry}
use octopus_job_search.Tasks.Lease.{is_leased, is_queued, is_past, TaskInputFile, load_input_files}

pub data Principal : Type 0 where
  session : (user_id workspace_id session_id : ℕ) → Principal
  worker : (worker_id : Text) → Principal
  device : (device_id workspace_id : ℕ) → Principal

-- RUNNER_ONLY_CAPABILITIES.
unfoldable pub is_runner_only_capability : TaskType → Bool
is_runner_only_capability fill_local = true
is_runner_only_capability observe_confirmation = true
is_runner_only_capability _ = false

abbrev refuse_any : List TaskType → Result (Unit {0})
refuse_any [] = ok tt
refuse_any (c ∷ cs) = err (capability_forbidden (c ∷ cs))

unfoldable pub assert_capabilities_allowed : Principal → List TaskType → Result (Unit {0})
unfolding is_runner_only_capability
assert_capabilities_allowed (worker _) cs = refuse_any (keep is_runner_only_capability cs)
assert_capabilities_allowed (device _ _) cs =
    refuse_any (keep (λ c. not (is_runner_only_capability c)) cs)
assert_capabilities_allowed (session _ _ _) cs = err session_may_not_claim

-- A paired device sees the work of its own workspace only.
unfoldable pub workspace_filter : Principal → Option ℕ
workspace_filter (device _ workspace_id) = some workspace_id
workspace_filter (worker _) = none
workspace_filter (session _ _ _) = none

abbrev pub in_workspace : Option ℕ → TaskRow → Bool
in_workspace none r = true
in_workspace (some w) r = r.workspace_id == w

-- `capability in (…)`.
unfoldable pub has_capability : List TaskType → TaskType → Bool
unfolding TaskType-discrete
has_capability cs c = any (λ k. elim (TaskType-discrete c k) [ yes _ ↦ true | no _ ↦ false ]) cs

-- Due in the queue, or under a lease that has run out.
abbrev pub is_claimable : ℕ → TaskRow → Bool
is_claimable now r =
    (is_queued r.state && leb r.run_after now)
    || (is_leased r.state && is_past r.lease_expires_at now)

unfoldable pub is_candidate : (ℕ → Bool) → ℕ → List TaskType → Option ℕ → TaskRow → Bool
is_candidate locked now cs w r =
    not (locked r.id)
    && (has_capability cs r.capability && (is_claimable now r && in_workspace w r))

-- `orderBy('run_after').orderBy('created_at')`.
abbrev pub comes_before : TaskRow → TaskRow → Bool
comes_before a b =
    ltb a.run_after b.run_after || (a.run_after == b.run_after && ltb a.created_at b.created_at)

-- The first of the rows in that order.
abbrev pub earlier : TaskRow → Option TaskRow → TaskRow
earlier r none = r
earlier r (some b) = if comes_before b r then b else r

unfoldable pub first_of_rows : List TaskRow → Option TaskRow
first_of_rows [] = none
first_of_rows (r ∷ rs) = some (earlier r (first_of_rows rs))

unfoldable pub select_claim_candidate :
    (ℕ → Bool) → ℕ → List TaskType → Option ℕ → List TaskRow → Option TaskRow
unfolding first_of_rows
select_claim_candidate locked now cs w tasks =
    first_of_rows (keep (is_candidate locked now cs w) tasks)

pub record ClaimResponse : Type 0 where
  pub task_id : ℕ
  pub type : TaskType
  pub lease_token : ℕ
  pub lease_expires_at : ℕ
  pub attempt : ℕ
  pub max_attempts : ℕ
  pub input : Json
  pub files : List TaskInputFile

pub record ClaimInput : Type 0 where
  pub principal : Principal
  pub worker_id : Text
  pub capabilities : List TaskType
  pub protocol_version : ℕ

-- The three writes of the loop's body.
abbrev pub expire_row : ℕ → Message → TaskRow → TaskRow
expire_row now message r = record r {
  state = failed;
  lease_token_hash = none;
  lease_expires_at = none;
  leased_by = none;
  error_code = some timed_out;
  error_message = some message;
  error_retryable = some false;
  updated_at = now;
}

abbrev pub cancel_row : ℕ → TaskRow → TaskRow
cancel_row now r = record r {
  state = cancelled;
  lease_token_hash = none;
  lease_expires_at = none;
  leased_by = none;
  updated_at = now;
}

abbrev pub lease_row : ℕ → ℕ → ℕ → Text → TaskRow → TaskRow
lease_row now attempt digest worker_id r = record r {
  state = leased;
  attempt = attempt;
  lease_token_hash = some digest;
  lease_expires_at = some (now + lease_ms);
  leased_by = some worker_id;
  last_heartbeat_at = some now;
  updated_at = now;
}

abbrev pub expiry_message : TaskType → Message
expiry_message type = if no_retry type then expired_never_retried else expired_no_attempts

module _ {D : Type 0} (env : Env D) (locked : ℕ → Bool) (now token : ℕ) where
  -- An expired lease with no retry left.
  unfoldable pub expire_candidate : TaskRow → Store D → Result (Option ClaimResponse × Store D)
  expire_candidate candidate s =
      apply_domain_failure env candidate timed_out (expiry_message candidate.type) (record s {
        tasks = update_task candidate.id (expire_row now (expiry_message candidate.type)) s.tasks;
      })
      >>= λ s'. ok (none, s')

  unfoldable pub cancel_candidate : TaskRow → Store D → Result (Option ClaimResponse × Store D)
  cancel_candidate candidate s =
      ok (none, record s { tasks = update_task candidate.id (cancel_row now) s.tasks })

  unfoldable pub lease_candidate :
      Text → TaskRow → Store D → Result (Option ClaimResponse × Store D)
  lease_candidate worker_id candidate s =
      let granted : Store D = record s {
        tasks =
            update_task candidate.id
              (lease_row now (candidate.attempt + 1) (env.sha256_hex token) worker_id) s.tasks;
      } in
      ok (
        some (record {
          task_id = candidate.id;
          type = candidate.type;
          lease_token = token;
          lease_expires_at = now + lease_ms;
          attempt = candidate.attempt + 1;
          max_attempts = candidate.max_attempts;
          input = candidate.payload;
          files = load_input_files env granted candidate;
        }),
        granted,
      )

  -- One round of the loop over its candidate: no response means `continue`.
  unfoldable pub claim_candidate :
      Text → TaskRow → Store D → Result (Option ClaimResponse × Store D)
  claim_candidate worker_id candidate s =
      if is_leased candidate.state
        && (leb candidate.max_attempts candidate.attempt || no_retry candidate.type)
      then expire_candidate candidate s
      else if candidate.cancel_requested
      then cancel_candidate candidate s
      else lease_candidate worker_id candidate s

  unfoldable pub claim_rounds :
      ℕ → Text → List TaskType → Option ℕ → Store D → Result (Option ClaimResponse × Store D)
  claim_rounds zero worker_id cs w s = ok (none, s)
  claim_rounds (suc n) worker_id cs w s = elim (select_claim_candidate locked now cs w s.tasks) [
    | none ↦ ok (none, s)
    | some c ↦ claim_candidate worker_id c s >>= λ (r, s'). elim r [
      | none ↦ claim_rounds n worker_id cs w s'
      | some response ↦ ok (some response, s')
    ]
  ]

  -- At most ten candidates are inspected.
  unfoldable pub claim_task : ClaimInput → Store D → Result (Option ClaimResponse × Store D)
  claim_task input s =
      if not (input.protocol_version == protocol_version)
      then err (bad_protocol_version input.protocol_version)
      else assert_capabilities_allowed input.principal input.capabilities >>= λ _.
          claim_rounds 10 input.worker_id input.capabilities (workspace_filter input.principal) s
