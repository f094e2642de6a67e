-- ===== src/Tasks/Store.antt =====
-- The tables that the queue's transactions read and write, the errors that they throw, and the
-- handlers of other components that they call (`applyDomainResult` and `applyDomainFailure` of
-- apps/api/src/tasks/queue.ts). A transaction is a function of the store: an error rolls it back.
use octopus_job_search.Base.{ℕ, ◌≡◌, refl, Bool, Option, none, some, List, [], ◌∷◌, arith, inl, inr}
use octopus_job_search.Base.Tests.{◌==◌, if◌then◌else◌, Option-cases}
use octopus_job_search.Base.Lists.{find}
use octopus_job_search.Tasks.Types.{
  TaskRow, TaskArtifact, FileRow, AuditEvent, TaskType, TaskFailureCode, Message, Json,
  parse_profile, fetch_board, fetch_job, match_job, render_cv, fill_local, observe_confirmation,
}

-- One constructor for each error that the queue and the usage budget throw; the rest are a
-- handler's own.
pub data ApiError : Type 0 where
  no_such_task not_leased stale_token lease_expired : ApiError
  invalid_token not_an_input no_such_file : ApiError
  bad_protocol_version : ℕ → ApiError
  capability_forbidden : List TaskType → ApiError
  session_may_not_claim : ApiError
  over_budget no_such_reservation : ApiError
  domain_error : ℕ → ApiError

-- The HTTP status of each (apps/api/src/errors.ts).
unfoldable pub status : ApiError → ℕ
status no_such_task = 404
status not_leased = 409
status stale_token = 409
status lease_expired = 409
status invalid_token = 409
status not_an_input = 404
status no_such_file = 404
status (bad_protocol_version v) = 422
status (capability_forbidden cs) = 403
status session_may_not_claim = 403
status over_budget = 409
status no_such_reservation = 404
status (domain_error n) = n

pub data Result {ℓ} (A : Type ℓ) : Type ℓ where
  ok : A → Result A
  err : ApiError → Result A

-- The rest of a transaction, which a thrown error cuts off.
infixl 5 ◌>>=◌
abbrev pub ◌>>=◌ {κ μ} : {X : Type κ} {Y : Type μ} → Result X → (X → Result Y) → Result Y
err thrown >>= rest = err thrown
ok value >>= rest = rest value

-- The handlers, each named for the function that `applyDomainResult` calls.
pub data ResultHandler : Type 0 where
  parse_profile_result fetch_board_result fetch_job_result match_job_result : ResultHandler
  render_cv_result fill_local_result observe_confirmation_result : ResultHandler

pub data FailureHandler : Type 0 where
  parse_profile_failure fetch_board_failure fetch_job_failure : FailureHandler
  render_cv_failure fill_local_failure observe_confirmation_failure : FailureHandler

unfoldable pub result_handler : TaskType → Option ResultHandler
result_handler parse_profile = some parse_profile_result
result_handler fetch_board = some fetch_board_result
result_handler fetch_job = some fetch_job_result
result_handler match_job = some match_job_result
result_handler render_cv = some render_cv_result
result_handler fill_local = some fill_local_result
result_handler observe_confirmation = some observe_confirmation_result
result_handler _ = none

unfoldable pub failure_handler : TaskType → Option FailureHandler
failure_handler parse_profile = some parse_profile_failure
failure_handler fetch_board = some fetch_board_failure
failure_handler fetch_job = some fetch_job_failure
failure_handler render_cv = some render_cv_failure
failure_handler fill_local = some fill_local_failure
failure_handler observe_confirmation = some observe_confirmation_failure
failure_handler _ = none

-- What the queue uses of the rest: the domain handlers over their tables `D`, of which one for a result
-- may also give a result to be stored in the task's row instead, as `extendTaskResult` of
-- apps/api/src/discovery/imports.ts does; the digest of a
-- token (`sha256Hex`), and the schema check of a result, with no answer where no schema is
-- registered (`TASK_IO_SCHEMAS` and `checkSchema`).
pub record Env (D : Type 0) : Type 0 where
  pub on_result : ResultHandler → TaskRow → Json → D → Result (Option Json × D)
  pub on_failure : FailureHandler → TaskRow → TaskFailureCode → Message → D → Result D
  pub sha256_hex : ℕ → ℕ
  pub output_matches : TaskType → Option (Json → Bool)

pub record Store (D : Type 0) : Type 0 where
  pub tasks : List TaskRow
  pub artifacts : List TaskArtifact
  pub files : List FileRow
  pub audits : List AuditEvent
  pub domain : D

-- `updateTable('tasks').set(…).where('id', '=', id)`.
unfoldable pub update_task : ℕ → (TaskRow → TaskRow) → List TaskRow → List TaskRow
update_task id f [] = []
update_task id f (r ∷ rs) = (if r.id == id then f r else r) ∷ update_task id f rs

-- The update of `extendTaskResult`, where a handler makes it.
unfoldable pub extend_result : ℕ → ℕ → Option Json → List TaskRow → List TaskRow
unfolding update_task
extend_result now id none tasks = tasks
extend_result now id (some extended) tasks =
    update_task id (λ r. record r { result = some extended; updated_at = now }) tasks

module _ {D : Type 0} (env : Env D) where
  unfoldable pub apply_domain_result : ℕ → TaskRow → Json → Store D → Result (Store D)
  unfolding result_handler extend_result
  apply_domain_result now task result s = elim (result_handler task.type) [
    | none ↦ ok s
    | some h ↦ env.on_result h task result s.domain >>= λ (extended, d).
        ok (record s { tasks = extend_result now task.id extended s.tasks; domain = d })
  ]

  unfoldable pub apply_domain_failure :
      TaskRow → TaskFailureCode → Message → Store D → Result (Store D)
  unfolding failure_handler
  apply_domain_failure task code message s = elim (failure_handler task.type) [
    | none ↦ ok s
    | some h ↦ env.on_failure h task code message s.domain >>= λ d. ok (record s { domain = d })
  ]

-- `selectFrom('tasks').where('id', '=', id).executeTakeFirst()`.
abbrev pub task_by_id : ℕ → List TaskRow → Option TaskRow
task_by_id id = find (λ r. r.id == id)

-- A transaction that succeeds has a first part that does, and a rest that does with its value.
pub >>=-eq-ok {κ μ} :
    {X : Type κ} {Y : Type μ} (first : Result X) (rest : X → Result Y) {out : Y}
    → (first >>= rest) ≡ ok out
    → (value : X) × (first ≡ ok value) × (rest value ≡ ok out)
>>=-eq-ok (err thrown) rest h = cc
>>=-eq-ok (ok value) rest h = (value, refl, h)

pub err-ne-ok {ℓ} : {A : Type ℓ} {e : ApiError} {a : A} → err e ≡ ok a → ⊥
err-ne-ok h = cc

pub ok-injective {ℓ} : {A : Type ℓ} {a b : A} → ok a ≡ ok b → a ≡ b
ok-injective e = cc

-- What a handler gave to be stored instead of the result.
abbrev pub Extends : {D : Type 0} → Env D → TaskRow → Json → D → Option Json → Type 0
Extends env task result d none = Unit {0}
Extends {D} env task result d (some kept) =
    (h : ResultHandler) × (after : D) × (env.on_result h task result d ≡ ok (some kept, after))

-- The handlers write their own tables only, but for the result of the task.
module _ {D : Type 0} (env : Env D) where
  pub tasks-apply_domain_result :
      (now : ℕ) (task : TaskRow) (result : Json) (s : Store D) {t : Store D}
      → apply_domain_result env now task result s ≡ ok t
      → (extended : Option Json) × Extends env task result s.domain extended
        × (t.tasks ≡ extend_result now task.id extended s.tasks)
        × (t.artifacts ≡ s.artifacts)
        × (t.files ≡ s.files)
        × (t.audits ≡ s.audits)
  unfolding apply_domain_result extend_result
  tasks-apply_domain_result now task result s {t} e =
      elim (Option-cases (result_handler task.type)) [
        | inl n ↦
            let same = ok-injective (rw (n, apply_domain_result) at e) in
            (none, tt, cc same, cc same, cc same, cc same)
        | inr (h, y) ↦
            let ((extended, d), ran, written) =
              >>=-eq-ok (env.on_result h task result s.domain) _
                (rw (y, apply_domain_result) at e) in
            let same = ok-injective written in
            (extended, by_handler h extended d ran, cc same, cc same, cc same, cc same)
      ]
    where
      by_handler :
          (h : ResultHandler) (extended : Option Json) (d : D)
          → env.on_result h task result s.domain ≡ ok (extended, d)
          → Extends env task result s.domain extended
      by_handler h none d ran = tt
      by_handler h (some kept) d ran = (h, d, ran)

  pub tasks-apply_domain_failure :
      (task : TaskRow) (code : TaskFailureCode) (message : Message) (s : Store D) {t : Store D}
      → apply_domain_failure env task code message s ≡ ok t
      → (t.tasks ≡ s.tasks)
        × (t.artifacts ≡ s.artifacts)
        × (t.files ≡ s.files)
        × (t.audits ≡ s.audits)
  unfolding apply_domain_failure
  tasks-apply_domain_failure task code message s e = ground arith
