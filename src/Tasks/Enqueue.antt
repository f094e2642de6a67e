-- ===== src/Tasks/Enqueue.antt =====
-- apps/api/src/tasks/enqueue.ts, with the constraints that apps/api/src/db/migrations/0001_foundation.sql
-- puts on a new row of the task table. The schema check of payloads and the id that the database gives
-- are arguments. The table has no order; a new row stands first.
use octopus_job_search.Base.{
  ℕ, ◌≡◌, ◌≢◌, refl, subst, sym, Bool, true, false, not, ◌&&◌, ◌||◌, Option, none, some, List, [],
  ◌∷◌, arith, inl, inr,
}
use octopus_job_search.Base.Tests.{
  ◌==◌, ==_iff, leb, Bool-cases, Option-cases, or_else, if◌then◌else◌,
}
use octopus_job_search.Base.Lists.{any, All}
use octopus_job_search.Base.Text.{Text, text_eq}
use octopus_job_search.Tasks.Types.{TaskRow, TaskType, TaskType-discrete, Json, queued}
use octopus_job_search.Tasks.Rows.{IsSound, IsKeyed}

pub record EnqueueTaskInput : Type 0 where
  pub workspace_id : ℕ
  pub type : TaskType
  pub payload : Json
  pub idempotency_key : Option Text
  pub max_attempts : Option ℕ
  pub run_after : Option ℕ
  pub input_file_ids : Option (List ℕ)

pub data EnqueueError : Type 0 where
  unsupported_task_type unprocessable constraint_violated : EnqueueError

-- The row, and the table with it.
pub data Enqueued : Type 0 where
  refused : EnqueueError → Enqueued
  enqueued : TaskRow → List TaskRow → Enqueued

abbrev pub default_max_attempts : ℕ
default_max_attempts = 3

unfoldable pub queued_row : ℕ → ℕ → EnqueueTaskInput → TaskRow
queued_row now id input = record {
  id = id;
  workspace_id = input.workspace_id;
  type = input.type;
  state = queued;
  payload = input.payload;
  result = none;
  idempotency_key = input.idempotency_key;
  attempt = 0;
  max_attempts = or_else input.max_attempts default_max_attempts;
  run_after = or_else input.run_after now;
  lease_token_hash = none;
  lease_expires_at = none;
  leased_by = none;
  last_heartbeat_at = none;
  capability = input.type;
  progress = none;
  cancel_requested = false;
  error_code = none;
  error_message = none;
  error_retryable = none;
  input_file_ids = or_else input.input_file_ids [];
  created_at = now;
  updated_at = now;
}

abbrev pub same_idempotency_key : Option Text → Option Text → Bool
same_idempotency_key (some a) (some b) = text_eq a b
same_idempotency_key _ _ = false

abbrev pub same_type : TaskType → TaskType → Bool
unfolding TaskType-discrete
same_type a b = elim (TaskType-discrete a b) [ yes _ ↦ true | no _ ↦ false ]

-- The primary key, and `tasks_idempotency_key`.
unfoldable pub clashes : TaskRow → TaskRow → Bool
clashes row q =
    q.id == row.id
    || (q.workspace_id == row.workspace_id
        && (same_type q.type row.type
            && same_idempotency_key q.idempotency_key row.idempotency_key))

-- An insertion, with `tasks_max_attempts_check` and the unique keys.
unfoldable pub insert_task : TaskRow → List TaskRow → Enqueued
unfolding clashes
insert_task row tasks =
    if leb 1 row.max_attempts && not (any (clashes row) tasks)
    then enqueued row (row ∷ tasks)
    else refused constraint_violated

module _ (input_matches : TaskType → Option (Json → Bool)) (now id : ℕ) where
  unfoldable pub enqueue_task : EnqueueTaskInput → List TaskRow → Enqueued
  unfolding insert_task queued_row
  enqueue_task input tasks = elim (input_matches input.type) [
    | none ↦ refused unsupported_task_type
    | some matches ↦
        if matches input.payload
        then insert_task (queued_row now id input) tasks
        else refused unprocessable
  ]

-- What an accepted task is.
pub record IsEnqueued (input_matches : TaskType → Option (Json → Bool)) (input : EnqueueTaskInput)
    (tasks : List TaskRow) (row : TaskRow) (after : List TaskRow) : Type 0 where
  pub added : after ≡ row ∷ tasks
  pub payload_matches :
      (matches : Json → Bool) × (input_matches row.type ≡ some matches)
      × (matches row.payload ≡ true)
  pub is_new : All (λ q. clashes row q ≡ false) tasks
  pub sound : All IsSound after
  pub keyed : IsKeyed after

none_clashes :
    (row : TaskRow) (tasks : List TaskRow)
    → any (clashes row) tasks ≡ false
    → All (λ q. clashes row q ≡ false) tasks
none_clashes row [] e = tt
none_clashes row (q ∷ qs) e = (ground (arith, e), none_clashes row qs (ground (arith, e)))

clashes-id : (row q : TaskRow) → clashes row q ≡ false → q.id ≢ row.id
unfolding clashes
clashes-id row q e same = let t = (==_iff q.id row.id).1 same in ground (arith, e, t)

apart :
    (row : TaskRow) (tasks : List TaskRow)
    → All (λ q. clashes row q ≡ false) tasks
    → All (λ q. q.id ≢ row.id) tasks
apart row [] h = tt
apart row (q ∷ qs) h = (clashes-id row q h.0, apart row qs h.1)

queued_row-IsSound :
    (now id : ℕ) (input : EnqueueTaskInput)
    → leb 1 (queued_row now id input).max_attempts ≡ true
    → IsSound (queued_row now id input)
unfolding queued_row
queued_row-IsSound now id input h = record {
  queued_budget = λ _. ground (arith, h);
  leased_budget = λ e. cc;
  held = λ e. cc;
  cleared = λ _. (refl, refl, refl);
  first_claim = λ _ _. refl;
  one_claim = λ _. omega arith;
}

enqueued-injective :
    {r s : TaskRow} {l k : List TaskRow} → enqueued r l ≡ enqueued s k → (r ≡ s) × (l ≡ k)
enqueued-injective e = (cc, cc)

insert_task-enqueued :
    (new : TaskRow) (tasks : List TaskRow) {row : TaskRow} {after : List TaskRow}
    → insert_task new tasks ≡ enqueued row after
    → (new ≡ row)
      × (after ≡ new ∷ tasks)
      × (leb 1 new.max_attempts ≡ true)
      × All (λ q. clashes new q ≡ false) tasks
unfolding insert_task
insert_task-enqueued new tasks {row} {after} e =
    elim (Bool-cases (leb 1 new.max_attempts && not (any (clashes new) tasks))) [
      | inl t ↦
          let parts = enqueued-injective (rw t at e) in
          (parts.0, sym parts.1, ground (arith, t), none_clashes new tasks (ground (arith, t)))
      | inr f ↦ cc (rw f at e)
    ]

-- A task that is enqueued in a table of sound rows with distinct ids is a new row whose payload matches
-- the schema of its type, shares neither its id nor its idempotency key in its workspace and type with
-- an earlier row, and leaves a table of sound rows with distinct ids.
pub enqueue_task-IsEnqueued :
    (input_matches : TaskType → Option (Json → Bool)) (now id : ℕ) (input : EnqueueTaskInput)
    (tasks : List TaskRow) {row : TaskRow} {after : List TaskRow}
    → IsKeyed tasks
    → All IsSound tasks
    → enqueue_task input_matches now id input tasks ≡ enqueued row after
    → IsEnqueued input_matches input tasks row after
unfolding enqueue_task queued_row
enqueue_task-IsEnqueued input_matches now id input tasks {row} {after} k s e =
    elim (Option-cases (input_matches input.type)) [
      | inl n ↦ cc (rw (enqueue_task, n) at e)
      | inr (matches, m) ↦ elim (Bool-cases (matches input.payload)) [
        | inl t ↦
            let new = queued_row now id input in
            let (same, table, budget, apart_all) =
              insert_task-enqueued new tasks (rw (enqueue_task, m, t) at e) in
            subst (λ r. IsEnqueued input_matches input tasks r after) same
              (record {
                added = table;
                payload_matches = (matches, m, t);
                is_new = apart_all;
                sound = rw table (queued_row-IsSound now id input budget, s);
                keyed = rw table (apart new tasks apart_all, k);
              })
        | inr f ↦ cc (rw (enqueue_task, m, f) at e)
      ]
    ]
