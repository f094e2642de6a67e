-- ===== src/Tasks/Enqueues.antt =====
-- Two tasks that are enqueued one after the other, and one with a key that is taken.
use octopus_job_search.Base.{◌≡◌, refl, Bool, true, Option, none, some, [], ◌∷◌}
use octopus_job_search.Base.Text.{codes, text_eq}
use octopus_job_search.Tasks.Types.{
  TaskRow, TaskType, TaskType-discrete, Json, fetch_job, noop_echo,
}
use octopus_job_search.Tasks.Enqueue.{
  EnqueueTaskInput, refused, enqueued, constraint_violated, queued_row, clashes, insert_task,
  enqueue_task, IsEnqueued, enqueue_task-IsEnqueued,
}

-- A registry that knows two types, of which the second takes only empty objects.
abbrev schemas : TaskType → Option (Json → Bool)
schemas fetch_job = some (λ json. true)
schemas noop_echo = some (λ json. text_eq json (codes "{}"))
schemas _ = none

abbrev fetch : EnqueueTaskInput
fetch = record {
  workspace_id = 7;
  type = fetch_job;
  payload = codes "{}";
  idempotency_key = some (codes "fetch");
  max_attempts = none;
  run_after = none;
  input_file_ids = none;
}

abbrev first : TaskRow
unfolding queued_row
first = queued_row 100 1 fetch

abbrev echo : EnqueueTaskInput
echo = record fetch { type = noop_echo; max_attempts = some 1; run_after = some 500 }

abbrev second : TaskRow
unfolding queued_row
second = queued_row 200 2 echo

first_enqueued : enqueue_task schemas 100 1 fetch [] ≡ enqueued first (first ∷ [])
unfolding enqueue_task insert_task queued_row clashes
first_enqueued = refl

second_enqueued :
    enqueue_task schemas 200 2 echo (first ∷ []) ≡ enqueued second (second ∷ first ∷ [])
unfolding enqueue_task insert_task queued_row clashes text_eq TaskType-discrete
second_enqueued = refl

key_taken : enqueue_task schemas 200 2 fetch (first ∷ []) ≡ refused constraint_violated
unfolding enqueue_task insert_task queued_row clashes text_eq TaskType-discrete
key_taken = refl

first_added : IsEnqueued schemas fetch [] first (first ∷ [])
first_added = enqueue_task-IsEnqueued schemas 100 1 fetch [] tt tt first_enqueued

enqueue_task-IsEnqueued_example : IsEnqueued schemas echo (first ∷ []) second (second ∷ first ∷ [])
enqueue_task-IsEnqueued_example =
    enqueue_task-IsEnqueued schemas 200 2 echo (first ∷ []) first_added.keyed first_added.sound
      second_enqueued
