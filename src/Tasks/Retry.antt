-- ===== src/Tasks/Retry.antt =====
-- The retry policy of apps/api/src/tasks/queue.ts: which failures the server retries, and when.
use octopus_job_search.Base.{
  ℕ, ◌+◌, ◌-◌, ◌*◌, ◌/◌, ◌^◌, min, max, Bool, true, false, not, ◌&&◌, ◌++◌,
}
use octopus_job_search.Base.Tests.{ltb}
use octopus_job_search.Base.Lists.{length, take}
use octopus_job_search.Base.Text.{codes}
use octopus_job_search.Tasks.Types.{
  TaskType, TaskFailureCode, Message, fill_local, observe_confirmation, provider_unavailable,
  rate_limited, timed_out, internal_error, reported,
}

-- NO_RETRY_TASK_TYPES.
unfoldable pub no_retry : TaskType → Bool
no_retry fill_local = true
no_retry observe_confirmation = true
no_retry _ = false

-- SERVER_RETRYABLE_CODES.
unfoldable pub server_retryable : TaskFailureCode → Bool
server_retryable provider_unavailable = true
server_retryable rate_limited = true
server_retryable timed_out = true
server_retryable internal_error = true
server_retryable _ = false

-- The four early returns, in their order.
unfoldable pub is_retryable_failure : TaskType → TaskFailureCode → Bool → ℕ → ℕ → Bool
is_retryable_failure type code worker_says_retryable attempt max_attempts =
    not (no_retry type)
    && (worker_says_retryable && (server_retryable code && ltb attempt max_attempts))

abbrev pub backoff_base_ms : ℕ
backoff_base_ms = 2000

abbrev pub backoff_max_ms : ℕ
backoff_max_ms = 300000

-- `Math.min(BASE * 2 ** Math.max(0, attempt - 1), MAX)`; `-` stops at 0.
unfoldable pub exponential : ℕ → ℕ
exponential attempt = min (backoff_base_ms * 2 ^ (attempt - 1)) backoff_max_ms

-- `random()` is `draw / 2^53`. The jittered delay `e + e * 0.25 * (2 * random - 1)` is a multiple of
-- 2^-54, kept as its numerator; `Math.round` is the floor of the delay plus a half.
abbrev pub random_scale : ℕ
random_scale = 2 ^ 53

unfoldable pub jittered : ℕ → ℕ → ℕ
jittered e draw = e * 2 ^ 54 + e * draw - e * 2 ^ 52

unfoldable pub backoff_ms : ℕ → ℕ → ℕ
unfolding exponential jittered
backoff_ms attempt draw =
    max backoff_base_ms ((jittered (exponential attempt) draw + 2 ^ 53) / 2 ^ 54)

-- `truncateMessage`: the queue's own messages are short.
unfoldable pub truncate_message : Message → Message
truncate_message (reported t) =
    reported (elim (ltb 2000 (length t)) [ true ↦ take 1997 t ++ codes "..." | false ↦ t ])
truncate_message m = m
