-- ===== src/Tasks/Types.antt =====
-- packages/contracts/src/tasks/registry.ts and the task tables of apps/api/src/db/types.ts.
-- An id, a digest or a token is the number that its text spells; a time is in milliseconds.
use octopus_job_search.Base.{ℕ, ◌*◌, Bool, Option, List}
use octopus_job_search.Base.Text.{Text}

pub data TaskType : Type 0 where
  noop_echo parse_profile fetch_board fetch_job match_job render_cv build_packet : TaskType
  fill_local observe_confirmation export_workspace delete_workspace discover_boards : TaskType

unfoldable pub TaskType-discrete : Discrete TaskType
TaskType-discrete = hlevel

pub data TaskState : Type 0 where
  queued leased succeeded failed cancelled : TaskState

pub data TaskFailureCode : Type 0 where
  provider_unavailable provider_invalid_output budget_exhausted input_invalid : TaskFailureCode
  file_unreadable encrypted_document ocr_required extraction_empty : TaskFailureCode
  limit_exceeded fetch_blocked rate_limited timed_out cancelled_by_user : TaskFailureCode
  unsupported_task_type internal_error : TaskFailureCode

abbrev pub lease_seconds : ℕ
lease_seconds = 120

abbrev pub lease_ms : ℕ
lease_ms = lease_seconds * 1000

abbrev pub protocol_version : ℕ
protocol_version = 1

-- A JSON document, as its text.
abbrev pub Json : Type 0
Json = Text

pub record TaskProgress : Type 0 where
  pub stage : Text
  pub percent : ℕ

-- The texts that `error_message` holds: the queue's own, and those that a worker reports.
pub data Message : Type 0 where
  expired_never_retried expired_no_attempts stopped_heartbeating : Message
  no_output_schema output_mismatch : TaskType → Message
  reported : Text → Message

pub record TaskRow : Type 0 where
  pub id : ℕ
  pub workspace_id : ℕ
  pub type : TaskType
  pub state : TaskState
  pub payload : Json
  pub result : Option Json
  pub idempotency_key : Option Text
  pub attempt : ℕ
  pub max_attempts : ℕ
  pub run_after : ℕ
  pub lease_token_hash : Option ℕ
  pub lease_expires_at : Option ℕ
  pub leased_by : Option Text
  pub last_heartbeat_at : Option ℕ
  pub capability : TaskType
  pub progress : Option TaskProgress
  pub cancel_requested : Bool
  pub error_code : Option TaskFailureCode
  pub error_message : Option Message
  pub error_retryable : Option Bool
  pub input_file_ids : List ℕ
  pub created_at : ℕ
  pub updated_at : ℕ

pub record TaskArtifact : Type 0 where
  pub id : ℕ
  pub workspace_id : ℕ
  pub task_id : ℕ
  pub file_id : ℕ
  pub lease_token_hash : ℕ
  pub committed : Bool
  pub updated_at : ℕ

pub data FileState : Type 0 where
  staging ready : FileState

pub record FileRow : Type 0 where
  pub id : ℕ
  pub workspace_id : ℕ
  pub purpose : Text
  pub original_name : Text
  pub mime : Text
  pub bytes : ℕ
  pub sha256 : ℕ
  pub storage_key : Text
  pub state : FileState
  pub expires_at : Option ℕ
  pub updated_at : ℕ

-- `metadata` is the task's type and attempt.
pub record AuditEvent : Type 0 where
  pub workspace_id : ℕ
  pub action : Text
  pub object_id : ℕ
  pub object_type : Text
  pub metadata : TaskType × ℕ
