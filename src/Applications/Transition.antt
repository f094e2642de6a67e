-- ===== src/Applications/Transition.antt =====
-- apps/api/src/applications/service.ts: the one write of an application's status, and its history.
use octopus_job_search.Base.{ℕ, ◌+◌, max, Bool, ◌&&◌, Option, none, some, List, [], ◌∷◌, ◌++◌}
use octopus_job_search.Base.Tests.{◌==◌, if◌then◌else◌, or_else}
use octopus_job_search.Base.Lists.{find}
use octopus_job_search.Base.Text.{Text}
use octopus_job_search.Applications.Status.{ApplicationStatus, is_allowed}

pub record ApplicationRow : Type 0 where
  pub id : ℕ
  pub job_id : ℕ
  pub status : ApplicationStatus
  pub revision : ℕ
  pub current_packet_id : Option ℕ
  pub submission_evidence : Option Text
  pub submitted_at : Option ℕ
  pub observed_form_fingerprint : Option Text
  pub form_observed_at : Option ℕ
  pub updated_at : ℕ

pub data ApplicationActor : Type 0 where
  user system runner : ApplicationActor

-- A row of the history. `event_data` is the JSON text of `data`, apart from `path`.
pub record ApplicationEvent : Type 0 where
  pub application_id : ℕ
  pub sequence : ℕ
  pub type : Text
  pub actor : ApplicationActor
  pub status_before : Option ApplicationStatus
  pub status_after : Option ApplicationStatus
  pub reason : Option Text
  pub event_data : Text
  pub path : List ApplicationStatus

pub record EventInput : Type 0 where
  pub type : Text
  pub actor : ApplicationActor
  pub status_before : Option ApplicationStatus
  pub status_after : Option ApplicationStatus
  pub reason : Option Text
  pub event_data : Text

-- An option that is absent leaves its column as it is; one that is null clears it.
pub record TransitionOptions : Type 0 where
  pub submitted_at : Option (Option ℕ)
  pub evidence : Option (Option Text)
  pub current_packet_id : Option (Option ℕ)

pub record Store : Type 0 where
  pub applications : List ApplicationRow
  pub events : List ApplicationEvent

-- The two conflicts that `transitionApplication` throws.
pub data Conflict : Type 0 where
  cannot_move : (from to : ApplicationStatus) → Conflict
  changed_meanwhile : Conflict

pub data Outcome {ℓ} (A : Type ℓ) : Type ℓ where
  done : A → Outcome A
  refused : Conflict → Outcome A

-- The loop over the path: where it ends, or the hop that is not allowed.
unfoldable pub walk : ApplicationStatus → List ApplicationStatus → Outcome ApplicationStatus
walk cursor [] = done cursor
walk cursor (next ∷ path) =
    let rest = walk next path in
    if is_allowed cursor next then rest else refused (cannot_move cursor next)

-- `coalesce(max(sequence), 0)` over the application's events.
unfoldable pub last_sequence : ℕ → List ApplicationEvent → ℕ
last_sequence id [] = 0
last_sequence id (e ∷ es) =
    let rest = last_sequence id es in if e.application_id == id then max e.sequence rest else rest

unfoldable pub append_application_event :
    ℕ → EventInput → List ApplicationStatus → List ApplicationEvent → List ApplicationEvent
unfolding last_sequence
append_application_event id event path events =
    events
    ++ record {
      application_id = id;
      sequence = last_sequence id events + 1;
      type = event.type;
      actor = event.actor;
      status_before = event.status_before;
      status_after = event.status_after;
      reason = event.reason;
      event_data = event.event_data;
      path = path;
    }
      ∷ []

-- The columns that the update sets.
abbrev pub patched :
    ℕ → ApplicationRow → ApplicationStatus → TransitionOptions → ApplicationRow → ApplicationRow
patched now application status options row = record row {
  status = status;
  revision = application.revision + 1;
  updated_at = now;
  submitted_at = or_else options.submitted_at row.submitted_at;
  submission_evidence = or_else options.evidence row.submission_evidence;
  current_packet_id = or_else options.current_packet_id row.current_packet_id;
}

-- The row that is still as it was read.
abbrev pub is_read_row : ApplicationRow → ApplicationRow → Bool
is_read_row application row = (row.id == application.id) && (row.revision == application.revision)

unfoldable pub update_application :
    ApplicationRow → (ApplicationRow → ApplicationRow) → List ApplicationRow → List ApplicationRow
update_application application f [] = []
update_application application f (r ∷ rs) =
    (if is_read_row application r then f r else r) ∷ update_application application f rs

-- `data.path`, for a path of several hops.
abbrev pub path_data : ApplicationStatus → List ApplicationStatus → List ApplicationStatus
path_data from [] = []
path_data from (a ∷ []) = []
path_data from (a ∷ b ∷ path) = from ∷ a ∷ b ∷ path

abbrev pub or_some : Option ApplicationStatus → ApplicationStatus → Option ApplicationStatus
or_some none s = some s
or_some (some a) s = some a

-- The update and the event, once the path is allowed.
unfoldable pub write_transition :
    ℕ
    → Store
    → ApplicationRow
    → List ApplicationStatus
    → ApplicationStatus
    → EventInput
    → TransitionOptions
    → Outcome (ApplicationRow × Store)
unfolding update_application append_application_event
write_transition now s application path cursor event options =
    elim (find (is_read_row application) s.applications) [
      | none ↦ refused changed_meanwhile
      | some row ↦ done (
        patched now application cursor options row,
        record {
          applications =
              update_application application (patched now application cursor options)
                s.applications;
          events =
              append_application_event application.id
                (record event {
                  status_before = or_some event.status_before application.status;
                  status_after = or_some event.status_after cursor;
                })
                (path_data application.status path) s.events;
        },
      )
    ]

unfoldable pub transition_application :
    ℕ
    → Store
    → ApplicationRow
    → List ApplicationStatus
    → EventInput
    → TransitionOptions
    → Outcome (ApplicationRow × Store)
unfolding walk
transition_application now s application path event options = elim (walk application.status path) [
  | refused c ↦ refused c
  | done cursor ↦ write_transition now s application path cursor event options
]
