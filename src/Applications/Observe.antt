-- ===== src/Applications/Observe.antt =====
-- apps/api/src/applications/observe.ts: what an observation of the employer's page does to an
-- application, with `observationResultIsCoherent` of
-- packages/contracts/src/tasks/observe-confirmation.ts. The store holds the applications of the
-- task's workspace, to which `WorkspaceScope` restricts every query.
use octopus_job_search.Base.{ℕ, Bool, true, false, not, ◌&&◌, Option, none, some, List, [], ◌∷◌}
use octopus_job_search.Base.Tests.{◌==◌, if◌then◌else◌, is_some}
use octopus_job_search.Base.Lists.{find, take}
use octopus_job_search.Base.Text.{Text, codes}
use octopus_job_search.Applications.Status.{
  ApplicationStatus, same_status, awaiting_user_submit, outcome_unknown, submitted,
}
use octopus_job_search.Applications.Transition.{
  ApplicationRow, EventInput, TransitionOptions, Store, Outcome, done, refused, runner,
  append_application_event, transition_application,
}

pub data ObservationOutcome : Type 0 where
  observed unknown : ObservationOutcome

pub data ObservationUnknownReason : Type 0 where
  timed_out no_confirmation_found left_allowed_origin unsupported : ObservationUnknownReason
  runner_error : ObservationUnknownReason

pub record ObservedConfirmation : Type 0 where
  pub confirmation_text : Option Text
  pub reference : Option Text
  pub url : Option Text
  pub observed_at : ℕ

pub record ObserveConfirmationResult : Type 0 where
  pub application_id : ℕ
  pub packet_id : ℕ
  pub outcome : ObservationOutcome
  pub confirmation : Option ObservedConfirmation
  pub unknown_reason : Option ObservationUnknownReason
  pub watched_seconds : ℕ
  pub page_url : Option Text
  pub adapter : Option Text
  pub adapter_version : Option Text
  pub screenshot_file_id : Option ℕ

-- Evidence of the type `adapter_observed`; its note is null.
pub record SubmissionEvidence : Type 0 where
  pub confirmation_text : Option Text
  pub reference : Option Text
  pub url : Option Text
  pub observed_at : ℕ
  pub screenshot_file_id : Option ℕ

-- The data of an observation's event. The last three are there just in the events that add them.
pub record ObservationData : Type 0 where
  pub packet_id : ℕ
  pub outcome : ObservationOutcome
  pub watched_seconds : ℕ
  pub unknown_reason : Option ObservationUnknownReason
  pub adapter : Option Text
  pub adapter_version : Option Text
  pub extra : Text
  pub status : Option ApplicationStatus
  pub reference : Option (Option Text)
  pub has_confirmation_text : Option Bool

-- The data of a failure's event.
pub record FailureData : Type 0 where
  pub packet_id : ℕ
  pub code : Text
  pub detail : Text
  pub status : Option ApplicationStatus

-- How the values are written as JSON.
pub record Render : Type 0 where
  pub observation : ObservationData → Text
  pub failure : FailureData → Text
  pub evidence : SubmissionEvidence → Text

abbrev pub is_observed : ObservationOutcome → Bool
is_observed observed = true
is_observed unknown = false

unfoldable pub is_coherent : ObserveConfirmationResult → Bool
is_coherent result =
    if is_observed result.outcome
    then is_some result.confirmation && not (is_some result.unknown_reason)
    else not (is_some result.confirmation) && is_some result.unknown_reason

-- The confirmation of a result that is coherent and observed, which it then has.
unfoldable pub observed_confirmation : ObserveConfirmationResult → Option ObservedConfirmation
unfolding is_coherent
observed_confirmation result =
    if is_coherent result && is_observed result.outcome then result.confirmation else none

unfoldable pub unknown_reason_name : ObservationUnknownReason → Text
unknown_reason_name timed_out = codes "timed_out"
unknown_reason_name no_confirmation_found = codes "no_confirmation_found"
unknown_reason_name left_allowed_origin = codes "left_allowed_origin"
unknown_reason_name unsupported = codes "unsupported"
unknown_reason_name runner_error = codes "runner_error"

abbrev name_or_unknown : Option ObservationUnknownReason → Text
name_or_unknown none = codes "unknown"
name_or_unknown (some reason) = unknown_reason_name reason

-- `OBSERVABLE_STATUSES`.
unfoldable pub is_observable : ApplicationStatus → Bool
unfolding same_status
is_observable status = same_status status awaiting_user_submit

abbrev pub load_application : ℕ → List ApplicationRow → Option ApplicationRow
load_application id = find (λ row. row.id == id)

unfoldable pub observation_data : ObserveConfirmationResult → Text → ObservationData
unfolding is_coherent
observation_data result extra = record {
  packet_id = result.packet_id;
  outcome = if is_coherent result then result.outcome else unknown;
  watched_seconds = result.watched_seconds;
  unknown_reason = if is_coherent result then result.unknown_reason else some runner_error;
  adapter = result.adapter;
  adapter_version = result.adapter_version;
  extra = extra;
  status = none;
  reference = none;
  has_confirmation_text = none;
}

abbrev pub no_options : TransitionOptions
no_options = record { submitted_at = none; evidence = none; current_packet_id = none }

abbrev pub stored_by : Outcome (ApplicationRow × Store) → Outcome Store
stored_by (done (row, s)) = done s
stored_by (refused c) = refused c

-- The note for an observation that came after the person's own answer.
unfoldable pub note_superseded : Store → ApplicationRow → Text → Store
unfolding append_application_event
note_superseded s application body = record s {
  events =
      append_application_event application.id
        (record {
          type = codes "note";
          actor = runner;
          status_before = none;
          status_after = none;
          reason = some (codes "observation_superseded");
          event_data = body;
        })
        [] s.events;
}

-- The event of an ending that could not tell.
abbrev pub unknown_event : Text → Text → EventInput
unknown_event reason body = record {
  type = codes "outcome_recorded";
  actor = runner;
  status_before = none;
  status_after = none;
  reason = some (take 120 reason);
  event_data = body;
}

module _ (render : Render) (now : ℕ) where
  -- The end of `applyObservation` that records a submission.
  unfoldable pub record_submitted :
      Store
      → ApplicationRow
      → ObserveConfirmationResult
      → Text
      → ObservedConfirmation
      → Outcome Store
  unfolding observation_data transition_application
  record_submitted s application result extra confirmation = stored_by (
      transition_application now s application (submitted ∷ [])
        (record {
          type = codes "submitted";
          actor = runner;
          status_before = none;
          status_after = none;
          reason = some (codes "adapter_observed");
          event_data = render.observation (record (observation_data result extra) {
            reference = some confirmation.reference;
            has_confirmation_text = some (is_some confirmation.confirmation_text);
          });
        })
        (record {
          submitted_at = some (some confirmation.observed_at);
          evidence = some (
              some (
                render.evidence (record {
                  confirmation_text = confirmation.confirmation_text;
                  reference = confirmation.reference;
                  url = confirmation.url;
                  observed_at = confirmation.observed_at;
                  screenshot_file_id = result.screenshot_file_id;
                })));
          current_packet_id = none;
        }))

  unfoldable pub record_unknown :
      Store → ApplicationRow → ObserveConfirmationResult → Text → Outcome Store
  unfolding observation_data is_coherent transition_application unknown_reason_name
  record_unknown s application result extra = stored_by (
      transition_application now s application (outcome_unknown ∷ [])
        (unknown_event
          (if is_coherent result
            then name_or_unknown result.unknown_reason
            else codes "runner_error")
          (render.observation (observation_data result extra)))
        no_options)

  unfoldable pub apply_observation :
      Store → ApplicationRow → ObserveConfirmationResult → Text → Outcome Store
  unfolding is_observable note_superseded observation_data observed_confirmation record_unknown
      record_submitted
  apply_observation s application result extra =
      if not (is_observable application.status)
      then done (
          note_superseded s application (
            render.observation
              (record (observation_data result extra) { status = some application.status })))
      else elim (observed_confirmation result) [
        | none ↦ record_unknown s application result extra
        | some confirmation ↦ record_submitted s application result extra confirmation
      ]

  -- `id` is the application that the task's payload names.
  unfoldable pub apply_observe_confirmation_result :
      Store → ℕ → ObserveConfirmationResult → Outcome Store
  unfolding apply_observation
  apply_observe_confirmation_result s id result = elim (load_application id s.applications) [
    | none ↦ done s
    | some application ↦ apply_observation s application result []
  ]

  unfoldable pub apply_observe_confirmation_failure : Store → ℕ → ℕ → Text → Text → Outcome Store
  unfolding is_observable note_superseded transition_application
  apply_observe_confirmation_failure s id packet_id code message =
      let facts : FailureData = record {
        packet_id = packet_id;
        code = code;
        detail = take 500 message;
        status = none;
      } in
      elim (load_application id s.applications) [
        | none ↦ done s
        | some application ↦
            if not (is_observable application.status)
            then done (
                note_superseded s application
                  (render.failure (record facts { status = some application.status })))
            else stored_by (
                transition_application now s application (outcome_unknown ∷ [])
                  (unknown_event code (render.failure facts)) no_options)
      ]
