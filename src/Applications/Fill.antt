-- ===== src/Applications/Fill.antt =====
-- apps/api/src/applications/fill.ts: what the report of a fill does to an application and its
-- packets. The tables hold the rows of the task's workspace.
use octopus_job_search.Base.{
  ℕ, ◌+◌, Bool, true, false, not, Option, none, some, List, [], ◌∷◌, ◌++◌, map,
}
use octopus_job_search.Base.Tests.{◌==◌, if◌then◌else◌, or_else, same_opt}
use octopus_job_search.Base.Lists.{find, length, take, keep}
use octopus_job_search.Base.Text.{Text, codes}
use octopus_job_search.FillPlanner.Plan.{UnresolvedField}
use octopus_job_search.Extension.Session.{
  FillOutcome, awaiting_user_submit, needs_input, unsupported, FilledField, filled, skipped, failed,
}
use octopus_job_search.Applications.Status
use octopus_job_search.Applications.Status.{ApplicationStatus, same_status}
use octopus_job_search.Applications.Transition.{
  ApplicationRow, EventInput, Store, Outcome, done, refused, runner, append_application_event,
  transition_application,
}
use octopus_job_search.Applications.Packet.{PacketRow, PacketAnswer, unresolved_question_keys}
use octopus_job_search.Applications.Reconcile.{World, withdraw, update_packet}
use octopus_job_search.Applications.Observe.{load_application, no_options, stored_by}
use octopus_job_search.Applications.Discover.{
  PacketHashMaterial, merge_discovered_questions, build_packet_hash_material,
}

pub record FillLocalResult : Type 0 where
  pub packet_id : ℕ
  pub filled_fields : List FilledField
  pub unresolved_fields : List UnresolvedField
  pub page_url : Option Text
  pub form_fingerprint : Option Text
  pub outcome : FillOutcome
  pub adapter : Option Text
  pub adapter_version : Option Text
  pub screenshot_file_id : Option ℕ

-- The data of the event that ends a fill.
pub record FillData : Type 0 where
  pub packet_id : ℕ
  pub outcome : FillOutcome
  pub filled_count : ℕ
  pub unresolved_question_keys : List Text
  pub adapter : Option Text
  pub adapter_version : Option Text

-- The data of a failed fill's event; the message is there where the application was being filled.
pub record FillFailureData : Type 0 where
  pub packet_id : ℕ
  pub code : Text
  pub message : Option Text

-- JSON, and the digest of the canonical JSON of the material.
pub record Codec : Type 0 where
  pub data_json : FillData → Text
  pub failure_json : FillFailureData → Text
  pub content_hash : PacketHashMaterial → ℕ

-- `PAUSE_REASON` and `PAUSE_STATUS`.
unfoldable pub pause_reason : FillOutcome → Text
pause_reason awaiting_user_submit = codes "filled_awaiting_user_submit"
pause_reason needs_input = codes "unanswered_required_questions"
pause_reason unsupported = codes "no_tested_adapter"

unfoldable pub pause_status : FillOutcome → ApplicationStatus
pause_status awaiting_user_submit = Status.awaiting_user_submit
pause_status needs_input = Status.needs_input
pause_status unsupported = Status.approved

abbrev is_filled : FilledField → Bool
is_filled field = elim field.outcome [ filled ↦ true | skipped ↦ false | failed ↦ false ]

abbrev open_keys : List UnresolvedField → List Text
open_keys = map (λ f. f.question_key)

unfoldable pub fill_data : FillLocalResult → ℕ → FillData
fill_data result packet_id = record {
  packet_id = packet_id;
  outcome = result.outcome;
  filled_count = length (keep is_filled result.filled_fields);
  unresolved_question_keys = open_keys result.unresolved_fields;
  adapter = result.adapter;
  adapter_version = result.adapter_version;
}

-- `updateTable('applications').set(…).where('id', '=', application.id)`.
unfoldable pub observe_form : ℕ → ℕ → Option Text → List ApplicationRow → List ApplicationRow
observe_form now id fingerprint [] = []
observe_form now id fingerprint (r ∷ rs) =
    (if r.id == id
      then record r { observed_form_fingerprint = fingerprint; form_observed_at = some now }
      else r)
    ∷ observe_form now id fingerprint rs

-- The schema that the runner saw, where it saw one.
unfoldable pub record_form : ℕ → ℕ → Option Text → Store → Store
unfolding observe_form
record_form now id none s = s
record_form now id (some fingerprint) s = record s {
  applications = observe_form now id (some fingerprint) s.applications;
}

-- The revision that a discovered question requires.
abbrev pub discovered_packet :
    ℕ → ℕ → PacketRow → ApplicationRow → Option Text → List PacketAnswer → ℕ → PacketRow
discovered_packet now id previous application form_fingerprint answers hash = record {
  id = id;
  application_id = application.id;
  revision = previous.revision + 1;
  profile_revision = previous.profile_revision;
  job_revision = previous.job_revision;
  resume_id = previous.resume_id;
  resume_sha256 = previous.resume_sha256;
  destination_url = previous.destination_url;
  destination_origin = previous.destination_origin;
  connector = previous.connector;
  connector_version = previous.connector_version;
  answers = answers;
  form_fingerprint = form_fingerprint;
  content_hash = hash;
  approved_at = none;
  approved_hash = none;
  expires_at = none;
  created_at = now;
}

abbrev pub with_packets : List PacketRow → Outcome Store → Outcome World
with_packets packets (refused c) = refused c
with_packets packets (done store) = done (record { store = store; packets = packets })

abbrev pub is_needs_input : FillOutcome → Bool
is_needs_input needs_input = true
is_needs_input _ = false

-- `new_id` is the id that the database gives to the packet that is inserted, if one is.
module _ (codec : Codec) (now new_id : ℕ) where
  -- `writeDiscoveredPacket`: the packets after it, where it writes one.
  unfoldable pub write_discovered_packet :
      ApplicationRow → ℕ → FillLocalResult → List PacketRow → Option (List PacketRow)
  unfolding merge_discovered_questions unresolved_question_keys build_packet_hash_material
      update_packet
  write_discovered_packet application packet_id result packets =
      if not (same_opt application.current_packet_id (some packet_id))
      then none
      else elim (find (λ (p : PacketRow). p.id == packet_id) packets) [
        | none ↦ none
        | some previous ↦
            let answers = merge_discovered_questions previous.answers result.unresolved_fields in
            let hash =
              codec.content_hash
                (build_packet_hash_material previous application result.form_fingerprint answers) in
            let packet =
              discovered_packet now new_id previous application result.form_fingerprint answers
                hash in
            if length (unresolved_question_keys answers) == 0
            then none
            else some (update_packet previous.id withdraw (packets ++ (packet ∷ [])))
      ]

  abbrev pub pause_event : FillLocalResult → ℕ → EventInput
  pause_event result packet_id = record {
    type = codes "fill_paused";
    actor = runner;
    status_before = none;
    status_after = none;
    reason = some (pause_reason result.outcome);
    event_data = codec.data_json (fill_data result packet_id);
  }

  -- The ending that waits for answers. `application` is the row as it was first read.
  unfoldable pub pause_for_input :
      Store → List PacketRow → ApplicationRow → ℕ → FillLocalResult → Outcome World
  unfolding write_discovered_packet transition_application pause_reason fill_data
  pause_for_input store packets application packet_id result =
      let refreshed = or_else (load_application application.id store.applications) application in
      elim (write_discovered_packet application packet_id result packets) [
        | none ↦ with_packets packets (
            stored_by (
              transition_application now store refreshed (Status.needs_input ∷ [])
                (pause_event result result.packet_id) no_options))
        | some written ↦ with_packets written (
            stored_by (
              transition_application now store refreshed (Status.needs_input ∷ [])
                (pause_event result new_id)
                (record no_options { current_packet_id = some (some new_id) })))
      ]

  -- The application and the packet are those that the task's payload names.
  unfoldable pub apply_fill_local_result : World → ℕ → ℕ → FillLocalResult → Outcome World
  unfolding record_form pause_for_input transition_application pause_status pause_reason fill_data
  apply_fill_local_result w application_id packet_id result =
      elim (load_application application_id w.store.applications) [
        | none ↦ done w
        | some application ↦
            let store = record_form now application.id result.form_fingerprint w.store in
            if is_needs_input result.outcome
            then pause_for_input store w.packets application packet_id result
            else with_packets w.packets (
                stored_by (
                  transition_application now store application (pause_status result.outcome ∷ [])
                    (pause_event result result.packet_id) no_options))
      ]

  abbrev failure_event : Text → Text → EventInput
  failure_event code body = record {
    type = codes "fill_failed";
    actor = runner;
    status_before = none;
    status_after = none;
    reason = some (take 120 code);
    event_data = body;
  }

  unfoldable pub apply_fill_local_failure : Store → ℕ → ℕ → Text → Text → Outcome Store
  unfolding same_status append_application_event transition_application
  apply_fill_local_failure s application_id packet_id code message =
      elim (load_application application_id s.applications) [
        | none ↦ done s
        | some application ↦
            if not (same_status application.status Status.filling)
            then done (record s {
              events =
                  append_application_event application.id
                    (failure_event code (
                      codec.failure_json
                        (record { packet_id = packet_id; code = code; message = none })))
                    [] s.events;
            })
            else stored_by (
                transition_application now s application (Status.failed ∷ [])
                  (failure_event code (
                    codec.failure_json (record {
                      packet_id = packet_id;
                      code = code;
                      message = some (take 600 message);
                    })))
                  no_options)
      ]
