-- ===== src/Applications/Reports.antt =====
-- Reports on one application: an observation of the page, a fill that found a question, a late one.
use mathlib.Core.List.{Memᴰ}
use octopus_job_search.Base.{◌≡◌, refl, true, none, some, List, [], ◌∷◌, ◌++◌, ◌⊎◌}
use octopus_job_search.Base.Tests.{same_opt}
use octopus_job_search.Base.Lists.{All}
use octopus_job_search.Base.Text.{codes, text_eq}
use octopus_job_search.FillPlanner.Forms.{standard}
use octopus_job_search.FillPlanner.Plan
use octopus_job_search.FillPlanner.Plan.{UnresolvedField, new_question}
use octopus_job_search.Extension.Session
use octopus_job_search.Applications.Status
use octopus_job_search.Applications.Status.{
  ApplicationStatus, ApplicationStatus-discrete, same_status, application_transitions, is_allowed,
  awaiting_user_submit, submitted, outcome_unknown, filling, cancelled,
}
use octopus_job_search.Applications.Transition.{
  ApplicationRow, ApplicationEvent, Store, done, refused, cannot_move, runner, walk,
  update_application, append_application_event, last_sequence, write_transition,
  transition_application,
}
use octopus_job_search.Applications.Packet.{
  PacketAnswer, PacketRow, user_entered, unresolved_question_keys,
}
use octopus_job_search.Applications.Reconcile.{World, withdraw, update_packet}
use octopus_job_search.Applications.Observe.{
  ObserveConfirmationResult, Render, observed, is_coherent, observed_confirmation, is_observable,
  record_submitted, apply_observation, apply_observe_confirmation_failure,
}
use octopus_job_search.Applications.Observed.{
  IsOutcome, IsUnknown, apply_observation-IsOutcome, apply_observe_confirmation_failure-IsUnknown,
}
use octopus_job_search.Applications.Discover.{
  set_answer, get_answer, by_key_from, merge_fields, merge_discovered_questions,
}
use octopus_job_search.Applications.Fill.{
  FillLocalResult, Codec, pause_reason, pause_status, record_form, observe_form,
  write_discovered_packet, discovered_packet, pause_for_input, apply_fill_local_result,
  apply_fill_local_failure,
}
use octopus_job_search.Applications.Discovered.{
  IsKept, IsAsked, last_answer, merge_discovered_questions-IsKept,
}
use octopus_job_search.Applications.Paused.{IsPaused, apply_fill_local_result-IsPaused}
use octopus_job_search.Applications.Revised.{IsRevised, write_discovered_packet-IsRevised}
use octopus_job_search.Applications.Late.{apply_fill_local_result-cancelled}

abbrev application : ApplicationRow
application = record {
  id = 4;
  job_id = 9;
  status = filling;
  revision = 2;
  current_packet_id = some 6;
  submission_evidence = none;
  submitted_at = none;
  observed_form_fingerprint = none;
  form_observed_at = none;
  updated_at = 10;
}

abbrev waiting : ApplicationRow
waiting = record application { status = awaiting_user_submit }

abbrev render : Render
render = record {
  observation = λ d. codes "{}";
  failure = λ d. codes "{}";
  evidence = λ e. codes "{}";
}

abbrev seen : ObserveConfirmationResult
seen = record {
  application_id = 4;
  packet_id = 6;
  outcome = observed;
  confirmation = some (record {
    confirmation_text = some (codes "Thank you");
    reference = none;
    url = none;
    observed_at = 90;
  });
  unknown_reason = none;
  watched_seconds = 12;
  page_url = none;
  adapter = none;
  adapter_version = none;
  screenshot_file_id = none;
}

abbrev before : Store
before = record { applications = waiting ∷ []; events = [] }

abbrev recorded : ApplicationRow
recorded = record waiting {
  status = submitted;
  revision = 3;
  submission_evidence = some (codes "{}");
  submitted_at = some 90;
  updated_at = 100;
}

abbrev event : ApplicationEvent
event = record {
  application_id = 4;
  sequence = 1;
  type = codes "submitted";
  actor = runner;
  status_before = some awaiting_user_submit;
  status_after = some submitted;
  reason = some (codes "adapter_observed");
  event_data = codes "{}";
  path = [];
}

observes :
    apply_observation render 100 before waiting seen []
    ≡ done (record { applications = recorded ∷ []; events = event ∷ [] })
unfolding apply_observation is_observable same_status ApplicationStatus-discrete
    observed_confirmation is_coherent record_submitted transition_application walk is_allowed
    application_transitions write_transition update_application append_application_event
    last_sequence
observes = refl

apply_observation-IsOutcome_example :
    Memᴰ recorded before.applications ⊎ IsOutcome render 100 before seen waiting recorded
apply_observation-IsOutcome_example =
    apply_observation-IsOutcome render 100 before waiting seen [] observes (Memᴰ.head refl)

abbrev unknown_row : ApplicationRow
unknown_row = record waiting { status = outcome_unknown; revision = 3; updated_at = 100 }

abbrev lost_event : ApplicationEvent
lost_event = record event {
  type = codes "outcome_recorded";
  status_after = some outcome_unknown;
  reason = some (codes "crashed");
}

lost_watch :
    apply_observe_confirmation_failure render 100 before 4 6 (codes "crashed") []
    ≡ done (record { applications = unknown_row ∷ []; events = lost_event ∷ [] })
unfolding apply_observe_confirmation_failure is_observable same_status ApplicationStatus-discrete
    transition_application walk is_allowed application_transitions write_transition
    update_application append_application_event last_sequence
lost_watch = refl

apply_observe_confirmation_failure-IsUnknown_example :
    Memᴰ unknown_row before.applications
    ⊎ ((old : ApplicationRow) × Memᴰ old before.applications
        × (unknown_row.id ≡ 4)
        × IsUnknown old unknown_row)
apply_observe_confirmation_failure-IsUnknown_example =
    apply_observe_confirmation_failure-IsUnknown render 100 before 4 6 (codes "crashed") []
      lost_watch (Memᴰ.head refl)

abbrev email : PacketAnswer
email = record {
  question_key = codes "email";
  label = none;
  answer = some (Plan.string (codes "ada@example.org"));
  required = true;
  sensitivity = standard;
  provenance = user_entered;
  source_id = none;
}

abbrev salary : UnresolvedField
salary = record {
  question_key = codes "salary";
  label = some (codes "Salary");
  required = true;
  reason = new_question;
  options = [];
}

merge_discovered_questions-IsKept_example :
    IsKept
      (last_answer (codes "email") (email ∷ []))
      (get_answer (codes "email") (merge_discovered_questions (email ∷ []) (salary ∷ [])))
    × All
        (λ f.
          IsAsked f
            (get_answer f.question_key (merge_discovered_questions (email ∷ []) (salary ∷ []))))
        (salary ∷ [])
merge_discovered_questions-IsKept_example =
    merge_discovered_questions-IsKept (email ∷ []) (salary ∷ []) (codes "email")

abbrev packet : PacketRow
packet = record {
  id = 6;
  application_id = 4;
  revision = 1;
  profile_revision = 5;
  job_revision = 1;
  resume_id = 8;
  resume_sha256 = some 77;
  destination_url = codes "https://jobs.example/1";
  destination_origin = codes "https://jobs.example";
  connector = none;
  connector_version = none;
  answers = email ∷ [];
  form_fingerprint = none;
  content_hash = 88;
  approved_at = some 30;
  approved_hash = some 88;
  expires_at = some 5000;
  created_at = 20;
}

abbrev codec : Codec
codec = record {
  data_json = λ d. codes "{}";
  failure_json = λ d. codes "{}";
  content_hash = λ m. 99;
}

abbrev report : FillLocalResult
report = record {
  packet_id = 6;
  filled_fields = [];
  unresolved_fields = salary ∷ [];
  page_url = none;
  form_fingerprint = some (codes "f1");
  outcome = Session.needs_input;
  adapter = none;
  adapter_version = none;
  screenshot_file_id = none;
}

abbrev asked : PacketAnswer
asked = record {
  question_key = codes "salary";
  label = some (codes "Salary");
  answer = none;
  required = true;
  sensitivity = standard;
  provenance = user_entered;
  source_id = none;
}

abbrev revised : PacketRow
revised = discovered_packet 100 7 packet application (some (codes "f1")) (email ∷ asked ∷ []) 99

abbrev written : List PacketRow
written = withdraw packet ∷ revised ∷ []

writes : write_discovered_packet codec 100 7 application 6 report (packet ∷ []) ≡ some written
unfolding write_discovered_packet merge_discovered_questions by_key_from merge_fields set_answer
    unresolved_question_keys update_packet text_eq
writes = refl

write_discovered_packet-IsRevised_example :
    (same_opt application.current_packet_id (some 6) ≡ true) × IsRevised 4 7 6 (packet ∷ []) written
write_discovered_packet-IsRevised_example =
    write_discovered_packet-IsRevised codec 100 7 application 6 report (packet ∷ []) writes

abbrev world : World
world = record {
  store = record { applications = application ∷ []; events = [] };
  packets = packet ∷ [];
}

abbrev paused : ApplicationRow
paused = record application {
  status = Status.needs_input;
  revision = 3;
  current_packet_id = some 7;
  observed_form_fingerprint = some (codes "f1");
  form_observed_at = some 100;
  updated_at = 100;
}

abbrev pause : ApplicationEvent
pause = record event {
  type = codes "fill_paused";
  status_before = some filling;
  status_after = some Status.needs_input;
  reason = some (codes "unanswered_required_questions");
}

pauses :
    apply_fill_local_result codec 100 7 world 4 6 report
    ≡ done (record {
      store = record { applications = paused ∷ []; events = pause ∷ [] };
      packets = written;
    })
unfolding apply_fill_local_result record_form observe_form pause_for_input pause_reason
    write_discovered_packet merge_discovered_questions by_key_from merge_fields set_answer
    unresolved_question_keys update_packet text_eq same_status ApplicationStatus-discrete
    transition_application walk is_allowed application_transitions write_transition
    update_application append_application_event last_sequence
pauses = refl

apply_fill_local_result-IsPaused_example : IsPaused world.store.applications report paused
apply_fill_local_result-IsPaused_example =
    apply_fill_local_result-IsPaused codec 100 7 world 4 6 report pauses (Memᴰ.head refl)

abbrev withdrawn_store : Store
withdrawn_store = record {
  applications = record application { status = cancelled } ∷ [];
  events = [];
}

apply_fill_local_result-cancelled_example :
    (apply_fill_local_result codec 100 7
        (record { store = withdrawn_store; packets = [] })
        4
        6
        report
      ≡ refused (cannot_move cancelled (pause_status report.outcome)))
    × ((e : ApplicationEvent) × (apply_fill_local_failure codec 100 7 withdrawn_store 4 6
            (codes "crashed")
            []
          ≡ done (record withdrawn_store { events = withdrawn_store.events ++ (e ∷ []) })))
apply_fill_local_result-cancelled_example =
    apply_fill_local_result-cancelled codec 100 7 (record { store = withdrawn_store; packets = [] })
      4 6 report (record application { status = cancelled }) (codes "crashed") [] refl refl
