-- ===== src/Applications/Examples.antt =====
-- One application on its way from a draft to a filled form.
use octopus_job_search.Base.{◌+◌, ◌*◌, max, ◌≤◌, ◌≡◌, refl, true, none, some, List, [], ◌∷◌}
use octopus_job_search.Base.Text.{codes, text_eq}
use octopus_job_search.FillPlanner.Forms.{standard}
use octopus_job_search.FillPlanner.Plan
use octopus_job_search.Applications.Status
use octopus_job_search.Applications.Status.{
  ApplicationStatus, ApplicationStatus-discrete, same_status, application_transitions, is_allowed,
  draft, preparing, ready_for_review, approved, filling, withdrawn,
}
use octopus_job_search.Applications.Transition.{
  ApplicationRow, EventInput, TransitionOptions, Store, done, refused, Conflict, user, walk,
  update_application, append_application_event, last_sequence, write_transition,
  transition_application,
}
use octopus_job_search.Applications.Packet.{
  approval_expired, user_entered, PacketRow, PacketLiveState, ApplicationContext, packet_staleness,
  unresolved_question_keys, refuse_content, fill_refusal, approval_expiry,
}
use octopus_job_search.Applications.Review.{visits, walk-IsReviewed}
use octopus_job_search.Applications.History.{
  IsRecorded, transition_application-IsRecorded, transition_application-stale,
}
use octopus_job_search.Applications.Reconcile.{
  LoadedApplication, World, withdraw, withdrawal_target, expired_only, withdraw_one,
  reconcile_applications,
}
use octopus_job_search.Applications.Ready.{
  IsFillable, fill_refusal-IsFillable, approval_expiry_bounds,
}

abbrev to_form : List ApplicationStatus
to_form = preparing ∷ ready_for_review ∷ approved ∷ filling ∷ []

walked : walk draft to_form ≡ done filling
unfolding walk is_allowed same_status ApplicationStatus-discrete application_transitions
walked = refl

walk-IsReviewed_example :
    (visits ready_for_review to_form ≡ true) × (visits approved to_form ≡ true)
walk-IsReviewed_example = walk-IsReviewed draft to_form refl walked

abbrev application : ApplicationRow
application = record {
  id = 4;
  job_id = 9;
  status = draft;
  revision = 2;
  current_packet_id = none;
  submission_evidence = none;
  submitted_at = none;
  observed_form_fingerprint = none;
  form_observed_at = none;
  updated_at = 10;
}

abbrev store : Store
store = record { applications = application ∷ []; events = [] }

abbrev event : EventInput
event = record {
  type = codes "packet_prepared";
  actor = user;
  status_before = none;
  status_after = none;
  reason = none;
  event_data = codes "{}";
}

-- The new packet becomes the current one.
abbrev options : TransitionOptions
options = record { submitted_at = none; evidence = none; current_packet_id = some (some 6) }

abbrev moved : ApplicationRow
moved = record application {
  status = ready_for_review;
  revision = 3;
  current_packet_id = some 6;
  updated_at = 20;
}

abbrev after : Store
after = record {
  applications = moved ∷ [];
  events =
      record {
        application_id = 4;
        sequence = 1;
        type = codes "packet_prepared";
        actor = user;
        status_before = some draft;
        status_after = some ready_for_review;
        reason = none;
        event_data = codes "{}";
        path = draft ∷ preparing ∷ ready_for_review ∷ [];
      }
      ∷ [];
}

abbrev to_review : List ApplicationStatus
to_review = preparing ∷ ready_for_review ∷ []

transition :
    transition_application 20 store application to_review event options ≡ done (moved, after)
unfolding transition_application write_transition update_application append_application_event
    last_sequence walk is_allowed same_status ApplicationStatus-discrete application_transitions
transition = refl

transition_application-IsRecorded_example : IsRecorded store application to_review moved after
transition_application-IsRecorded_example =
    transition_application-IsRecorded 20 store application to_review event options transition

transition_application-stale_example :
    (c : Conflict) × (transition_application 21 after application
        (Status.cancelled ∷ [])
        event
        options
      ≡ refused c)
transition_application-stale_example =
    transition_application-stale 20 store application to_review event options transition 21
      (Status.cancelled ∷ []) event options

abbrev packet : PacketRow
packet = record {
  id = 6;
  application_id = 4;
  revision = 1;
  profile_revision = 5;
  job_revision = 1;
  resume_id = 8;
  resume_sha256 = some 77;
  destination_url = codes "https://jobs.example/1";
  destination_origin = codes "https://jobs.example";
  connector = none;
  connector_version = none;
  answers =
      record {
        question_key = codes "email";
        label = none;
        answer = some (Plan.string (codes "ada@example.org"));
        required = true;
        sensitivity = standard;
        provenance = user_entered;
        source_id = none;
      }
      ∷ [];
  form_fingerprint = none;
  content_hash = 88;
  created_at = 20;
  approved_at = some 30;
  approved_hash = some 70;
  expires_at = some 1000;
}

abbrev live : PacketLiveState
live = record {
  profile_revision = 5;
  job_revision = 1;
  resume_sha256 = some 77;
  destination = record {
    url = codes "https://jobs.example/1";
    origin = codes "https://jobs.example";
    connector = none;
    connector_version = none;
  };
}

abbrev loaded : ApplicationContext
loaded = record {
  application = record moved { status = approved; revision = 4 };
  packet = some (packet, live);
}

unopposed : fill_refusal loaded 40 ≡ none
unfolding fill_refusal refuse_content packet_staleness unresolved_question_keys same_status
    ApplicationStatus-discrete text_eq
unopposed = refl

fill_refusal-IsFillable_example : IsFillable loaded 40
fill_refusal-IsFillable_example = fill_refusal-IsFillable loaded 40 unopposed

approval_expiry_bounds_example :
    (30 + 3600000 ≤ approval_expiry 30 48)
    × (approval_expiry 30 48 ≤ 30 + 86400000)
    × (approval_expiry 30 48 ≤ 30 + max 48 1 * 3600000)
approval_expiry_bounds_example = approval_expiry_bounds 30 48

-- The approval of the packet has run out.
abbrev expired : LoadedApplication
expired = record {
  application = loaded.application;
  packet = some packet;
  staleness = approval_expired ∷ [];
}

abbrev world : World
world = record {
  store = record after { applications = loaded.application ∷ [] };
  packets = packet ∷ [];
}

abbrev withdrawn_context : LoadedApplication
withdrawn_context = record {
  application = record loaded.application {
    status = ready_for_review;
    revision = 5;
    updated_at = 1000;
  };
  packet = some (withdraw packet);
  staleness = approval_expired ∷ [];
}

abbrev reconciled_world : World
unfolding reconcile_applications withdraw_one withdrawal_target expired_only transition_application
    write_transition update_application append_application_event last_sequence walk is_allowed
    same_status ApplicationStatus-discrete application_transitions
reconciled_world = (reconcile_applications (λ id reasons. codes "{}") 1000 (expired ∷ []) world).1
