-- ===== src/Applications/Packet.antt =====
-- apps/api/src/applications/service.ts and fillable.ts: an approved packet, what makes it stale, and
-- when it may be filled.
use octopus_job_search.Base.{
  ℕ, ◌+◌, ◌*◌, min, max, Bool, false, not, ◌&&◌, ◌||◌, Option, none, some, List, [], ◌∷◌, ◌++◌,
}
use octopus_job_search.Base.Tests.{◌==◌, leb, if◌then◌else◌, is_some, same_opt}
use octopus_job_search.Base.Lists.{length}
use octopus_job_search.Base.Text.{Text, text_eq}
use octopus_job_search.FillPlanner.Forms.{AnswerSensitivity}
use octopus_job_search.FillPlanner.Plan.{AnswerValue, FillField}
use octopus_job_search.Applications.Status.{
  ApplicationStatus, same_status, outcome_unknown, approved,
}
use octopus_job_search.Applications.Transition.{ApplicationRow}

pub record PacketDestination : Type 0 where
  pub url : Text
  pub origin : Text
  pub connector : Option Text
  pub connector_version : Option Text

pub data PacketAnswerProvenance : Type 0 where
  user_entered answer_bank profile_fact preference : PacketAnswerProvenance

pub record PacketAnswer : Type 0 where
  pub question_key : Text
  pub label : Option Text
  pub answer : Option AnswerValue
  pub required : Bool
  pub sensitivity : AnswerSensitivity
  pub provenance : PacketAnswerProvenance
  pub source_id : Option ℕ

-- A digest is the number that its text spells.
pub record PacketRow : Type 0 where
  pub id : ℕ
  pub application_id : ℕ
  pub revision : ℕ
  pub profile_revision : ℕ
  pub job_revision : ℕ
  pub resume_id : ℕ
  pub resume_sha256 : Option ℕ
  pub destination_url : Text
  pub destination_origin : Text
  pub connector : Option Text
  pub connector_version : Option Text
  pub answers : List PacketAnswer
  pub form_fingerprint : Option Text
  pub content_hash : ℕ
  pub approved_at : Option ℕ
  pub approved_hash : Option ℕ
  pub expires_at : Option ℕ
  pub created_at : ℕ

pub record PacketLiveState : Type 0 where
  pub profile_revision : ℕ
  pub job_revision : ℕ
  pub resume_sha256 : Option ℕ
  pub destination : PacketDestination

pub data ResumeMode : Type 0 where
  original tailored : ResumeMode

pub record ResumeFiles : Type 0 where
  pub mode : ResumeMode
  pub input_file_id : Option ℕ
  pub pdf_file_id : Option ℕ
  pub docx_file_id : Option ℕ

unfoldable pub attachment_file_id : ResumeFiles → Option ℕ
attachment_file_id resume = elim resume.mode [
  | original ↦ resume.input_file_id
  | tailored ↦ elim resume.pdf_file_id [ none ↦ resume.docx_file_id | some id ↦ some id ]
]

abbrev pub is_unresolved : PacketAnswer → Bool
is_unresolved a = a.required && not (is_some a.answer)

unfoldable pub unresolved_question_keys : List PacketAnswer → List Text
unresolved_question_keys [] = []
unresolved_question_keys (a ∷ rest) =
    let keys = unresolved_question_keys rest in
    if is_unresolved a then a.question_key ∷ keys else keys

pub data PacketStalenessReason : Type 0 where
  profile_revision_changed job_revision_changed resume_changed : PacketStalenessReason
  destination_changed form_schema_changed approval_expired : PacketStalenessReason

abbrev pub has_passed : Option ℕ → ℕ → Bool
has_passed none now = false
has_passed (some at) now = leb at now

abbrev pub reason_if : Bool → PacketStalenessReason → List PacketStalenessReason
reason_if b reason = if b then reason ∷ [] else []

unfoldable pub packet_staleness : PacketRow → PacketLiveState → ℕ → List PacketStalenessReason
packet_staleness packet live now =
    reason_if (not (live.profile_revision == packet.profile_revision)) profile_revision_changed
    ++ (reason_if (not (live.job_revision == packet.job_revision)) job_revision_changed
        ++ (reason_if (not (same_opt live.resume_sha256 packet.resume_sha256)) resume_changed
            ++ (reason_if
                  (not (text_eq live.destination.url packet.destination_url)
                    || not (text_eq live.destination.origin packet.destination_origin))
                  destination_changed
                ++ reason_if (has_passed packet.expires_at now) approval_expired)))

abbrev pub packet_approval_max_ttl_hours : ℕ
packet_approval_max_ttl_hours = 24

unfoldable pub approval_expiry : ℕ → ℕ → ℕ
approval_expiry approved_at configured_ttl_hours =
    approved_at + min (max configured_ttl_hours 1) packet_approval_max_ttl_hours * 60 * 60 * 1000

-- What `loadApplicationContexts` gives of an application: the live state is there just where the
-- packet is.
pub record ApplicationContext : Type 0 where
  pub application : ApplicationRow
  pub packet : Option (PacketRow × PacketLiveState)

pub data FillRefusal : Type 0 where
  unknown_outcome : FillRefusal
  not_approved_status : ApplicationStatus → FillRefusal
  not_approved_packet superseded : FillRefusal
  out_of_date : List PacketStalenessReason → FillRefusal
  unanswered : ℕ → FillRefusal

-- The checks from the staleness on.
unfoldable pub refuse_content : PacketRow → PacketLiveState → ℕ → Option FillRefusal
refuse_content packet live now =
    if not (length (packet_staleness packet live now) == 0)
    then some (out_of_date (packet_staleness packet live now))
    else if not (length (unresolved_question_keys packet.answers) == 0)
    then some (unanswered (length (unresolved_question_keys packet.answers)))
    else none

abbrev pub refuse_packet :
    ApplicationRow → Option (PacketRow × PacketLiveState) → ℕ → Option FillRefusal
refuse_packet application none now = some not_approved_packet
refuse_packet application (some (packet, live)) now =
    if not (is_some packet.approved_at)
    then some not_approved_packet
    else if not (same_opt application.current_packet_id (some packet.id))
    then some superseded
    else refuse_content packet live now

unfoldable pub fill_refusal : ApplicationContext → ℕ → Option FillRefusal
unfolding same_status
fill_refusal loaded now =
    if same_status loaded.application.status outcome_unknown
    then some unknown_outcome
    else if not (same_status loaded.application.status approved)
    then some (not_approved_status loaded.application.status)
    else refuse_packet loaded.application loaded.packet now

-- Only answered questions travel.
unfoldable pub fillable_fields : List PacketAnswer → List FillField
fillable_fields [] = []
fillable_fields (a ∷ rest) = elim a.answer [
  | none ↦ fillable_fields rest
  | some value ↦
      record {
        question_key = a.question_key;
        label = a.label;
        answer = value;
        required = a.required;
        sensitivity = a.sensitivity;
      }
      ∷ fillable_fields rest
]
