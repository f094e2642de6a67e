-- ===== src/Applications/Discover.antt =====
-- apps/api/src/applications/fill.ts and service.ts: the answers of a packet with the questions that a
-- fill discovered, and what the content hash of a packet is taken of.
use octopus_job_search.Base.{ℕ, Bool, true, false, ◌||◌, Option, none, some, List, [], ◌∷◌, map}
use octopus_job_search.Base.Tests.{if◌then◌else◌}
use octopus_job_search.Base.Lists.{find}
use octopus_job_search.Base.Text.{Text, text_eq, text_lt}
use octopus_job_search.Base.Sort.{sort}
use octopus_job_search.FillPlanner.Forms.{never_reuse, standard}
use octopus_job_search.FillPlanner.Plan.{
  AnswerValue, UnresolvedField, UnresolvedReason, never_inferable,
}
use octopus_job_search.Applications.Transition.{ApplicationRow}
use octopus_job_search.Applications.Packet.{
  PacketRow, PacketAnswer, PacketAnswerProvenance, user_entered, PacketDestination,
}

-- What the content hash of a packet is taken of.
pub record PacketHashMaterial : Type 0 where
  pub hash_version : ℕ
  pub profile_revision : ℕ
  pub job_id : ℕ
  pub job_revision : ℕ
  pub resume_id : ℕ
  pub resume_sha256 : Option ℕ
  pub destination : PacketDestination
  pub form_fingerprint : Option Text
  pub answers : List (Text × Option AnswerValue × PacketAnswerProvenance)

-- `Map.set`: a known key keeps its place.
unfoldable pub set_answer : PacketAnswer → List PacketAnswer → List PacketAnswer
set_answer a [] = a ∷ []
set_answer a (b ∷ bs) =
    let rest = set_answer a bs in if text_eq b.question_key a.question_key then a ∷ bs else b ∷ rest

abbrev pub get_answer : Text → List PacketAnswer → Option PacketAnswer
get_answer key = find (λ a. text_eq a.question_key key)

-- `new Map(existing.map(…))`, the later entries last.
unfoldable pub by_key_from : List PacketAnswer → List PacketAnswer → List PacketAnswer
unfolding set_answer
by_key_from by_key [] = by_key
by_key_from by_key (a ∷ as_given) = by_key_from (set_answer a by_key) as_given

abbrev is_never_inferable : UnresolvedReason → Bool
is_never_inferable never_inferable = true
is_never_inferable _ = false

-- The answer that a discovered field stands for.
abbrev pub merged_answer : UnresolvedField → Option PacketAnswer → PacketAnswer
merged_answer field (some current) = record current {
  required = current.required || field.required;
}
merged_answer field none = record {
  question_key = field.question_key;
  label = field.label;
  answer = none;
  required = field.required;
  sensitivity = if is_never_inferable field.reason then never_reuse else standard;
  provenance = user_entered;
  source_id = none;
}

unfoldable pub merge_fields : List PacketAnswer → List UnresolvedField → List PacketAnswer
unfolding set_answer
merge_fields by_key [] = by_key
merge_fields by_key (field ∷ fields) =
    merge_fields (set_answer (merged_answer field (get_answer field.question_key by_key)) by_key)
      fields

unfoldable pub merge_discovered_questions :
    List PacketAnswer → List UnresolvedField → List PacketAnswer
unfolding by_key_from merge_fields
merge_discovered_questions existing fields = merge_fields (by_key_from [] existing) fields

abbrev earlier_key : PacketAnswer → PacketAnswer → Bool
earlier_key a b = text_lt a.question_key b.question_key

abbrev hashed_answer : PacketAnswer → Text × Option AnswerValue × PacketAnswerProvenance
hashed_answer a = (a.question_key, a.answer, a.provenance)

unfoldable pub build_packet_hash_material :
    PacketRow → ApplicationRow → Option Text → List PacketAnswer → PacketHashMaterial
unfolding sort text_lt
build_packet_hash_material previous application form_fingerprint answers = record {
  hash_version = 1;
  profile_revision = previous.profile_revision;
  job_id = application.job_id;
  job_revision = previous.job_revision;
  resume_id = previous.resume_id;
  resume_sha256 = previous.resume_sha256;
  destination = record {
    url = previous.destination_url;
    origin = previous.destination_origin;
    connector = previous.connector;
    connector_version = previous.connector_version;
  };
  form_fingerprint = form_fingerprint;
  answers = map hashed_answer (sort earlier_key answers);
}
