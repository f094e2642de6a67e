-- ===== src/Applications/Ready.antt =====
-- When a packet may be filled: `fillRefusal` of apps/api/src/applications/fillable.ts.
use octopus_job_search.Base.{
  ℕ, max, ◌+◌, ◌*◌, ◌≤◌, ◌≡◌, refl, ap, inl, inr, true, false, Option, none, some, List, [], ◌∷◌,
  arith,
}
use octopus_job_search.Base.Tests.{◌==◌, ==_iff, is_some, same_opt, Bool-cases, Option-cases}
use octopus_job_search.Base.Lists.{length, All}
use octopus_job_search.Base.Text.{text_eq_iff}
use octopus_job_search.Applications.Status.{same_status, approved}
use octopus_job_search.Applications.Review.{same_status-≡}
use octopus_job_search.Applications.Packet.{
  PacketRow, PacketLiveState, PacketAnswer, ApplicationContext, is_unresolved,
  unresolved_question_keys, has_passed, packet_staleness, refuse_content, fill_refusal,
  approval_expiry,
}

-- The packet is what it was when it was approved, and the approval still holds.
pub record IsCurrent (packet : PacketRow) (live : PacketLiveState) (now : ℕ) : Type 0 where
  pub same_profile : live.profile_revision ≡ packet.profile_revision
  pub same_job : live.job_revision ≡ packet.job_revision
  pub same_resume : live.resume_sha256 ≡ packet.resume_sha256
  pub same_url : live.destination.url ≡ packet.destination_url
  pub same_origin : live.destination.origin ≡ packet.destination_origin
  pub holds : has_passed packet.expires_at now ≡ false

-- The application is approved, with this very packet; the packet is current, and no required question
-- is without an answer.
abbrev pub IsFillable : ApplicationContext → ℕ → Type 0
IsFillable loaded now =
    (loaded.application.status ≡ approved)
    × ((packet : PacketRow) × (live : PacketLiveState) × (loaded.packet ≡ some (packet, live))
        × (is_some packet.approved_at ≡ true)
        × (loaded.application.current_packet_id ≡ some packet.id)
        × IsCurrent packet live now
        × All (λ a. is_unresolved a ≡ false) packet.answers)

same_opt-≡ : (a b : Option ℕ) → same_opt a b ≡ true → a ≡ b
same_opt-≡ none none h = refl
same_opt-≡ none (some b) h = cc
same_opt-≡ (some a) none h = cc
same_opt-≡ (some a) (some b) h = ap some ((==_iff a b).0 h)

unresolved_question_keys-All :
    (answers : List PacketAnswer)
    → (length (unresolved_question_keys answers) == 0) ≡ true
    → All (λ a. is_unresolved a ≡ false) answers
unfolding unresolved_question_keys
unresolved_question_keys-All [] h = tt
unresolved_question_keys-All (a ∷ rest) h = elim (Bool-cases (is_unresolved a)) [
  | inl t ↦ ground (arith, t, h)
  | inr f ↦ (f, unresolved_question_keys-All rest (ground (arith, f, h)))
]

staleness-IsCurrent :
    (packet : PacketRow) (live : PacketLiveState) (now : ℕ)
    → (length (packet_staleness packet live now) == 0) ≡ true
    → IsCurrent packet live now
unfolding packet_staleness
staleness-IsCurrent packet live now h = record {
  same_profile = ground (arith, h);
  same_job = ground (arith, h);
  same_resume = same_opt-≡ live.resume_sha256 packet.resume_sha256 (ground (arith, h));
  same_url = (text_eq_iff live.destination.url packet.destination_url).0 (ground (arith, h));
  same_origin =
      (text_eq_iff live.destination.origin packet.destination_origin).0 (ground (arith, h));
  holds = ground (arith, h);
}

refuse_content-parts :
    (packet : PacketRow) (live : PacketLiveState) (now : ℕ)
    → refuse_content packet live now ≡ none
    → IsCurrent packet live now × All (λ a. is_unresolved a ≡ false) packet.answers
unfolding refuse_content
refuse_content-parts packet live now h = (
  staleness-IsCurrent packet live now (ground (arith, h)),
  unresolved_question_keys-All packet.answers (ground (arith, h)),
)

-- Where nothing speaks against filling an application, it is approved, its packet is approved and the
-- current one, the packet's profile, job, CV and destination are those of now, its approval has not
-- run out, and every required question has an answer.
pub fill_refusal-IsFillable :
    (loaded : ApplicationContext) (now : ℕ) → fill_refusal loaded now ≡ none → IsFillable loaded now
unfolding fill_refusal
fill_refusal-IsFillable loaded now h = elim (Option-cases loaded.packet) [
  | inl e ↦ ground (arith, h, e)
  | inr ((packet, live), e) ↦
      let content : refuse_content packet live now ≡ none = ground (arith, h, e) in
      let parts = refuse_content-parts packet live now content in
      let status : same_status loaded.application.status approved ≡ true = ground (arith, h) in
      let current : same_opt loaded.application.current_packet_id (some packet.id) ≡ true =
        ground (arith, h, e) in
      (
        same_status-≡ loaded.application.status approved status,
        (
          packet,
          live,
          e,
          ground (arith, h, e),
          same_opt-≡ loaded.application.current_packet_id (some packet.id) current,
          parts.0,
          parts.1,
        ),
      )
]

-- An approval holds for an hour at least and 24 at most, and for no longer than the configured time,
-- of which less than an hour counts as one.
pub approval_expiry_bounds :
    (approved_at configured_ttl_hours : ℕ)
    → (approved_at + 3600000 ≤ approval_expiry approved_at configured_ttl_hours)
      × (approval_expiry approved_at configured_ttl_hours ≤ approved_at + 86400000)
      × (approval_expiry approved_at configured_ttl_hours
          ≤ approved_at + max configured_ttl_hours 1 * 3600000)
unfolding approval_expiry
approval_expiry_bounds approved_at configured_ttl_hours = (omega arith, omega arith, omega arith)
