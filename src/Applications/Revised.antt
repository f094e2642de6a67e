-- ===== src/Applications/Revised.antt =====
-- The packet that `writeDiscoveredPacket` of apps/api/src/applications/fill.ts leaves, and reports that
-- come too late.
use octopus_job_search.Base.{
  ℕ, ◌+◌, ◌≡◌, refl, sym, subst, true, false, ◌&&◌, none, some, List, [], ◌∷◌, ◌++◌, inl, inr,
}
use octopus_job_search.Base.Tests.{◌==◌, Bool-cases, Option-cases, is_some, same_opt}
use octopus_job_search.Base.Lists.{find, All, length}
use octopus_job_search.Applications.Transition.{ApplicationRow}
use octopus_job_search.Applications.Packet.{PacketRow, unresolved_question_keys}
use octopus_job_search.Applications.Reconcile.{withdraw, update_packet}
use octopus_job_search.Applications.Discover.{
  merge_discovered_questions, build_packet_hash_material,
}
use octopus_job_search.Applications.Fill.{
  FillLocalResult, Codec, write_discovered_packet, discovered_packet,
}

-- No packet with the id is approved.
abbrev pub NoApproval : ℕ → List PacketRow → Type 0
NoApproval id = All (λ (p : PacketRow). (p.id == id && is_some p.approved_at) ≡ false)

pub withdrawn-NoApproval :
    (id : ℕ) (packets : List PacketRow) → NoApproval id (update_packet id withdraw packets)
unfolding update_packet
withdrawn-NoApproval id [] = tt
withdrawn-NoApproval id (p ∷ ps) = (
  elim (Bool-cases (p.id == id)) [ inl t ↦ rw (t, t) refl | inr f ↦ rw (f, f) refl ],
  withdrawn-NoApproval id ps,
)

-- The packets after a discovery.
pub record IsRevised (id new_id packet_id : ℕ) (packets written : List PacketRow) : Type 0 where
  pub previous : PacketRow
  pub packet : PacketRow
  pub found : find (λ (p : PacketRow). p.id == packet_id) packets ≡ some previous
  pub rows : written ≡ update_packet previous.id withdraw (packets ++ (packet ∷ []))
  pub number : packet.id ≡ new_id
  pub of : packet.application_id ≡ id
  pub revision : packet.revision ≡ previous.revision + 1
  pub approval : packet.approved_at ≡ none
  pub hash : packet.approved_hash ≡ none
  pub open_question : (length (unresolved_question_keys packet.answers) == 0) ≡ false
  pub superseded : NoApproval previous.id written

none-ne : {A : Type 0} {a : A} → none ≡ some a → ⊥
none-ne e = cc

some-injective : {A : Type 0} {a b : A} → some a ≡ some b → a ≡ b
some-injective e = cc

module _ (codec : Codec) (now new_id : ℕ) where
  -- A discovery writes only where the packet that was filled is still the current one. What it writes
  -- is one revision more of that packet, not approved, with a required question open, and no packet
  -- with the old id stays approved.
  pub write_discovered_packet-IsRevised :
      (application : ApplicationRow) (packet_id : ℕ) (result : FillLocalResult)
      (packets : List PacketRow) {written : List PacketRow}
      → write_discovered_packet codec now new_id application packet_id result packets ≡ some written
      → (same_opt application.current_packet_id (some packet_id) ≡ true)
        × IsRevised application.id new_id packet_id packets written
  unfolding write_discovered_packet
  write_discovered_packet-IsRevised application packet_id result packets {written} e =
      elim (Bool-cases (same_opt application.current_packet_id (some packet_id))) [
        | inr f ↦ absurd (none-ne (rw (f, write_discovered_packet) at e))
        | inl current ↦ elim (Option-cases (find (λ (p : PacketRow). p.id == packet_id) packets)) [
          | inl gone ↦ absurd (none-ne (rw (current, gone, write_discovered_packet) at e))
          | inr (previous, here) ↦
              let answers = merge_discovered_questions previous.answers result.unresolved_fields in
              elim (Bool-cases (length (unresolved_question_keys answers) == 0)) [
                | inl full ↦
                    absurd (none-ne (rw (current, here, full, write_discovered_packet) at e))
                | inr asks ↦
                    let rows =
                      some-injective (rw (current, here, asks, write_discovered_packet) at e) in
                    (
                      current,
                      record {
                        previous = previous;
                        packet =
                            discovered_packet now new_id previous application
                              result.form_fingerprint answers
                              (codec.content_hash (
                                build_packet_hash_material previous application
                                  result.form_fingerprint answers));
                        found = here;
                        rows = sym rows;
                        number = refl;
                        of = refl;
                        revision = refl;
                        approval = refl;
                        hash = refl;
                        open_question = asks;
                        superseded =
                            subst (NoApproval previous.id) rows
                              (withdrawn-NoApproval previous.id _);
                      },
                    )
              ]
        ]
      ]
