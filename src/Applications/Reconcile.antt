-- ===== src/Applications/Reconcile.antt =====
-- `reconcileApplications` of apps/api/src/applications/service.ts: approvals that no longer describe
-- the world are withdrawn.
use octopus_job_search.Base.{
  ℕ, Bool, true, false, not, ◌&&◌, Option, none, some, List, [], ◌∷◌, map,
}
use octopus_job_search.Base.Tests.{◌==◌, if◌then◌else◌, is_some}
use octopus_job_search.Base.Lists.{length}
use octopus_job_search.Base.Text.{Text, codes, join}
use octopus_job_search.Applications.Status.{
  ApplicationStatus, same_status, approved, ready_for_review, preparing,
}
use octopus_job_search.Applications.Transition.{
  ApplicationRow, EventInput, Store, Outcome, done, refused, system, transition_application,
}
use octopus_job_search.Applications.Packet.{
  PacketRow, PacketStalenessReason, profile_revision_changed, job_revision_changed, resume_changed,
  destination_changed, form_schema_changed, approval_expired,
}

-- What the reconciliation reads of an ApplicationContext.
pub record LoadedApplication : Type 0 where
  pub application : ApplicationRow
  pub packet : Option PacketRow
  pub staleness : List PacketStalenessReason

-- The tables that it writes.
pub record World : Type 0 where
  pub store : Store
  pub packets : List PacketRow

unfoldable pub reason_name : PacketStalenessReason → Text
reason_name profile_revision_changed = codes "profile_revision_changed"
reason_name job_revision_changed = codes "job_revision_changed"
reason_name resume_changed = codes "resume_changed"
reason_name destination_changed = codes "destination_changed"
reason_name form_schema_changed = codes "form_schema_changed"
reason_name approval_expired = codes "approval_expired"

abbrev pub withdraw : PacketRow → PacketRow
withdraw packet = record packet { approved_at = none; approved_hash = none; expires_at = none }

unfoldable pub update_packet : ℕ → (PacketRow → PacketRow) → List PacketRow → List PacketRow
update_packet id f [] = []
update_packet id f (p ∷ ps) = (if p.id == id then f p else p) ∷ update_packet id f ps

abbrev is_expiry : PacketStalenessReason → Bool
is_expiry approval_expired = true
is_expiry _ = false

-- `expiredOnly`.
unfoldable pub expired_only : List PacketStalenessReason → Bool
expired_only [] = false
expired_only (r ∷ []) = is_expiry r
expired_only (r ∷ q ∷ rs) = false

unfoldable pub withdrawal_target : List PacketStalenessReason → ApplicationStatus
unfolding expired_only
withdrawal_target staleness = if expired_only staleness then ready_for_review else preparing

abbrev pub is_stale_approval : LoadedApplication → PacketRow → Bool
is_stale_approval loaded packet =
    is_some packet.approved_at
    && (not (length loaded.staleness == 0) && same_status loaded.application.status approved)

abbrev pub prepended :
    LoadedApplication → Outcome (List LoadedApplication) → Outcome (List LoadedApplication)
prepended first (refused c) = refused c
prepended first (done others) = done (first ∷ others)

-- `to_json` renders the event's data, the packet's id and the reasons.
module _ (to_json : ℕ → List PacketStalenessReason → Text) (now : ℕ) where
  abbrev pub withdrawal_event : PacketRow → List PacketStalenessReason → EventInput
  withdrawal_event packet staleness = record {
    type =
        if expired_only staleness then codes "approval_expired" else codes "approval_invalidated";
    actor = system;
    status_before = none;
    status_after = none;
    reason = some (join (codes ",") (map reason_name staleness));
    event_data = to_json packet.id staleness;
  }

  -- The transaction of one withdrawal.
  unfoldable pub withdraw_one :
      LoadedApplication → PacketRow → World → Outcome (LoadedApplication × World)
  withdraw_one loaded packet w =
      elim (transition_application now w.store loaded.application
        (withdrawal_target loaded.staleness ∷ []) (withdrawal_event packet loaded.staleness)
        (record { submitted_at = none; evidence = none; current_packet_id = none })) [
          | refused c ↦ refused c
          | done (updated, store) ↦ done (
            record loaded { application = updated; packet = some (withdraw packet) },
            record { store = store; packets = update_packet packet.id withdraw w.packets },
          )
        ]

  abbrev pub reconcile_packet :
      LoadedApplication → Option PacketRow → World → Outcome (LoadedApplication × World)
  reconcile_packet loaded none w = done (loaded, w)
  reconcile_packet loaded (some packet) w =
      if is_stale_approval loaded packet then withdraw_one loaded packet w else done (loaded, w)

  -- What the loop does after one application. Each withdrawal is a transaction of its own: a conflict
  -- ends the loop, and what was withdrawn before it stays so.
  abbrev pub after_first :
      World
      → Outcome (LoadedApplication × World)
      → (World → Outcome (List LoadedApplication) × World)
      → Outcome (List LoadedApplication) × World
  after_first w (refused c) rest = (refused c, w)
  after_first w (done (first, v)) rest = (prepended first (rest v).0, (rest v).1)

  -- `reconcileApplications`.
  unfoldable pub reconcile_applications :
      List LoadedApplication → World → Outcome (List LoadedApplication) × World
  unfolding withdraw_one
  reconcile_applications [] w = (done [], w)
  reconcile_applications (loaded ∷ rest) w =
      after_first w (reconcile_packet loaded loaded.packet w) (λ v. reconcile_applications rest v)
