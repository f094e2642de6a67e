-- ===== src/Applications/Withdrawn.antt =====
-- What `reconcileApplications` of apps/api/src/applications/service.ts leaves of the approvals.
use mathlib.Core.List.{Memᴰ}
use octopus_job_search.Base.{false, ℕ, ◌≡◌, true, none, some, List, [], ◌∷◌, ◌⊎◌}
use octopus_job_search.Base.Tests.{◌==◌}
use octopus_job_search.Base.Lists.{All}
use octopus_job_search.Base.Text.{Text}
use octopus_job_search.Applications.Transition.{ApplicationRow}
use octopus_job_search.Applications.Packet.{PacketRow}
use octopus_job_search.Applications.Reconcile.{
  LoadedApplication, World, withdraw, withdrawal_target, is_stale_approval,
}
use octopus_job_search.Applications.Revised.{NoApproval}

-- The approval of a packet that is stale is gone, the application is back in review where only the
-- time ran out and in preparation otherwise, in what is returned as in the tables; anything else is as
-- it was.
abbrev pub IsReconciled : World → LoadedApplication → LoadedApplication → Type 0
IsReconciled v before after =
    ((after ≡ before)
      × ((before.packet ≡ none)
          ⊎ ((p : PacketRow) × (before.packet ≡ some p) × (is_stale_approval before p ≡ false))))
    ⊎ ((p : PacketRow) × (before.packet ≡ some p)
        × (is_stale_approval before p ≡ true)
        × (after.packet ≡ some (withdraw p))
        × (after.application.status ≡ withdrawal_target before.staleness)
        × (after.staleness ≡ before.staleness)
        × NoApproval p.id v.packets
        × (after.application.id ≡ before.application.id)
        × Memᴰ after.application v.store.applications)

-- Entry by entry.
abbrev pub AllReconciled : World → List LoadedApplication → List LoadedApplication → Type 0
AllReconciled v [] [] = Unit {0}
AllReconciled v [] (a ∷ after) = ⊥
AllReconciled v (b ∷ before) [] = ⊥
AllReconciled v (b ∷ before) (a ∷ after) = IsReconciled v b a × AllReconciled v before after

-- No two entries are of one application.
abbrev pub AreApart : List LoadedApplication → Type 0
AreApart [] = Unit {0}
AreApart (b ∷ rest) =
    All (λ (l : LoadedApplication). (b.application.id == l.application.id) ≡ false) rest
    × AreApart rest

-- A later withdrawal approves nothing, and leaves the rows of other applications.
abbrev Keeps : ℕ → World → World → Type 0
Keeps id w v =
    ((packet_id : ℕ) → NoApproval packet_id w.packets → NoApproval packet_id v.packets)
    × ((q : ApplicationRow)
        → (q.id == id) ≡ false
        → Memᴰ q w.store.applications
        → Memᴰ q v.store.applications)
