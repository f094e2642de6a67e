-- ===== src/Applications/Paused.antt =====
-- What the report of a fill may change, in apps/api/src/applications/fill.ts.
use mathlib.Core.List.{Memᴰ}
use octopus_job_search.Base.{
  ℕ, ◌≡◌, refl, sym, ap, subst, ◌∙◌, Bool, true, false, Option, none, some, List, [], ◌∷◌, arith,
  inl, inr, ◌⊎◌,
}
use octopus_job_search.Base.Tests.{◌==◌, Bool-cases, Option-cases, if◌then◌else◌}
use octopus_job_search.Base.Text.{Text}
use octopus_job_search.Applications.Status
use octopus_job_search.Applications.Status.{ApplicationStatus}
use octopus_job_search.Applications.Transition.{
  ApplicationRow, EventInput, Store, Outcome, done, refused, transition_application,
}
use octopus_job_search.Applications.Packet.{PacketRow}
use octopus_job_search.Applications.Reconcile.{World}
use octopus_job_search.Applications.Observe.{load_application, no_options, stored_by}
use octopus_job_search.Applications.Observed.{transition_application-rows}
use octopus_job_search.Extension.Session.{
  FillOutcome, awaiting_user_submit, needs_input, unsupported,
}
use octopus_job_search.Applications.Fill.{
  FillLocalResult, Codec, pause_status, observe_form, record_form, write_discovered_packet,
  pause_event, with_packets, pause_for_input, apply_fill_local_result, is_needs_input,
}

-- The same application, with the same record of a submission.
pub record IsSameRecord (old row : ApplicationRow) : Type 0 where
  pub id : row.id ≡ old.id
  pub evidence : row.submission_evidence ≡ old.submission_evidence
  pub time : row.submitted_at ≡ old.submitted_at

abbrev HasOrigin : List ApplicationRow → ApplicationRow → Type 0
HasOrigin rs row =
    (old : ApplicationRow) × Memᴰ old rs × IsSameRecord old row × (row.status ≡ old.status)

abbrev seen : ℕ → Option Text → ApplicationRow → ApplicationRow
seen now fingerprint r = record r {
  observed_form_fingerprint = fingerprint;
  form_observed_at = some now;
}

from_head :
    (now : ℕ) (fingerprint : Option Text) (r : ApplicationRow) (rs rest : List ApplicationRow)
    {row : ApplicationRow} (b : Bool)
    → (Memᴰ row rest → HasOrigin rs row)
    → Memᴰ row ((if b then seen now fingerprint r else r) ∷ rest)
    → HasOrigin (r ∷ rs) row
from_head now fingerprint r rs rest true later (Memᴰ.head e) = (
  r,
  Memᴰ.head refl,
  record {
    id = ap (λ q. q.id) e;
    evidence = ap (λ q. q.submission_evidence) e;
    time = ap (λ q. q.submitted_at) e;
  },
  ap (λ q. q.status) e,
)
from_head now fingerprint r rs rest false later (Memᴰ.head e) = (
  r,
  Memᴰ.head refl,
  record {
    id = ap (λ q. q.id) e;
    evidence = ap (λ q. q.submission_evidence) e;
    time = ap (λ q. q.submitted_at) e;
  },
  ap (λ q. q.status) e,
)
from_head now fingerprint r rs rest true later (Memᴰ.tail n) =
    let (old, from, same, status) = later n in (old, Memᴰ.tail from, same, status)
from_head now fingerprint r rs rest false later (Memᴰ.tail n) =
    let (old, from, same, status) = later n in (old, Memᴰ.tail from, same, status)

observe_form-Memᴰ :
    (now id : ℕ) (fingerprint : Option Text) (rs : List ApplicationRow) {row : ApplicationRow}
    → Memᴰ row (observe_form now id fingerprint rs)
    → HasOrigin rs row
unfolding observe_form
observe_form-Memᴰ now id fingerprint [] m = elim m [ ]
observe_form-Memᴰ now id fingerprint (r ∷ rs) m =
    from_head now fingerprint r rs (observe_form now id fingerprint rs) (r.id == id)
      (observe_form-Memᴰ now id fingerprint rs) m

record_form-Memᴰ :
    (now id : ℕ) (fingerprint : Option Text) (s : Store) {row : ApplicationRow}
    → Memᴰ row (record_form now id fingerprint s).applications
    → HasOrigin s.applications row
unfolding record_form
record_form-Memᴰ now id none s {row} m =
    (row, m, record { id = refl; evidence = refl; time = refl }, refl)
record_form-Memᴰ now id (some fingerprint) s m =
    observe_form-Memᴰ now id (some fingerprint) s.applications m

-- The one status that a report may move an application to.
abbrev pub Pauses : FillOutcome → ApplicationStatus → Type 0
Pauses awaiting_user_submit status = status ≡ Status.awaiting_user_submit
Pauses needs_input status = status ≡ Status.needs_input
Pauses unsupported status = status ≡ Status.approved

pause_status-Pauses : (o : FillOutcome) → Pauses o (pause_status o)
unfolding pause_status
pause_status-Pauses awaiting_user_submit = refl
pause_status-Pauses needs_input = refl
pause_status-Pauses unsupported = refl

-- What a fill may have made of an application: only its status has moved, to where the outcome says.
abbrev pub IsPaused : List ApplicationRow → FillLocalResult → ApplicationRow → Type 0
IsPaused rs result row =
    (old : ApplicationRow) × Memᴰ old rs
    × IsSameRecord old row
    × ((row.status ≡ old.status) ⊎ Pauses result.outcome row.status)

with_packets-eq-done :
    (packets : List PacketRow) (o : Outcome Store) {v : World}
    → with_packets packets o ≡ done v
    → (o ≡ done v.store) × (v.packets ≡ packets)
with_packets-eq-done packets (refused c) e = cc
with_packets-eq-done packets (done store) {v} e =
    let same : record { store = store; packets = packets } ≡ v = cc in
    (ap (λ q. done q.store) same, sym (ap (λ q. q.packets) same))

world-injective : {w v : World} → done w ≡ done v → w ≡ v
world-injective e = cc

pub status_of : (o : FillOutcome) → is_needs_input o ≡ true → pause_status o ≡ Status.needs_input
unfolding pause_status
status_of o t = ground (arith, t)

module _ (codec : Codec) (now new_id : ℕ) where
  -- A transition to one status that leaves the record of a submission, after the form was recorded.
  paused-rows :
      (s : Store) (id : ℕ) (fingerprint : Option Text) (application : ApplicationRow)
      (target : ApplicationStatus) (event : EventInput) (packet : Option (Option ℕ)) {t : Store}
      → stored_by (
          transition_application now
            (record_form now id fingerprint s)
            application
            (target ∷ [])
            event
            (record no_options { current_packet_id = packet }))
        ≡ done t
      → {row : ApplicationRow} → Memᴰ row t.applications
      → (old : ApplicationRow) × Memᴰ old s.applications
        × IsSameRecord old row
        × ((row.status ≡ old.status) ⊎ (row.status ≡ target))
  paused-rows s id fingerprint application target event packet e {row} m =
      elim (transition_application-rows now (record_form now id fingerprint s) application target
        event _ e m) [
          | inl before ↦
              let (old, from, same, status) = record_form-Memᴰ now id fingerprint s before in
              (old, from, same, inl status)
          | inr (mid, within, read, made) ↦
              let (old, from, same, status) = record_form-Memᴰ now id fingerprint s within in
              (
                old,
                from,
                record {
                  id = ap (λ q. q.id) made ∙ same.id;
                  evidence = ap (λ q. q.submission_evidence) made ∙ same.evidence;
                  time = ap (λ q. q.submitted_at) made ∙ same.time;
                },
                inr (ap (λ q. q.status) made),
              )
        ]

  pause_for_input-rows :
      (s : Store) (id : ℕ) (packets : List PacketRow) (application : ApplicationRow) (packet_id : ℕ)
      (result : FillLocalResult) {v : World}
      → pause_for_input codec now new_id
          (record_form now id result.form_fingerprint s)
          packets
          application
          packet_id
          result
        ≡ done v
      → {row : ApplicationRow} → Memᴰ row v.store.applications
      → (old : ApplicationRow) × Memᴰ old s.applications
        × IsSameRecord old row
        × ((row.status ≡ old.status) ⊎ (row.status ≡ Status.needs_input))
  unfolding pause_for_input
  pause_for_input-rows s id packets application packet_id result {v} e {row} m =
      elim (Option-cases
        (write_discovered_packet codec now new_id application packet_id result packets)) [
          | inl n ↦
              let (moved, kept) = with_packets-eq-done packets _ (rw (n, pause_for_input) at e) in
              paused-rows s id result.form_fingerprint _ Status.needs_input _ none moved m
          | inr (written, y) ↦
              let (moved, kept) = with_packets-eq-done written _ (rw (y, pause_for_input) at e) in
              paused-rows s id result.form_fingerprint _ Status.needs_input _ (some (some new_id))
                moved m
        ]

  -- The two endings, by the outcome.
  by_outcome :
      (w : World) (application : ApplicationRow) (packet_id : ℕ) (result : FillLocalResult)
      {v : World}
      → (if is_needs_input result.outcome
          then pause_for_input codec now new_id
              (record_form now application.id result.form_fingerprint w.store)
              w.packets
              application
              packet_id
              result
          else with_packets w.packets (
              stored_by (
                transition_application now
                  (record_form now application.id result.form_fingerprint w.store)
                  application
                  (pause_status result.outcome ∷ [])
                  (pause_event codec now new_id result result.packet_id)
                  no_options)))
        ≡ done v
      → {row : ApplicationRow} → Memᴰ row v.store.applications
      → IsPaused w.store.applications result row
  by_outcome w application packet_id result {v} e {row} m =
      elim (Bool-cases (is_needs_input result.outcome)) [
        | inl t ↦
            let (old, from, same, status) =
              pause_for_input-rows w.store application.id w.packets application packet_id result
                (rw t at e) m in
            (
              old,
              from,
              same,
              moved_to old (
                  subst (λ q. (row.status ≡ old.status) ⊎ (row.status ≡ q))
                    (sym (status_of result.outcome t)) status),
            )
        | inr f ↦
            let (moved, kept) = with_packets-eq-done w.packets _ (rw f at e) in
            let (old, from, same, status) =
              paused-rows w.store application.id result.form_fingerprint application
                (pause_status result.outcome) _ none moved m in
            (old, from, same, moved_to old status)
      ]
    where
      moved_to :
          (old : ApplicationRow)
          → (row.status ≡ old.status) ⊎ (row.status ≡ pause_status result.outcome)
          → (row.status ≡ old.status) ⊎ Pauses result.outcome row.status
      moved_to old (inl kept) = inl kept
      moved_to old (inr there) =
          inr (subst (Pauses result.outcome) (sym there) (pause_status-Pauses result.outcome))

  -- After the report of a fill every application has the id, the evidence and the time of submission
  -- of one that was there before, and its status, or the one that the outcome of the report says: it
  -- waits for its user's submission where the form was filled, for answers where some are missing,
  -- and is approved where the form is not supported.
  pub apply_fill_local_result-IsPaused :
      (w : World) (id packet_id : ℕ) (result : FillLocalResult) {v : World}
      → apply_fill_local_result codec now new_id w id packet_id result ≡ done v
      → {row : ApplicationRow} → Memᴰ row v.store.applications
      → IsPaused w.store.applications result row
  unfolding apply_fill_local_result pause_status
  apply_fill_local_result-IsPaused w id packet_id result {v} e {row} m =
      elim (Option-cases (load_application id w.store.applications)) [
        | inl gone ↦
            let same = world-injective (rw (gone, apply_fill_local_result) at e) in
            (
              row,
              subst (λ q. Memᴰ row q.store.applications) (sym same) m,
              record { id = refl; evidence = refl; time = refl },
              inl refl,
            )
        | inr (application, here) ↦
            by_outcome w application packet_id result (rw (here, apply_fill_local_result) at e) m
      ]
