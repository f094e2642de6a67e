-- ===== src/Applications/Observed.antt =====
-- What an observation may change: who gets recorded as submitted, and who does not.
use mathlib.Core.List.{Memᴰ}
use octopus_job_search.Base.{
  ℕ, ◌≡◌, refl, sym, ap, subst, ◌∙◌, Bool, true, false, some, List, [], ◌∷◌, arith, inl, inr, ◌⊎◌,
}
use octopus_job_search.Base.Tests.{◌==◌, Bool-cases, Option-cases, if◌then◌else◌}
use octopus_job_search.Base.Lists.{find-Memᴰ}
use octopus_job_search.Base.Text.{Text}
use octopus_job_search.Applications.Status.{
  ApplicationStatus, ApplicationStatus-discrete, same_status, awaiting_user_submit, outcome_unknown,
  submitted,
}
use octopus_job_search.Applications.Transition.{
  ApplicationRow, EventInput, TransitionOptions, Store, Outcome, done, refused, walk, patched,
  is_read_row, update_application, transition_application,
}
use octopus_job_search.Applications.History.{transition_parts, write_parts}
use octopus_job_search.Applications.Observe.{
  ObserveConfirmationResult, ObservedConfirmation, Render, observed, is_coherent,
  observed_confirmation, is_observable, load_application, stored_by, record_submitted,
  record_unknown, apply_observation, apply_observe_confirmation_failure, note_superseded,
}

-- A row of the table is the image of a row read.
abbrev pub IsWritten :
    ApplicationRow
    → (ApplicationRow → ApplicationRow)
    → List ApplicationRow
    → ApplicationRow
    → Type 0
IsWritten application f rs row =
    (old : ApplicationRow) × Memᴰ old rs × (is_read_row application old ≡ true) × (row ≡ f old)

older :
    (application : ApplicationRow) (f : ApplicationRow → ApplicationRow) {rs : List ApplicationRow}
    {row : ApplicationRow} (r : ApplicationRow)
    → Memᴰ row rs ⊎ IsWritten application f rs row
    → Memᴰ row (r ∷ rs) ⊎ IsWritten application f (r ∷ rs) row
older application f r (inl m) = inl (Memᴰ.tail m)
older application f r (inr (old, m, read, same)) = inr (old, Memᴰ.tail m, read, same)

head_row :
    (application : ApplicationRow) (f : ApplicationRow → ApplicationRow) (r : ApplicationRow)
    (rs rest : List ApplicationRow) {row : ApplicationRow} (b : Bool)
    → is_read_row application r ≡ b
    → (Memᴰ row rest → Memᴰ row rs ⊎ IsWritten application f rs row)
    → Memᴰ row ((if b then f r else r) ∷ rest)
    → Memᴰ row (r ∷ rs) ⊎ IsWritten application f (r ∷ rs) row
head_row application f r rs rest true read later (Memᴰ.head e) = inr (r, Memᴰ.head refl, read, e)
head_row application f r rs rest true read later (Memᴰ.tail m) = older application f r (later m)
head_row application f r rs rest false read later (Memᴰ.head e) = inl (Memᴰ.head e)
head_row application f r rs rest false read later (Memᴰ.tail m) = older application f r (later m)

-- A row after an update is an old one, or what the update made of a row read.
pub update_application-Memᴰ :
    (application : ApplicationRow) (f : ApplicationRow → ApplicationRow) (rs : List ApplicationRow)
    {row : ApplicationRow}
    → Memᴰ row (update_application application f rs)
    → Memᴰ row rs ⊎ IsWritten application f rs row
unfolding update_application
update_application-Memᴰ application f [] m = elim m [ ]
update_application-Memᴰ application f (r ∷ rs) m =
    head_row application f r rs (update_application application f rs) (is_read_row application r)
      refl (update_application-Memᴰ application f rs) m

stored_by-eq-done :
    (o : Outcome (ApplicationRow × Store)) {t : Store}
    → stored_by o ≡ done t
    → (row : ApplicationRow) × (o ≡ done (row, t))
stored_by-eq-done (done (row, u)) {t} e = let same : u ≡ t = cc in (row, rw same refl)
stored_by-eq-done (refused c) e = cc

walk-one : (from to cursor : ApplicationStatus) → walk from (to ∷ []) ≡ done cursor → cursor ≡ to
unfolding walk
walk-one from to cursor e = ground (arith, e)

-- The rows after a transition to one status.
pub transition_application-rows :
    (now : ℕ) (s : Store) (application : ApplicationRow) (target : ApplicationStatus)
    (event : EventInput) (options : TransitionOptions) {t : Store}
    → stored_by (transition_application now s application (target ∷ []) event options) ≡ done t
    → {row : ApplicationRow} → Memᴰ row t.applications
    → Memᴰ row s.applications
      ⊎ IsWritten application (patched now application target options) s.applications row
transition_application-rows now s application target event options {t} e {row} m =
    let (moved, done_) =
      stored_by-eq-done (transition_application now s application (target ∷ []) event options) e in
    let (cursor, walked, written) =
      transition_parts now s application (target ∷ []) event options done_ in
    let parts = write_parts now s application (target ∷ []) event options cursor written in
    let here = walk-one application.status target cursor walked in
    update_application-Memᴰ application (patched now application target options) s.applications (
      subst (λ l. Memᴰ row l)
        (parts.3
          ∙ ap
              (λ q.
                update_application application (patched now application q options) s.applications)
              here)
        m)

-- An application that was waiting and is now recorded as submitted, on a coherent observation.
pub record IsSubmitted (result : ObserveConfirmationResult) (row : ApplicationRow) : Type 0 where
  pub status : row.status ≡ submitted
  pub coherent : is_coherent result ≡ true
  pub outcome : result.outcome ≡ observed
  pub confirmation : ObservedConfirmation
  pub reported : result.confirmation ≡ some confirmation
  pub time : row.submitted_at ≡ some confirmation.observed_at

-- An application whose outcome nobody knows: no evidence and no time were added.
pub record IsUnknown (old row : ApplicationRow) : Type 0 where
  pub status : row.status ≡ outcome_unknown
  pub evidence : row.submission_evidence ≡ old.submission_evidence
  pub time : row.submitted_at ≡ old.submitted_at

observed_confirmation-eq-some :
    (result : ObserveConfirmationResult) {c : ObservedConfirmation}
    → observed_confirmation result ≡ some c
    → (is_coherent result ≡ true) × (result.outcome ≡ observed) × (result.confirmation ≡ some c)
unfolding observed_confirmation
observed_confirmation-eq-some result {c} e = ground arith

pub found-id :
    (id : ℕ) (rs : List ApplicationRow) {a : ApplicationRow}
    → load_application id rs ≡ some a
    → a.id ≡ id
found-id id rs {a} e = ground (arith, (find-Memᴰ (λ r. r.id == id) rs e).1)

done-injective : {s t : Store} → done s ≡ done t → s ≡ t
done-injective e = cc

is_observable_lem :
    (status : ApplicationStatus) → is_observable status ≡ true → status ≡ awaiting_user_submit
unfolding is_observable same_status ApplicationStatus-discrete
is_observable_lem status e = ground (arith, e)

read-id :
    (application old : ApplicationRow)
    → is_read_row application old ≡ true
    → old.id ≡ application.id
read-id application old e = ground (arith, e)

module _ (render : Render) (now : ℕ) (s : Store) where
  abbrev pub IsOutcome : ObserveConfirmationResult → ApplicationRow → ApplicationRow → Type 0
  IsOutcome result application row =
      (old : ApplicationRow) × Memᴰ old s.applications
      × (row.id ≡ application.id)
      × (application.status ≡ awaiting_user_submit)
      × (IsSubmitted result row ⊎ IsUnknown old row)

  -- After an observation every application is as it was, or it is the one observed, which was
  -- waiting for its user: then it is recorded as submitted, at the time that was observed, on a
  -- result that is coherent, observed and carries a confirmation, or its outcome is unknown and
  -- neither its evidence nor its time of submission has changed.
  pub apply_observation-IsOutcome :
      (application : ApplicationRow) (result : ObserveConfirmationResult) (extra : Text) {t : Store}
      → apply_observation render now s application result extra ≡ done t
      → {row : ApplicationRow} → Memᴰ row t.applications
      → Memᴰ row s.applications ⊎ IsOutcome result application row
  unfolding apply_observation note_superseded record_unknown record_submitted
  apply_observation-IsOutcome application result extra {t} e {row} m =
      elim (Bool-cases (is_observable application.status)) [
        | inl waiting ↦ elim (Option-cases (observed_confirmation result)) [
          | inl n ↦
              elim (transition_application-rows now s application outcome_unknown _ _
                (rw (waiting, n, apply_observation) at e) m) [
                  | inl before ↦ inl before
                  | inr (old, from, read, same) ↦ inr (
                    old,
                    from,
                    ap (λ q. q.id) same ∙ read-id application old read,
                    is_observable_lem application.status waiting,
                    inr (record {
                      status = ap (λ q. q.status) same;
                      evidence = ap (λ q. q.submission_evidence) same;
                      time = ap (λ q. q.submitted_at) same;
                    }),
                  )
                ]
          | inr (c, y) ↦
              let (coherent, outcome, reported) = observed_confirmation-eq-some result y in
              elim (transition_application-rows now s application submitted _ _
                (rw (waiting, y, apply_observation) at e) m) [
                  | inl before ↦ inl before
                  | inr (old, from, read, same) ↦ inr (
                    old,
                    from,
                    ap (λ q. q.id) same ∙ read-id application old read,
                    is_observable_lem application.status waiting,
                    inl (record {
                      status = ap (λ q. q.status) same;
                      coherent = coherent;
                      outcome = outcome;
                      confirmation = c;
                      reported = reported;
                      time = ap (λ q. q.submitted_at) same;
                    }),
                  )
                ]
        ]
        | inr late ↦
            let same = done-injective (rw (late, apply_observation) at e) in
            inl (subst (λ l. Memᴰ row l) (sym (ap (λ q. q.applications) same)) m)
      ]

  -- A failed observation records no submission: every application is as it was, or it is the one
  -- with the given id, its outcome is unknown, and neither its evidence nor its time of submission
  -- has changed.
  pub apply_observe_confirmation_failure-IsUnknown :
      (id packet_id : ℕ) (code message : Text) {t : Store}
      → apply_observe_confirmation_failure render now s id packet_id code message ≡ done t
      → {row : ApplicationRow} → Memᴰ row t.applications
      → Memᴰ row s.applications
        ⊎ ((old : ApplicationRow) × Memᴰ old s.applications × (row.id ≡ id) × IsUnknown old row)
  unfolding apply_observe_confirmation_failure note_superseded
  apply_observe_confirmation_failure-IsUnknown id packet_id code message {t} e {row} m =
      elim (Option-cases (load_application id s.applications)) [
        | inl gone ↦
            let same = done-injective (rw (gone, apply_observe_confirmation_failure) at e) in
            inl (subst (λ l. Memᴰ row l) (sym (ap (λ q. q.applications) same)) m)
        | inr (application, here) ↦ elim (Bool-cases (is_observable application.status)) [
          | inl waiting ↦
              elim (transition_application-rows now s application outcome_unknown _ _
                (rw (here, apply_observe_confirmation_failure, waiting) at e) m) [
                  | inl before ↦ inl before
                  | inr (old, from, read, same) ↦ inr (
                    old,
                    from,
                    ap (λ q. q.id) same
                        ∙ (read-id application old read ∙ found-id id s.applications here),
                    record {
                      status = ap (λ q. q.status) same;
                      evidence = ap (λ q. q.submission_evidence) same;
                      time = ap (λ q. q.submitted_at) same;
                    },
                  )
                ]
          | inr late ↦
              let same =
                done-injective (rw (here, apply_observe_confirmation_failure, late) at e) in
              inl (subst (λ l. Memᴰ row l) (sym (ap (λ q. q.applications) same)) m)
        ]
      ]
