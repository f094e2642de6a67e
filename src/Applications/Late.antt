-- ===== src/Applications/Late.antt =====
-- Reports of a fill that come after the application was cancelled, apps/api/src/applications/fill.ts.
use octopus_job_search.Base.{
  ℕ, ◌≡◌, refl, sym, ap, subst, ◌∙◌, Bool, true, false, Option, none, some, List, [], ◌∷◌, ◌++◌,
  inl, inr,
}
use octopus_job_search.Base.Tests.{◌==◌, Bool-cases, Option-cases, if◌then◌else◌, or_else}
use octopus_job_search.Base.Text.{Text}
use octopus_job_search.Extension.Session.{FillOutcome}
use octopus_job_search.Applications.Status
use octopus_job_search.Applications.Status.{
  ApplicationStatus, ApplicationStatus-discrete, same_status, application_transitions, is_allowed,
  cancelled,
}
use octopus_job_search.Applications.Transition.{
  ApplicationRow, ApplicationEvent, EventInput, TransitionOptions, Store, done, refused,
  cannot_move, walk, transition_application, append_application_event,
}
use octopus_job_search.Applications.Packet.{PacketRow}
use octopus_job_search.Applications.Reconcile.{World}
use octopus_job_search.Applications.Observe.{load_application, stored_by, no_options}
use octopus_job_search.Applications.Paused.{status_of}
use octopus_job_search.Applications.Observed.{found-id}
use octopus_job_search.Applications.Fill.{
  FillLocalResult, Codec, observe_form, record_form, write_discovered_packet, with_packets,
  pause_for_input, apply_fill_local_result, apply_fill_local_failure, is_needs_input, pause_status,
  pause_event,
}

abbrev opt_status : Option ApplicationRow → Option ApplicationStatus
opt_status none = none
opt_status (some a) = some a.status

abbrev status_at : ℕ → List ApplicationRow → Option ApplicationStatus
status_at id rs = opt_status (load_application id rs)

status_cons :
    (at : ℕ) (q r : ApplicationRow) (xs ys : List ApplicationRow)
    → q.id ≡ r.id
    → q.status ≡ r.status
    → status_at at xs ≡ status_at at ys
    → status_at at (q ∷ xs) ≡ status_at at (r ∷ ys)
status_cons at q r xs ys h k e =
    subst
      (λ b.
        opt_status (if b then some q else load_application at xs)
        ≡ opt_status (if r.id == at then some r else load_application at ys))
      (sym (ap (λ n. n == at) h)) (branch (r.id == at))
  where
    branch :
        (b : Bool)
        → opt_status (if b then some q else load_application at xs)
          ≡ opt_status (if b then some r else load_application at ys)
    branch true = ap some k
    branch false = e

abbrev seen : ℕ → Option Text → ApplicationRow → ApplicationRow
seen now fingerprint r = record r {
  observed_form_fingerprint = fingerprint;
  form_observed_at = some now;
}

seen_same :
    (now : ℕ) (fingerprint : Option Text) (r : ApplicationRow) (b : Bool)
    → ((if b then seen now fingerprint r else r).id ≡ r.id)
      × ((if b then seen now fingerprint r else r).status ≡ r.status)
seen_same now fingerprint r true = (refl, refl)
seen_same now fingerprint r false = (refl, refl)

status_at-observe_form :
    (now id at : ℕ) (fingerprint : Option Text) (rs : List ApplicationRow)
    → status_at at (observe_form now id fingerprint rs) ≡ status_at at rs
unfolding observe_form
status_at-observe_form now id at fingerprint [] = refl
status_at-observe_form now id at fingerprint (r ∷ rs) =
    let same = seen_same now fingerprint r (r.id == id) in
    status_cons at _ r _ rs same.0 same.1 (status_at-observe_form now id at fingerprint rs)

status_at-record_form :
    (now id at : ℕ) (fingerprint : Option Text) (s : Store)
    → status_at at (record_form now id fingerprint s).applications ≡ status_at at s.applications
unfolding record_form
status_at-record_form now id at none s = refl
status_at-record_form now id at (some fingerprint) s =
    status_at-observe_form now id at (some fingerprint) s.applications

cancelled-stays :
    (now : ℕ) (s : Store) (application : ApplicationRow) (o : FillOutcome) (event : EventInput)
    (options : TransitionOptions)
    → application.status ≡ cancelled
    → transition_application now s application (pause_status o ∷ []) event options
      ≡ refused (cannot_move cancelled (pause_status o))
unfolding transition_application walk is_allowed same_status ApplicationStatus-discrete
    application_transitions pause_status
cancelled-stays now s application FillOutcome.awaiting_user_submit event options h = rw h refl
cancelled-stays now s application FillOutcome.needs_input event options h = rw h refl
cancelled-stays now s application FillOutcome.unsupported event options h = rw h refl

-- What is read again has the status that was read first.
refreshed_status :
    (read : Option ApplicationRow) (application : ApplicationRow)
    → opt_status read ≡ some application.status
    → (or_else read application).status ≡ application.status
refreshed_status none application e = refl
refreshed_status (some a) application e = cc

not_filling :
    (status : ApplicationStatus) → status ≡ cancelled → same_status status Status.filling ≡ false
unfolding same_status ApplicationStatus-discrete
not_filling status h = rw h refl

module _ (codec : Codec) (now new_id : ℕ) where
  refused_for_input :
      (s : Store) (packets : List PacketRow) (application : ApplicationRow) (packet_id : ℕ)
      (result : FillLocalResult)
      → (or_else (load_application application.id s.applications) application).status ≡ cancelled
      → pause_for_input codec now new_id s packets application packet_id result
        ≡ refused (cannot_move cancelled Status.needs_input)
  unfolding pause_for_input pause_status
  refused_for_input s packets application packet_id result h =
      elim (Option-cases
        (write_discovered_packet codec now new_id application packet_id result packets)) [
          | inl n ↦
              rw (n, pause_for_input)
                (ap (λ o. with_packets packets (stored_by o))
                  (cancelled-stays now s _ FillOutcome.needs_input _ _ h))
          | inr (written, y) ↦
              rw (y, pause_for_input)
                (ap (λ o. with_packets written (stored_by o))
                  (cancelled-stays now s _ FillOutcome.needs_input _ _ h))
        ]

  refused_result :
      (w : World) (application : ApplicationRow) (packet_id : ℕ) (result : FillLocalResult) (id : ℕ)
      → application.status ≡ cancelled
      → load_application id w.store.applications ≡ some application
      → (if is_needs_input result.outcome
          then pause_for_input codec now new_id
              (record_form now application.id result.form_fingerprint w.store)
              w.packets
              application
              packet_id
              result
          else with_packets w.packets (
              stored_by (
                transition_application now
                  (record_form now application.id result.form_fingerprint w.store)
                  application
                  (pause_status result.outcome ∷ [])
                  (pause_event codec now new_id result result.packet_id)
                  no_options)))
        ≡ refused (cannot_move cancelled (pause_status result.outcome))
  refused_result w application packet_id result id h here =
      elim (Bool-cases (is_needs_input result.outcome)) [
        | inl t ↦
            rw (t, status_of result.outcome t)
              (refused_for_input _ w.packets application packet_id result (
                refreshed_status
                  (load_application application.id
                    (record_form now application.id result.form_fingerprint w.store).applications)
                  application
                  (status_at-record_form now application.id application.id result.form_fingerprint
                      w.store
                    ∙ subst (λ i. status_at i w.store.applications ≡ some application.status)
                        (sym (found-id id w.store.applications here)) (ap opt_status here))
                ∙ h))
        | inr f ↦ rw f (
            ap (λ o. with_packets w.packets (stored_by o))
              (cancelled-stays now _ application result.outcome _ _ h))
      ]

  -- A report of a fill for an application that was cancelled meanwhile is refused with a conflict,
  -- whatever its outcome, while a failure of the same fill is accepted and adds one event.
  pub apply_fill_local_result-cancelled :
      (w : World) (id packet_id : ℕ) (result : FillLocalResult) (application : ApplicationRow)
      (code message : Text)
      → load_application id w.store.applications ≡ some application
      → application.status ≡ cancelled
      → (apply_fill_local_result codec now new_id w id packet_id result
          ≡ refused (cannot_move cancelled (pause_status result.outcome)))
        × ((e : ApplicationEvent) × (apply_fill_local_failure codec now new_id w.store id packet_id
                code message
              ≡ done (record w.store { events = w.store.events ++ (e ∷ []) })))
  unfolding apply_fill_local_result apply_fill_local_failure append_application_event
  apply_fill_local_result-cancelled w id packet_id result application code message here h = (
    rw (here, apply_fill_local_result) (refused_result w application packet_id result id h here),
    rw (here, apply_fill_local_failure, not_filling application.status h) (_, refl),
  )
