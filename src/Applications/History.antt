-- ===== src/Applications/History.antt =====
-- What a transition of an application writes, and that two writers cannot both have moved it.
use mathlib.Core.List.{Memᴰ}
use octopus_job_search.Base.{
  ◌&&◌, ℕ, ◌+◌, ◌<◌, max, ◌≡◌, refl, sym, ap, ◌∙◌, inl, inr, Bool, true, false, none, some, List,
  [], ◌∷◌, ◌++◌, arith, ◌⊎◌,
}
use octopus_job_search.Base.Tests.{◌==◌, Bool-cases, Option-cases, if-false}
use octopus_job_search.Base.Lists.{find, All}
use octopus_job_search.Applications.Status.{ApplicationStatus}
use octopus_job_search.Applications.Transition.{
  ApplicationRow, ApplicationEvent, EventInput, TransitionOptions, Store, Outcome, done, refused,
  Conflict, changed_meanwhile, walk, last_sequence, append_application_event, patched, is_read_row,
  or_some, path_data, update_application, write_transition, transition_application,
}

-- The event comes after those of its application.
abbrev pub IsNewest : ApplicationEvent → List ApplicationEvent → Type 0
IsNewest e = All (λ f. ((f.application_id == e.application_id) ≡ false) ⊎ (f.sequence < e.sequence))

last_sequence-bounds :
    (id : ℕ) (n : ℕ) (es : List ApplicationEvent)
    → last_sequence id es < n
    → All (λ (f : ApplicationEvent). ((f.application_id == id) ≡ false) ⊎ (f.sequence < n)) es
unfolding last_sequence
last_sequence-bounds id n [] h = tt
last_sequence-bounds id n (e ∷ es) h = elim (Bool-cases (e.application_id == id)) [
  | inl t ↦
      let bound : max e.sequence (last_sequence id es) < n = ground (arith, h, t) in
      (inr (omega (arith, bound)), last_sequence-bounds id n es (omega (arith, bound)))
  | inr f ↦ (inl f, last_sequence-bounds id n es (ground (arith, h, f)))
]

-- The step that a successful transition takes.
abbrev pub IsRecorded :
    Store → ApplicationRow → List ApplicationStatus → ApplicationRow → Store → Type 0
IsRecorded s application path row t =
    (walk application.status path ≡ done row.status)
    × (row.id ≡ application.id)
    × (row.revision ≡ application.revision + 1)
    × ((e : ApplicationEvent) × (t.events ≡ s.events ++ e ∷ [])
        × (e.application_id ≡ application.id)
        × IsNewest e s.events)
    × Memᴰ row t.applications
    × ((q : ApplicationRow)
        → Memᴰ q s.applications
        → (q.id == application.id && q.revision == application.revision) ≡ false
        → Memᴰ q t.applications)

find_holds : {A : Type 0} (p : A → Bool) (xs : List A) {a : A} → find p xs ≡ some a → p a ≡ true
find_holds p [] e = cc
find_holds p (x ∷ xs) e = elim (Bool-cases (p x)) [
  | inl t ↦ ground (arith, t, e)
  | inr f ↦ find_holds p xs (sym (if-false _ _ f) ∙ e)
]

-- The row that an update found stands changed in the table, the rows that it passed over stay.
update_application-found :
    (application : ApplicationRow) (f : ApplicationRow → ApplicationRow) (rs : List ApplicationRow)
    {found : ApplicationRow}
    → find (is_read_row application) rs ≡ some found
    → Memᴰ (f found) (update_application application f rs)
unfolding update_application
update_application-found application f [] e = cc
update_application-found application f (r ∷ rs) {found} e =
    elim (Bool-cases (is_read_row application r)) [
      | inl t ↦
          let here : some r ≡ some found = rw t at e in
          let same : r ≡ found = cc in rw t (Memᴰ.head (ap f (sym same)))
      | inr n ↦ Memᴰ.tail (update_application-found application f rs (rw n at e))
    ]

update_application-other :
    (application : ApplicationRow) (f : ApplicationRow → ApplicationRow) (rs : List ApplicationRow)
    {q : ApplicationRow}
    → Memᴰ q rs
    → is_read_row application q ≡ false
    → Memᴰ q (update_application application f rs)
unfolding update_application
update_application-other application f [] m h = elim m [ ]
update_application-other application f (r ∷ rs) (Memᴰ.head e) h =
    let passed : is_read_row application r ≡ false = ap (is_read_row application) (sym e) ∙ h in
    rw passed (Memᴰ.head e)
update_application-other application f (r ∷ rs) (Memᴰ.tail m) h =
    Memᴰ.tail (update_application-other application f rs m h)

module _ (now : ℕ) (s : Store) (application : ApplicationRow) (path : List ApplicationStatus)
    (event : EventInput) (options : TransitionOptions) where
  -- The walk and the write of a successful transition.
  pub transition_parts :
      {r : ApplicationRow × Store}
      → transition_application now s application path event options ≡ done r
      → (cursor : ApplicationStatus) × (walk application.status path ≡ done cursor)
        × (write_transition now s application path cursor event options ≡ done r)
  unfolding transition_application
  transition_parts {r} e = by_walk (walk application.status path) refl e
    where
      by_walk :
          (w : Outcome ApplicationStatus)
          → walk application.status path ≡ w
          → (elim w [
            | refused c ↦ refused c
            | done cursor ↦ write_transition now s application path cursor event options
          ])
            ≡ done r
          → (cursor : ApplicationStatus) × (walk application.status path ≡ done cursor)
            × (write_transition now s application path cursor event options ≡ done r)
      by_walk (done cursor) w e = (cursor, w, e)
      by_walk (refused c) w e = cc

  -- The row that a successful write found, and what it wrote.
  pub write_parts :
      (cursor : ApplicationStatus) {row : ApplicationRow} {t : Store}
      → write_transition now s application path cursor event options ≡ done (row, t)
      → (found : ApplicationRow) × (find (is_read_row application) s.applications ≡ some found)
        × (row ≡ patched now application cursor options found)
        × (t.applications
            ≡ update_application application
                (patched now application cursor options)
                s.applications)
        × (t.events
            ≡ append_application_event application.id
                (record event {
                  status_before = or_some event.status_before application.status;
                  status_after = or_some event.status_after cursor;
                })
                (path_data application.status path)
                s.events)
  unfolding write_transition
  write_parts cursor {row} {t} e =
      elim (Option-cases (find (is_read_row application) s.applications)) [
        | inl h ↦ cc (rw (h, write_transition) at e)
        | inr (found, h) ↦
            let e' = rw (h, write_transition) at e in
            (found, h, ground (arith, e'), ground (arith, e'), ground (arith, e'))
      ]

  -- A transition that succeeds has moved the application along a path that is allowed at every hop,
  -- to its end, with one revision more, and has added one event to the history, numbered above every
  -- earlier event of the application. The table holds the moved row, and every row that is not the one
  -- that was read, by id and revision.
  pub transition_application-IsRecorded :
      {row : ApplicationRow} {t : Store}
      → transition_application now s application path event options ≡ done (row, t)
      → IsRecorded s application path row t
  unfolding append_application_event
  transition_application-IsRecorded {row} {t} e =
      let (cursor, walked, written) = transition_parts e in
      let (found, read, same, table, history) = write_parts cursor written in
      let matched = find_holds (is_read_row application) s.applications read in
      let status : row.status ≡ cursor = cc same in
      let id : row.id ≡ application.id = ground (arith, same, matched) in
      let revision : row.revision ≡ application.revision + 1 = cc same in
      (
        rw status walked,
        id,
        revision,
        (
          _,
          history,
          refl,
          last_sequence-bounds application.id (last_sequence application.id s.events + 1) s.events
              (omega arith),
        ),
        rw (same, table) (update_application-found application _ s.applications read),
        (λ q m h. rw table (update_application-other application _ s.applications m h)),
      )

missing_after :
    (now : ℕ) (application : ApplicationRow) (cursor : ApplicationStatus)
    (options : TransitionOptions) (rs : List ApplicationRow)
    → find
        (is_read_row application)
        (update_application application (patched now application cursor options) rs)
      ≡ none
unfolding update_application
missing_after now application cursor options [] = refl
missing_after now application cursor options (r ∷ rs) =
    let rest = missing_after now application cursor options rs in
    elim (Bool-cases (is_read_row application r)) [
      | inl t ↦
          let moved : is_read_row application (patched now application cursor options r) ≡ false =
            ground arith in
          rw (t, moved) rest
      | inr f ↦ rw (f, f) rest
    ]

Outcome-cases :
    (o : Outcome ApplicationStatus)
    → ((c : Conflict) × (o ≡ refused c)) ⊎ ((end : ApplicationStatus) × (o ≡ done end))
Outcome-cases (done end) = inr (end, refl)
Outcome-cases (refused c) = inl (c, refl)

nothing_read :
    (now : ℕ) (t : Store) (application : ApplicationRow) (path : List ApplicationStatus)
    (event : EventInput) (options : TransitionOptions)
    → find (is_read_row application) t.applications ≡ none
    → (c : Conflict) × (transition_application now t application path event options ≡ refused c)
unfolding transition_application write_transition
nothing_read now t application path event options gone =
    elim (Outcome-cases (walk application.status path)) [
      | inl (c, w) ↦ (c, rw (w, transition_application) refl)
      | inr (end, w) ↦
          (changed_meanwhile, rw (w, gone, transition_application, write_transition) refl)
    ]

-- Of two writers that read the same row one fails: once a transition of the row has succeeded, any
-- other from the same reading is refused, whatever it asks for.
pub transition_application-stale :
    (now : ℕ) (s : Store) (application : ApplicationRow) (path : List ApplicationStatus)
    (event : EventInput) (options : TransitionOptions) {row : ApplicationRow} {t : Store}
    → transition_application now s application path event options ≡ done (row, t)
    → (later : ℕ) (other_path : List ApplicationStatus) (other : EventInput)
      (others : TransitionOptions)
    → (c : Conflict) × (transition_application later t application other_path other others
        ≡ refused c)
transition_application-stale now s application path event options e later other_path other others =
    let (cursor, walked, written) = transition_parts now s application path event options e in
    let parts = write_parts now s application path event options cursor written in
    nothing_read later _ application other_path other others (
      ap (find (is_read_row application)) parts.3
      ∙ missing_after now application cursor options s.applications)
