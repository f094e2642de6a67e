-- ===== src/Usage/Isolation.antt =====
-- Which rows of the ledger a call of the usage service can touch.
use octopus_job_search.Base.{
  ℕ, ◌≡◌, ◌≢◌, refl, sym, ap, subst, ◌∙◌, Bool, true, false, not, ◌&&◌, some, List, [], ◌∷◌, arith,
  inl, inr,
}
use octopus_job_search.Base.Tests.{◌==◌, same_opt, Bool-cases, Option-cases}
use octopus_job_search.Base.Lists.{find, keep, All}
use octopus_job_search.Tasks.Types.{TaskRow}
use octopus_job_search.Tasks.Store.{
  Env, Result, ok, ◌>>=◌, >>=-eq-ok, ok-injective, err-ne-ok, no_such_reservation,
}
use octopus_job_search.Tasks.Lease.{lock_leased_task}
use octopus_job_search.Usage.Ledger.{LedgerRow, Config}
use octopus_job_search.Usage.Service.{
  UsageStore, ReserveInput, SettleInput, reserve_usage, settle_usage, release_usage, reserve_locked,
  settle_locked, release_locked, lock_reservation, update_ledger,
}
use octopus_job_search.Usage.Within.{reserve_locked-IsGranted}

-- A call of the service, as its routes make it.
pub data UsageCall : Type 0 where
  reserve : ReserveInput → UsageCall
  settle : ℕ → SettleInput → UsageCall
  release : ℕ → UsageCall

abbrev written {ℓ} : {D : Type 0} {A : Type ℓ} → A × UsageStore D → Result (UsageStore D)
written out = ok out.1

module _ {D : Type 0} (config : Config) where
  -- The rest of the call once the lease is proved.
  unfoldable pub run_locked : ℕ → UsageStore D → TaskRow → UsageCall → Result (UsageStore D)
  unfolding reserve_locked settle_locked release_locked
  run_locked now s task (reserve input) = reserve_locked config now s task input >>= written
  run_locked now s task (settle id usage) = settle_locked config now s task id usage >>= written
  run_locked now s task (release id) = release_locked config now s task id

  unfoldable pub run_call : Env D → ℕ → UsageStore D → ℕ → ℕ → UsageCall → Result (UsageStore D)
  unfolding reserve_usage settle_usage release_usage
  run_call env now s id token (reserve input) =
      reserve_usage config env now s id token input >>= written
  run_call env now s id token (settle r usage) =
      settle_usage config env now s id token r usage >>= written
  run_call env now s id token (release r) = release_usage config env now s id token r

-- A row that a write under the task's scope and id leaves as it is.
abbrev pub is_of : TaskRow → LedgerRow → Bool
is_of task row = row.workspace_id == task.workspace_id && same_opt row.task_id (some task.id)

-- The rows that are not the task's.
abbrev pub others : TaskRow → List LedgerRow → List LedgerRow
others task = keep (λ r. not (is_of task r))

-- `id` is the primary key.
abbrev pub IsKeyed : List LedgerRow → Type 0
IsKeyed [] = Unit
IsKeyed (r ∷ rs) = All (λ q. q.id ≢ r.id) rs × IsKeyed rs

-- A write to no row.
pub update_none :
    (ws id : ℕ) (f : LedgerRow → LedgerRow) (l : List LedgerRow)
    → All (λ q. q.id ≢ id) l
    → update_ledger ws id f l ≡ l
unfolding update_ledger
update_none ws id f [] h = refl
update_none ws id f (r ∷ rs) h = ground (arith, h.0, update_none ws id f rs h.1)

module _ (task : TaskRow) (id : ℕ) (f : LedgerRow → LedgerRow) where
  others_cons :
      (r q : LedgerRow) (xs ys : List LedgerRow)
      → is_of task q ≡ is_of task r
      → (is_of task r ≡ false → q ≡ r)
      → others task xs ≡ others task ys
      → others task (q ∷ xs) ≡ others task (r ∷ ys)
  others_cons r q xs ys h k e = elim (Bool-cases (is_of task r)) [
    | inl t ↦ rw (h, t) e
    | inr n ↦ rw (k n, n, e) refl
  ]

  -- A write to the reservation that was locked leaves the rows of other tasks as they are.
  others-update_ledger :
      ((r : LedgerRow) → is_of task (f r) ≡ is_of task r)
      → (l : List LedgerRow) (row : LedgerRow) → IsKeyed l
      → find (λ r. r.workspace_id == task.workspace_id && r.id == id) l ≡ some row
      → same_opt row.task_id (some task.id) ≡ true
      → others task (update_ledger task.workspace_id id f l) ≡ others task l
  unfolding update_ledger
  others-update_ledger keeps [] row k e h = refl
  others-update_ledger keeps (r ∷ rs) row k e h =
      elim (Bool-cases (r.workspace_id == task.workspace_id && r.id == id)) [
        | inl t ↦
            let same : some r ≡ some row = rw t at e in
            let mine : is_of task r ≡ true = ground (arith, t, h, same) in
            rw t (
              others_cons r (f r) _ _ (keeps r) (λ n. cc)
                (ap (others task) (
                  update_none task.workspace_id id f rs
                    (subst (λ n. All (λ q. q.id ≢ n) rs) (ground (arith, t)) k.0))))
        | inr n ↦ rw n (
            others_cons r r _ _ refl (λ h. refl)
              (others-update_ledger keeps rs row k.1 (rw n at e) h))
      ]

pub lock_reservation-eq-ok :
    (ws id task_id : ℕ) (l : List LedgerRow) {row : LedgerRow}
    → lock_reservation ws id task_id l ≡ ok row
    → (find (λ r. r.workspace_id == ws && r.id == id) l ≡ some row)
      × (same_opt row.task_id (some task_id) ≡ true)
unfolding lock_reservation
lock_reservation-eq-ok ws id task_id l {row} e =
    elim (Option-cases (find (λ r. r.workspace_id == ws && r.id == id) l)) [
      | inl n ↦
          absurd (err-ne-ok {e = no_such_reservation} {a = row} (rw (n, lock_reservation) at e))
      | inr (r, found) ↦ elim (Bool-cases (same_opt r.task_id (some task_id))) [
        | inl t ↦
            let same : r ≡ row = ok-injective (rw (found, lock_reservation, t) at e) in
            (found ∙ ap some same, subst (λ q. same_opt q.task_id (some task_id) ≡ true) same t)
        | inr f ↦
            absurd
              (err-ne-ok {e = no_such_reservation} {a = row} (rw (found, lock_reservation, f) at e))
      ]
    ]

is_of-reserved :
    (task : TaskRow) → (task.workspace_id == task.workspace_id && task.id == task.id) ≡ true
is_of-reserved task = ground arith

module _ {D : Type 0} (config : Config) where
  run_locked-others :
      (now : ℕ) (s : UsageStore D) (task : TaskRow) (call : UsageCall) {t : UsageStore D}
      → IsKeyed s.ledger
      → run_locked config now s task call ≡ ok t
      → others task t.ledger ≡ others task s.ledger
  unfolding run_locked settle_locked release_locked
  run_locked-others now s task (reserve input) keyed e =
      let ((reply, u), done, last) = >>=-eq-ok (reserve_locked config now s task input) _ e in
      let row = (reserve_locked-IsGranted config now s task input done).row in
      let same = ok-injective last in
      sym (ap (λ q. others task q.ledger) same)
      ∙ (ap (others task) row ∙ rw (is_of-reserved task) refl)
  run_locked-others now s task (settle id usage) keyed e =
      let (out, done, last) = >>=-eq-ok (settle_locked config now s task id usage) _ e in
      let (row, held, wrote) =
        >>=-eq-ok (lock_reservation task.workspace_id id task.id s.ledger) _ done in
      let (found, mine) = lock_reservation-eq-ok task.workspace_id id task.id s.ledger held in
      sym (ap (λ q. others task q.ledger) (ap (λ q. q.1) (ok-injective wrote) ∙ ok-injective last))
      ∙ others-update_ledger task id _ (λ r. refl) s.ledger row keyed found mine
  run_locked-others now s task (release id) keyed e =
      let (row, held, wrote) =
        >>=-eq-ok (lock_reservation task.workspace_id id task.id s.ledger) _ e in
      let (found, mine) = lock_reservation-eq-ok task.workspace_id id task.id s.ledger held in
      sym (ap (λ q. others task q.ledger) (ok-injective wrote))
      ∙ others-update_ledger task id _ (λ r. refl) s.ledger row keyed found mine

  module _ (env : Env D) where
    -- A call runs under the lease of a task: its lock first, then the rest.
    pub run_call-locked :
        (now : ℕ) (s : UsageStore D) (id token : ℕ) (call : UsageCall) {t : UsageStore D}
        → run_call config env now s id token call ≡ ok t
        → (task : TaskRow) × (lock_leased_task env now s.queue id token ≡ ok task)
          × (run_locked config now s task call ≡ ok t)
    unfolding run_call run_locked
    run_call-locked now s id token (reserve input) e =
        let (out, done, last) = >>=-eq-ok (reserve_usage config env now s id token input) _ e in
        let (task, locked, inner) = >>=-eq-ok (lock_leased_task env now s.queue id token) _ done in
        (task, locked, rw inner last)
    run_call-locked now s id token (settle r usage) e =
        let (out, done, last) = >>=-eq-ok (settle_usage config env now s id token r usage) _ e in
        let (task, locked, inner) = >>=-eq-ok (lock_leased_task env now s.queue id token) _ done in
        (task, locked, rw inner last)
    run_call-locked now s id token (release r) e =
        >>=-eq-ok (lock_leased_task env now s.queue id token) _ e

    -- With distinct ids, a call that succeeds leaves the rows of every other task as they were.
    pub run_call-others :
        (now : ℕ) (s : UsageStore D) (id token : ℕ) (call : UsageCall) {t : UsageStore D}
        → IsKeyed s.ledger
        → run_call config env now s id token call ≡ ok t
        → (task : TaskRow) × (lock_leased_task env now s.queue id token ≡ ok task)
          × (others task t.ledger ≡ others task s.ledger)
    run_call-others now s id token call keyed e =
        let (task, locked, done) = run_call-locked now s id token call e in
        (task, locked, run_locked-others now s task call keyed done)
