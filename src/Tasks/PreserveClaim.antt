-- ===== src/Tasks/PreserveClaim.antt =====
-- The claim and the sweep take each row along `Evolves` (Rows.antt), row by row.
use mathlib.Core.List.{Memᴰ}
use octopus_job_search.Base.{
  ℕ, zero, suc, ◌≡◌, ◌≢◌, sym, ap, ◌∙◌, inl, inr, Bool, true, false, not, ◌&&◌, ◌||◌, Option, none,
  some, List, [], ◌∷◌, arith,
}
use octopus_job_search.Base.Tests.{◌==◌, leb, Bool-cases, Option-cases, if-true, if-false}
use octopus_job_search.Base.Lists.{All}
use octopus_job_search.Base.Text.{Text}
use octopus_job_search.Tasks.Types.{TaskRow, TaskType, timed_out, protocol_version}
use octopus_job_search.Tasks.Store.{
  Store, Env, ok, >>=-eq-ok, ok-injective, err-ne-ok, update_task, tasks-apply_domain_failure,
  apply_domain_failure,
}
use octopus_job_search.Tasks.Retry.{no_retry, backoff_ms}
use octopus_job_search.Tasks.Lease.{is_leased}
use octopus_job_search.Tasks.Claim.{
  is_claimable, ClaimInput, ClaimResponse, claim_task, claim_rounds, claim_candidate,
  expire_candidate, cancel_candidate, lease_candidate, select_claim_candidate,
  assert_capabilities_allowed, workspace_filter,
}
use octopus_job_search.Tasks.Sweep.{
  Swept, reclaim_one, reclaim_all, give_up_row, return_row, gives_up,
}
use octopus_job_search.Tasks.Rows.{
  Evolves, Evolution, Evolution-refl, Evolution-trans, Evolution-IsKeyed, IsKeyed, update-Evolution,
}
use octopus_job_search.Tasks.Writes.{
  expire_row-Evolves, give_up_row-Evolves, return_row-Evolves, cancel_row-Evolves,
  lease_row-Evolves,
}
use octopus_job_search.Tasks.Select.{select_claim_candidate_lem}

module _ {D : Type 0} (env : Env D) where
  expire_candidate-Evolution :
      (now token : ℕ) (locked : ℕ → Bool) (c : TaskRow) (s : Store D) {r : Option ClaimResponse}
      {t : Store D}
      → IsKeyed s.tasks
      → Memᴰ c s.tasks
      → is_leased c.state ≡ true
      → expire_candidate env locked now token c s ≡ ok (r, t)
      → Evolution s.tasks t.tasks
  unfolding expire_candidate
  expire_candidate-Evolution now token locked c s k i l e =
      let (u, failed, written) = >>=-eq-ok (apply_domain_failure env _ timed_out _ _) _ e in
      let table = tasks-apply_domain_failure env _ timed_out _ _ failed in
      let last : u.tasks ≡ _ = ap (λ q. q.1.tasks) (ok-injective written) in
      rw (← last, table.0) (update-Evolution c _ s.tasks k i (expire_row-Evolves c l now _))

  pub claim_candidate-Evolution :
      (now token : ℕ) (locked : ℕ → Bool) (w : Text) (c : TaskRow) (s : Store D)
      {r : Option ClaimResponse} {t : Store D}
      → IsKeyed s.tasks
      → Memᴰ c s.tasks
      → is_claimable now c ≡ true
      → claim_candidate env locked now token w c s ≡ ok (r, t)
      → Evolution s.tasks t.tasks
  unfolding claim_candidate cancel_candidate lease_candidate
  claim_candidate-Evolution now token locked w c s k i d e =
      elim (Bool-cases (is_leased c.state && (leb c.max_attempts c.attempt || no_retry c.type))) [
        | inl h ↦
            expire_candidate-Evolution now token locked c s k i (ground arith)
              (sym (if-true _ _ h) ∙ e)
        | inr h ↦ elim (Bool-cases c.cancel_requested) [
          | inl q ↦
              let table =
                ap (λ q. q.1.tasks)
                  (ok-injective (sym (if-true _ _ q) ∙ (sym (if-false _ _ h) ∙ e))) in
              rw (← table) (update-Evolution c _ s.tasks k i (cancel_row-Evolves now c d))
          | inr q ↦
              let table =
                ap (λ q. q.1.tasks)
                  (ok-injective (sym (if-false _ _ q) ∙ (sym (if-false _ _ h) ∙ e))) in
              rw (← table) (update-Evolution c _ s.tasks k i (lease_row-Evolves now _ w c d h))
        ]
      ]

  -- A claim takes every row along `Evolves`, however many candidates it inspects.
  claim_rounds-Evolution :
      (n now token : ℕ) (locked : ℕ → Bool) (w : Text) (cs : List TaskType) (f : Option ℕ)
      (s : Store D) {r : Option ClaimResponse} {t : Store D}
      → IsKeyed s.tasks
      → claim_rounds env locked now token n w cs f s ≡ ok (r, t)
      → Evolution s.tasks t.tasks
  unfolding claim_rounds
  claim_rounds-Evolution zero now token locked w cs f s k e =
      let table = ap (λ q. q.1.tasks) (ok-injective e) in rw (← table) (Evolution-refl s.tasks)
  claim_rounds-Evolution (suc n) now token locked w cs f s {r} {t} k e =
      elim (Option-cases (select_claim_candidate locked now cs f s.tasks)) [
        | inl h ↦
            let table = ap (λ q. q.1.tasks) (ok-injective (rw (h, claim_rounds) at e)) in
            rw (← table) (Evolution-refl s.tasks)
        | inr (c, h) ↦
            let picked = select_claim_candidate_lem locked now cs f s.tasks {c = c} h in
            let ((found, u), round, rest) =
              >>=-eq-ok (claim_candidate env locked now token w c s) _
                (rw (h, claim_rounds) at e) in
            let first =
              claim_candidate-Evolution now token locked w c s k picked.0 picked.3 round in
            Evolution-trans s.tasks u.tasks t.tasks first (
              next (λ v kv e'. claim_rounds-Evolution n now token locked w cs f v kv e') u
                (Evolution-IsKeyed s.tasks u.tasks first k) found rest)
      ]
    where
      next :
          ((v : Store D)
            → IsKeyed v.tasks
            → claim_rounds env locked now token n w cs f v ≡ ok (r, t)
            → Evolution v.tasks t.tasks)
          → (u : Store D) → IsKeyed u.tasks
          → (found : Option ClaimResponse)
          → (elim found [
            | none ↦ claim_rounds env locked now token n w cs f u
            | some response ↦ ok (some response, u)
          ])
            ≡ ok (r, t)
          → Evolution u.tasks t.tasks
      next again u ku none e' = again u ku e'
      next again u ku (some response) e' =
          let table = ap (λ q. q.1.tasks) (ok-injective e') in rw (← table) (Evolution-refl u.tasks)

  -- A claim takes every row along `Evolves`.
  pub claim_task-Evolution :
      (now token : ℕ) (locked : ℕ → Bool) (input : ClaimInput) (s : Store D)
      {r : Option ClaimResponse} {t : Store D}
      → IsKeyed s.tasks
      → claim_task env locked now token input s ≡ ok (r, t)
      → Evolution s.tasks t.tasks
  unfolding claim_task
  claim_task-Evolution now token locked input s {r} {t} k e =
      elim (Bool-cases (not (input.protocol_version == protocol_version))) [
        | inl h ↦ absurd (err-ne-ok {a = (r, t)} (sym (if-true _ _ h) ∙ e))
        | inr h ↦
            let (u, allowed, rest) =
              >>=-eq-ok (assert_capabilities_allowed input.principal input.capabilities) _
                (sym (if-false _ _ h) ∙ e) in
            claim_rounds-Evolution 10 now token locked input.worker_id input.capabilities
              (workspace_filter input.principal) s k rest
      ]

-- Rows that are still to be swept stay in the table while another is.
update-Memᴰ :
    (c : TaskRow) (f : TaskRow → TaskRow) (q : TaskRow) (rs : List TaskRow)
    → q.id ≢ c.id
    → Memᴰ q rs
    → Memᴰ q (update_task c.id f rs)
unfolding update_task
update-Memᴰ c f q [] n m = elim m [ ]
update-Memᴰ c f q (x ∷ rs) n (Memᴰ.head e) =
    let missed : (x.id == c.id) ≡ false = ground (arith, ap (λ (y : TaskRow). y.id) e) in
    Memᴰ.head (e ∙ sym (if-false (f x) x missed))
update-Memᴰ c f q (x ∷ rs) n (Memᴰ.tail m) = Memᴰ.tail (update-Memᴰ c f q rs n m)

update-rest :
    (c : TaskRow) (f : TaskRow → TaskRow) (rs todo : List TaskRow)
    → All (λ q. q.id ≢ c.id) todo
    → All (λ q. Memᴰ q rs) todo
    → All (λ q. Memᴰ q (update_task c.id f rs)) todo
update-rest c f rs [] n m = tt
update-rest c f rs (q ∷ todo) n m = (update-Memᴰ c f q rs n.0 m.0, update-rest c f rs todo n.1 m.1)

module _ {D : Type 0} (env : Env D) (now : ℕ) (draw : ℕ → ℕ) where
  -- The write of one sweep step, whichever it is.
  reclaim_one_tasks :
      (c : TaskRow) (out : Swept) (s : Store D) {out' : Swept} {t : Store D}
      → is_leased c.state ≡ true
      → reclaim_one env now draw c out s ≡ ok (out', t)
      → (f : TaskRow → TaskRow) × (t.tasks ≡ update_task c.id f s.tasks) × Evolves c (f c)
  unfolding reclaim_one
  reclaim_one_tasks c out s l e = elim (Bool-cases (gives_up c)) [
    | inl h ↦
        let (u, failed, written) =
          >>=-eq-ok (apply_domain_failure env c _ _ _) _ (sym (if-true _ _ h) ∙ e) in
        let table = tasks-apply_domain_failure env c _ _ _ failed in
        let last : u.tasks ≡ _ = ap (λ q. q.1.tasks) (ok-injective written) in
        (give_up_row now c, sym last ∙ table.0, give_up_row-Evolves c l now)
    | inr h ↦ (
      return_row now (backoff_ms c.attempt (draw c.id)),
      sym (ap (λ q. q.1.tasks) (ok-injective (sym (if-false _ _ h) ∙ e))),
      return_row-Evolves c l now _ h,
    )
  ]

  pub reclaim_all-Evolution :
      (todo : List TaskRow) (out : Swept) (s : Store D) {out' : Swept} {t : Store D}
      → IsKeyed s.tasks
      → IsKeyed todo
      → All (λ q. Memᴰ q s.tasks) todo
      → All (λ q. is_leased q.state ≡ true) todo
      → reclaim_all env now draw todo out s ≡ ok (out', t)
      → Evolution s.tasks t.tasks
  unfolding reclaim_all
  reclaim_all-Evolution [] out s k d m l e =
      let table = ap (λ q. q.1.tasks) (ok-injective e) in rw (← table) (Evolution-refl s.tasks)
  reclaim_all-Evolution (c ∷ todo) out s {out'} {t} k d m l e =
      let ((mid, u), one, rest) = >>=-eq-ok (reclaim_one env now draw c out s) _ e in
      let (f, table, step) = reclaim_one_tasks c out s l.0 one in
      let first : Evolution s.tasks u.tasks = rw table (update-Evolution c f s.tasks k m.0 step) in
      let still : All (λ q. Memᴰ q u.tasks) todo =
        rw table (update-rest c f s.tasks todo d.0 m.1) in
      Evolution-trans s.tasks u.tasks t.tasks first (
        reclaim_all-Evolution todo mid u (Evolution-IsKeyed s.tasks u.tasks first k) d.1 still l.1
          rest)
