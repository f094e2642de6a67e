-- ===== src/Tasks/Grant.antt =====
-- What a granted claim means.
use mathlib.Core.List.{Memᴰ}
use octopus_job_search.Base.{
  ℕ, zero, suc, ◌+◌, ◌≡◌, ◌≢◌, refl, sym, ap, ◌∙◌, inl, inr, Bool, true, false, not, ◌&&◌, ◌||◌,
  Option, none, some, List, [], ◌∷◌, arith,
}
use octopus_job_search.Base.Tests.{◌==◌, ==_iff, leb, Bool-cases, Option-cases, if-true, if-false}
use octopus_job_search.Base.Lists.{All-Memᴰ}
use octopus_job_search.Base.Text.{Text}
use octopus_job_search.Tasks.Types.{TaskRow, TaskType, lease_ms, protocol_version}
use octopus_job_search.Tasks.Store.{
  Store, Env, Result, ok, >>=-eq-ok, ok-injective, err-ne-ok, update_task, task_by_id,
  apply_domain_failure,
}
use octopus_job_search.Tasks.Retry.{no_retry}
use octopus_job_search.Tasks.Lease.{is_leased}
use octopus_job_search.Tasks.Claim.{
  workspace_filter, assert_capabilities_allowed, has_capability, in_workspace, lease_row,
  ClaimInput, ClaimResponse, claim_task, claim_rounds, claim_candidate, expire_candidate,
  cancel_candidate, lease_candidate, select_claim_candidate,
}
use octopus_job_search.Tasks.Rows.{IsKeyed, Evolution-IsKeyed}
use octopus_job_search.Tasks.Select.{select_claim_candidate_lem}
use octopus_job_search.Tasks.PreserveClaim.{claim_candidate-Evolution}

-- The row that was written is the row that is found.
task_by_id-update :
    (c : TaskRow) (f : TaskRow → TaskRow) (rs : List TaskRow)
    → IsKeyed rs
    → Memᴰ c rs
    → (f c).id ≡ c.id
    → task_by_id c.id (update_task c.id f rs) ≡ some (f c)
unfolding update_task
task_by_id-update c f [] k m h = elim m [ ]
task_by_id-update c f (r ∷ rs) k (Memᴰ.head e) h =
    rw (← e, (==_iff c.id c.id).1 refl, (==_iff (f c).id c.id).1 h)
task_by_id-update c f (r ∷ rs) k (Memᴰ.tail m) h =
    let other : c.id ≢ r.id = All-Memᴰ (λ q. q.id ≢ r.id) rs k.0 m in
    let missed : (r.id == c.id) ≡ false = ground arith in
    rw (missed, missed) (task_by_id-update c f rs k.1 m h)

nothing_selected :
    {D : Type 0} {s t : Store D} {response : ClaimResponse}
    → ◌≡◌ {A = Result (Option ClaimResponse × Store D)} (ok (none, s)) (ok (some response, t))
    → ⊥
nothing_selected e = cc

in_workspace_same :
    (w : Option ℕ) (c d : TaskRow)
    → d.workspace_id ≡ c.workspace_id
    → in_workspace w c ≡ true
    → in_workspace w d ≡ true
in_workspace_same w c d e h = ground arith

module _ {D : Type 0} (env : Env D) (now token : ℕ) where
  expire_grants_nothing :
      (locked : ℕ → Bool) (c : TaskRow) (s : Store D) {response : ClaimResponse} {t : Store D}
      → expire_candidate env locked now token c s ≡ ok (some response, t)
      → ⊥
  unfolding expire_candidate
  expire_grants_nothing locked c s e =
      let (u, failed, written) = >>=-eq-ok (apply_domain_failure env c _ _ _) _ e in cc

  cancel_grants_nothing :
      (locked : ℕ → Bool) (c : TaskRow) (s : Store D) {response : ClaimResponse} {t : Store D}
      → cancel_candidate env locked now token c s ≡ ok (some response, t)
      → ⊥
  unfolding cancel_candidate
  cancel_grants_nothing locked c s e = cc

module _ {D : Type 0} (env : Env D) (now token : ℕ) (cs : List TaskType) (w : Option ℕ) where
  -- The store holds the lease that the response describes.
  abbrev pub IsGranted : ClaimResponse → Store D → Type 0
  IsGranted response t =
      (d : TaskRow) × (task_by_id response.task_id t.tasks ≡ some d)
      × (is_leased d.state ≡ true)
      × (d.lease_token_hash ≡ some (env.sha256_hex token))
      × (d.lease_expires_at ≡ some (now + lease_ms))
      × (d.attempt ≡ response.attempt)
      × (has_capability cs d.capability ≡ true)
      × (in_workspace w d ≡ true)
      × (response.lease_token ≡ token)
      × (response.lease_expires_at ≡ now + lease_ms)

  lease_candidate-IsGranted :
      (locked : ℕ → Bool) (worker_id : Text) (c : TaskRow) (s : Store D) {response : ClaimResponse}
      {t : Store D}
      → IsKeyed s.tasks
      → Memᴰ c s.tasks
      → has_capability cs c.capability ≡ true
      → in_workspace w c ≡ true
      → lease_candidate env locked now token worker_id c s ≡ ok (some response, t)
      → IsGranted response t
  unfolding lease_candidate
  lease_candidate-IsGranted locked worker_id c s {response} {t} k m h i e =
      let f = lease_row now (c.attempt + 1) (env.sha256_hex token) worker_id in
      let found = task_by_id-update c f s.tasks k m refl in
      let id : c.id ≡ response.task_id = ground arith in
      let table : update_task c.id f s.tasks ≡ t.tasks = ground arith in
      let attempt : c.attempt + 1 ≡ response.attempt = ground arith in
      (
        f c,
        rw (← id, ← table) found,
        refl,
        refl,
        refl,
        attempt,
        h,
        in_workspace_same w c (f c) refl i,
        ground arith,
        ground arith,
      )

  claim_candidate-IsGranted :
      (locked : ℕ → Bool) (worker_id : Text) (c : TaskRow) (s : Store D) {response : ClaimResponse}
      {t : Store D}
      → IsKeyed s.tasks
      → Memᴰ c s.tasks
      → has_capability cs c.capability ≡ true
      → in_workspace w c ≡ true
      → claim_candidate env locked now token worker_id c s ≡ ok (some response, t)
      → IsGranted response t
  unfolding claim_candidate
  claim_candidate-IsGranted locked worker_id c s {response} {t} k m h i e =
      elim (Bool-cases (is_leased c.state && (leb c.max_attempts c.attempt || no_retry c.type))) [
        | inl x ↦ absurd (expire_grants_nothing env now token locked c s (sym (if-true _ _ x) ∙ e))
        | inr x ↦ elim (Bool-cases c.cancel_requested) [
          | inl q ↦ absurd (
              cancel_grants_nothing env now token locked c s
                (sym (if-true _ _ q) ∙ (sym (if-false _ _ x) ∙ e)))
          | inr q ↦
              lease_candidate-IsGranted locked worker_id c s k m h i
                (sym (if-false _ _ q) ∙ (sym (if-false _ _ x) ∙ e))
        ]
      ]

  claim_rounds-IsGranted :
      (n : ℕ) (locked : ℕ → Bool) (worker_id : Text) (s : Store D) {response : ClaimResponse}
      {t : Store D}
      → IsKeyed s.tasks
      → claim_rounds env locked now token n worker_id cs w s ≡ ok (some response, t)
      → IsGranted response t
  unfolding claim_rounds
  claim_rounds-IsGranted zero locked worker_id s k e = cc
  claim_rounds-IsGranted (suc n) locked worker_id s {response} {t} k e =
      elim (Option-cases (select_claim_candidate locked now cs w s.tasks)) [
        | inl h ↦ absurd (nothing_selected (rw (h, claim_rounds) at e))
        | inr (c, h) ↦
            let picked = select_claim_candidate_lem locked now cs w s.tasks {c = c} h in
            let ((found, u), round, rest) =
              >>=-eq-ok (claim_candidate env locked now token worker_id c s) _
                (rw (h, claim_rounds) at e) in
            next (λ v kv e'. claim_rounds-IsGranted n locked worker_id v kv e') c s k picked.0
              picked.2 picked.4 u
              (Evolution-IsKeyed s.tasks u.tasks
                (claim_candidate-Evolution env now token locked worker_id c s k picked.0 picked.3
                  round)
                k)
              found round rest
      ]
    where
      next :
          ((v : Store D)
            → IsKeyed v.tasks
            → claim_rounds env locked now token n worker_id cs w v ≡ ok (some response, t)
            → IsGranted response t)
          → (c : TaskRow) (s : Store D) → IsKeyed s.tasks
          → Memᴰ c s.tasks
          → has_capability cs c.capability ≡ true
          → in_workspace w c ≡ true
          → (u : Store D) → IsKeyed u.tasks
          → (found : Option ClaimResponse)
          → claim_candidate env locked now token worker_id c s ≡ ok (found, u)
          → (elim found [
            | none ↦ claim_rounds env locked now token n worker_id cs w u
            | some r ↦ ok (some r, u)
          ])
            ≡ ok (some response, t)
          → IsGranted response t
      next again c s ks m h i u ku none round e' = again u ku e'
      next again c s ks m h i u ku (some r) round e' =
          let same = ok-injective e' in
          claim_candidate-IsGranted locked worker_id c s ks m h i (round ∙ ap ok same)

granted_rounds :
    {D : Type 0} (env : Env D) (locked : ℕ → Bool) (now token : ℕ) (input : ClaimInput)
    (s : Store D) {response : ClaimResponse} {t : Store D}
    → claim_task env locked now token input s ≡ ok (some response, t)
    → (assert_capabilities_allowed input.principal input.capabilities ≡ ok tt)
      × (claim_rounds env locked now token 10 input.worker_id input.capabilities
            (workspace_filter input.principal)
            s
          ≡ ok (some response, t))
unfolding claim_task
granted_rounds env locked now token input s {response} {t} e =
    elim (Bool-cases (not (input.protocol_version == protocol_version))) [
      | inl h ↦ absurd (err-ne-ok {a = (some response, t)} (sym (if-true _ _ h) ∙ e))
      | inr h ↦
          let (u, allowed, rest) =
            >>=-eq-ok (assert_capabilities_allowed input.principal input.capabilities) _
              (sym (if-false _ _ h) ∙ e) in
          (allowed, rest)
    ]

pub claim_task-IsGranted :
    {D : Type 0} (env : Env D) (locked : ℕ → Bool) (now token : ℕ) (input : ClaimInput)
    (s : Store D) {response : ClaimResponse} {t : Store D}
    → IsKeyed s.tasks
    → claim_task env locked now token input s ≡ ok (some response, t)
    → IsGranted env now token input.capabilities (workspace_filter input.principal) response t
claim_task-IsGranted env locked now token input s k e =
    claim_rounds-IsGranted env now token input.capabilities (workspace_filter input.principal) 10
      locked input.worker_id s k (granted_rounds env locked now token input s e).1
