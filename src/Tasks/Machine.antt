-- ===== src/Tasks/Machine.antt =====
-- The queue as a machine: any sequence of its transactions, by any workers and at any times. A
-- transaction that throws is rolled back, so only the successful ones are steps.
use mathlib.Core.List.{Memᴰ}
use octopus_job_search.Base.{
  ℕ, zero, suc, ◌≡◌, refl, inl, inr, Bool, true, false, not, ◌&&◌, Option, List, [], ◌∷◌, arith,
}
use octopus_job_search.Base.Tests.{Bool-cases}
use octopus_job_search.Base.Lists.{keep, take, All, All-keep, All-of, keep-Memᴰ}
use octopus_job_search.Tasks.Types.{TaskRow, TaskProgress, Json}
use octopus_job_search.Tasks.Store.{Store, Env, ok}
use octopus_job_search.Tasks.Retry.{no_retry}
use octopus_job_search.Tasks.Lease.{is_leased, is_queued, heartbeat_task, HeartbeatResult}
use octopus_job_search.Tasks.Claim.{ClaimInput, ClaimResponse, claim_task}
use octopus_job_search.Tasks.Finish.{
  FailTaskInput, CompleteResult, complete_task, fail_task, cancel_task,
}
use octopus_job_search.Tasks.Sweep.{Swept, has_expired, reclaim_expired_leases}
use octopus_job_search.Tasks.Rows.{
  Evolves, Evolution, Evolution-refl, Evolution-trans, Evolution-IsKeyed, Evolution-All, IsKeyed,
  IsSound, is_terminal,
}
use octopus_job_search.Tasks.Preserve.{
  heartbeat_task-Evolution, complete_task-Evolution, fail_task-Evolution, cancel_task-Evolution,
}
use octopus_job_search.Tasks.PreserveClaim.{claim_task-Evolution, reclaim_all-Evolution}

All-take {ℓ} : {A : Type ℓ} (P : A → Type 0) (n : ℕ) (xs : List A) → All P xs → All P (take n xs)
All-take P zero xs h = tt
All-take P (suc n) [] h = tt
All-take P (suc n) (x ∷ xs) h = (h.0, All-take P n xs h.1)

IsKeyed-take : (n : ℕ) (rs : List TaskRow) → IsKeyed rs → IsKeyed (take n rs)
IsKeyed-take zero rs k = tt
IsKeyed-take (suc n) [] k = tt
IsKeyed-take (suc n) (r ∷ rs) k = (All-take _ n rs k.0, IsKeyed-take n rs k.1)

IsKeyed-keep : (p : TaskRow → Bool) (rs : List TaskRow) → IsKeyed rs → IsKeyed (keep p rs)
IsKeyed-keep p [] k = tt
IsKeyed-keep p (r ∷ rs) k = elim (Bool-cases (p r)) [
  | inl t ↦ rw t (All-keep _ p rs k.0, IsKeyed-keep p rs k.1)
  | inr f ↦ rw f (IsKeyed-keep p rs k.1)
]

expired_leased :
    (now : ℕ) (locked : ℕ → Bool) (r : TaskRow)
    → (has_expired now r && not (locked r.id)) ≡ true
    → is_leased r.state ≡ true
expired_leased now locked r h = ground arith

module _ {D : Type 0} (env : Env D) where
  reclaim_expired_leases-Evolution :
      (now : ℕ) (draw : ℕ → ℕ) (locked : ℕ → Bool) (limit : ℕ) (s : Store D) {out : Swept}
      {t : Store D}
      → IsKeyed s.tasks
      → reclaim_expired_leases env now draw locked limit s ≡ ok (out, t)
      → Evolution s.tasks t.tasks
  unfolding reclaim_expired_leases
  reclaim_expired_leases-Evolution now draw locked limit s k e =
      let p = λ (r : TaskRow). has_expired now r && not (locked r.id) in
      reclaim_all-Evolution env now draw (take limit (keep p s.tasks)) _ s k
        (IsKeyed-take limit _ (IsKeyed-keep p s.tasks k))
        (All-take _ limit _ (All-of _ _ (λ a m. (keep-Memᴰ p s.tasks m).0)))
        (All-take _ limit _
          (All-of _ _ (λ a m. expired_leased now locked a (keep-Memᴰ p s.tasks m).1)))
        e

  -- One transaction of the queue.
  pub data Step (s t : Store D) : Type 0 where
    claims :
        (locked : ℕ → Bool) (now token : ℕ) (input : ClaimInput) (r : Option ClaimResponse)
        → claim_task env locked now token input s ≡ ok (r, t)
        → Step s t
    beats :
        (now id token : ℕ) (progress : Option TaskProgress) (r : HeartbeatResult)
        → heartbeat_task env now s id token progress ≡ ok (r, t)
        → Step s t
    completes :
        (now id token : ℕ) (result : Json) (r : CompleteResult)
        → complete_task env now s id token result ≡ ok (r, t)
        → Step s t
    fails :
        (now draw id token : ℕ) (input : FailTaskInput) (r : TaskRow)
        → fail_task env now draw s id token input ≡ ok (r, t)
        → Step s t
    cancels :
        (now workspace_id id : ℕ) (r : TaskRow)
        → cancel_task env now s workspace_id id ≡ ok (r, t)
        → Step s t
    sweeps :
        (now : ℕ) (draw : ℕ → ℕ) (locked : ℕ → Bool) (limit : ℕ) (out : Swept)
        → reclaim_expired_leases env now draw locked limit s ≡ ok (out, t)
        → Step s t

  pub data Reach (s : Store D) : Store D → Type 0 where
    here : Reach s s
    next : {t u : Store D} → Reach s t → Step t u → Reach s u

  Step-Evolution : (s t : Store D) → IsKeyed s.tasks → Step s t → Evolution s.tasks t.tasks
  Step-Evolution s t k (claims locked now token input r e) =
      claim_task-Evolution env now token locked input s k e
  Step-Evolution s t k (beats now id token p r e) =
      heartbeat_task-Evolution env now s id token p k e
  Step-Evolution s t k (completes now id token result r e) =
      complete_task-Evolution env now s id token result k e
  Step-Evolution s t k (fails now draw id token input r e) =
      fail_task-Evolution env now draw s id token input k e
  Step-Evolution s t k (cancels now w id r e) = cancel_task-Evolution env now s w id k e
  Step-Evolution s t k (sweeps now draw locked limit out e) =
      reclaim_expired_leases-Evolution now draw locked limit s k e

  Reach-Evolution : {s t : Store D} → IsKeyed s.tasks → Reach s t → Evolution s.tasks t.tasks
  Reach-Evolution {s} k here = Evolution-refl s.tasks
  Reach-Evolution {s} {t = u} k (next {t = t} r st) =
      let before = Reach-Evolution k r in
      Evolution-trans s.tasks t.tasks u.tasks before
        (Step-Evolution t u (Evolution-IsKeyed s.tasks t.tasks before k) st)

  -- Where all rows are sound and no two share an id, this stays so whatever the queue does: a queued
  -- task has attempts left, a leased one has a token and a deadline, no other state keeps any part of a
  -- lease, and a task that is never retried is claimed at most once.
  pub Reach-IsSound :
      {s t : Store D}
      → IsKeyed s.tasks
      → All IsSound s.tasks
      → Reach s t
      → All IsSound t.tasks × IsKeyed t.tasks
  Reach-IsSound {s} {t} k h r =
      let e = Reach-Evolution k r in
      (Evolution-All s.tasks t.tasks e h, Evolution-IsKeyed s.tasks t.tasks e k)

Evolution-Memᴰ :
    (c : TaskRow) (rs ts : List TaskRow)
    → Evolution rs ts
    → Memᴰ c rs
    → (d : TaskRow) × Memᴰ d ts × Evolves c d
Evolution-Memᴰ c [] ts e m = elim m [ ]
Evolution-Memᴰ c (r ∷ rs) [] e m = absurd e
Evolution-Memᴰ c (r ∷ rs) (t ∷ ts) e (Memᴰ.head h) = (t, Memᴰ.head refl, rw h e.0)
Evolution-Memᴰ c (r ∷ rs) (t ∷ ts) e (Memᴰ.tail m) =
    let (d, n, v) = Evolution-Memᴰ c rs ts e.1 m in (d, Memᴰ.tail n, v)

module _ {D : Type 0} (env : Env D) {s t : Store D} (c : TaskRow) where
  -- A task that has succeeded, failed or been cancelled never changes again, where no two rows of
  -- the table share an id.
  pub Reach-final :
      IsKeyed s.tasks → Memᴰ c s.tasks → is_terminal c.state ≡ true → Reach env s t → Memᴰ c t.tasks
  Reach-final k m h r =
      let (d, n, v) = Evolution-Memᴰ c s.tasks t.tasks (Reach-Evolution env k r) m in
      rw (v.final h) at n

  -- A task of a type that is never retried, once it has left the queue, is not queued again and is
  -- not claimed again, whatever workers report and whichever leases run out, where no two rows of the
  -- table share an id.
  pub Reach-not_repeated :
      IsKeyed s.tasks
      → Memᴰ c s.tasks
      → no_retry c.type ≡ true
      → is_queued c.state ≡ false
      → Reach env s t
      → (d : TaskRow) × Memᴰ d t.tasks
        × (d.id ≡ c.id)
        × (is_queued d.state ≡ false)
        × (d.attempt ≡ c.attempt)
  Reach-not_repeated k m h q r =
      let (d, n, v) = Evolution-Memᴰ c s.tasks t.tasks (Reach-Evolution env k r) m in
      let once = v.not_repeated h q in (d, n, v.same_id, once.0, once.1)
