-- ===== src/Tasks/Select.antt =====
-- The row that the claim query selects: a candidate, and none comes before it.
use mathlib.Core.List.{Memᴰ}
use octopus_job_search.Base.{
  ℕ, ◌<◌, ◌≤◌, ◌⊎◌, ◌≡◌, refl, sym, subst, inl, inr, Bool, true, false, not, ◌&&◌, Option, none,
  some, List, [], ◌∷◌, arith,
}
use octopus_job_search.Base.Tests.{leb, Bool-cases, if-true, if-false}
use octopus_job_search.Base.Lists.{keep, keep-Memᴰ, All}
use octopus_job_search.Tasks.Types.{TaskRow, TaskType, TaskState, queued, leased}
use octopus_job_search.Tasks.Lease.{is_queued, is_leased, is_past}
use octopus_job_search.Tasks.Claim.{
  comes_before, earlier, first_of_rows, is_candidate, is_claimable, in_workspace, has_capability,
  select_claim_candidate,
}

earlier-Memᴰ :
    (r : TaskRow) (rs : List TaskRow) (o : Option TaskRow)
    → ((b : TaskRow) → o ≡ some b → Memᴰ b rs)
    → Memᴰ (earlier r o) (r ∷ rs)
earlier-Memᴰ r rs none h = Memᴰ.head refl
earlier-Memᴰ r rs (some b) h = elim (Bool-cases (comes_before b r)) [
  | inl t ↦ rw (if-true b r t) (Memᴰ.tail (h b refl))
  | inr f ↦ rw (if-false b r f) (Memᴰ.head refl)
]

first_of_rows-Memᴰ : (rs : List TaskRow) (c : TaskRow) → first_of_rows rs ≡ some c → Memᴰ c rs
unfolding first_of_rows
first_of_rows-Memᴰ [] c e = cc
first_of_rows-Memᴰ (r ∷ rs) c e =
    let same : earlier r (first_of_rows rs) ≡ c = cc in
    rw (← same) (earlier-Memᴰ r rs (first_of_rows rs) (first_of_rows-Memᴰ rs))

-- Not after any of them.
abbrev pub IsFirst : TaskRow → List TaskRow → Type 0
IsFirst c = All (λ q. comes_before q c ≡ false)

IsFirst-weaken :
    (r b : TaskRow) (rs : List TaskRow) → comes_before b r ≡ false → IsFirst b rs → IsFirst r rs
IsFirst-weaken r b [] h k = tt
IsFirst-weaken r b (q ∷ rs) h k = (ground (arith, k.0), IsFirst-weaken r b rs h k.1)

comes_before_asymm : (a b : TaskRow) → comes_before a b ≡ true → comes_before b a ≡ false
comes_before_asymm a b h = ground arith

comes_before_irrefl : (a : TaskRow) → comes_before a a ≡ false
comes_before_irrefl a = ground arith

-- Due earlier, or due at the same time and made no later.
abbrev pub IsNoLater : TaskRow → TaskRow → Type 0
IsNoLater c q =
    (c.run_after < q.run_after) ⊎ ((c.run_after ≡ q.run_after) × (c.created_at ≤ q.created_at))

before-IsNoLater : (c q : TaskRow) → comes_before q c ≡ false → IsNoLater c q
before-IsNoLater c q h = ground arith

-- Waiting and due, or under a lease that has run out.
abbrev pub IsDue : ℕ → TaskRow → Type 0
IsDue now c =
    ((c.state ≡ queued) × (c.run_after ≤ now))
    ⊎ ((c.state ≡ leased)
        × ((deadline : ℕ) × (c.lease_expires_at ≡ some deadline) × (deadline ≤ now)))

queued_state : (s : TaskState) → is_queued s ≡ true → s ≡ queued
queued_state s h = ground (arith, h)

leased_state : (s : TaskState) → is_leased s ≡ true → s ≡ leased
leased_state s h = ground (arith, h)

past_deadline :
    (o : Option ℕ) (now : ℕ)
    → is_past o now ≡ true
    → (deadline : ℕ) × (o ≡ some deadline) × (deadline ≤ now)
past_deadline none now h = cc
past_deadline (some t) now h = (t, refl, ground (arith, h))

missed_one :
    (a b c d : Bool) (P : Type 0)
    → (not a && (b && (c && d))) ≡ false
    → (a ≡ true) ⊎ (b ≡ false) ⊎ (c ≡ false) ⊎ (d ≡ false) ⊎ P
missed_one true b c d P h = inl refl
missed_one false false c d P h = inr (inl refl)
missed_one false true false d P h = inr (inr (inl refl))
missed_one false true true false P h = inr (inr (inr (inl refl)))
missed_one false true true true P h = cc

claimable-IsDue : (now : ℕ) (c : TaskRow) → is_claimable now c ≡ true → IsDue now c
claimable-IsDue now c h = elim (Bool-cases (is_queued c.state && leb c.run_after now)) [
  | inl t ↦ inl (queued_state c.state (ground (arith, t)), ground (arith, t))
  | inr f ↦ inr (
    leased_state c.state (ground (arith, h, f)),
    past_deadline c.lease_expires_at now (ground (arith, h, f)),
  )
]

-- Not free for this claimer, or no earlier than `c`.
abbrev pub IsPassedOver : (ℕ → Bool) → ℕ → List TaskType → Option ℕ → TaskRow → TaskRow → Type 0
IsPassedOver locked now cs w c q =
    (locked q.id ≡ true)
    ⊎ (has_capability cs q.capability ≡ false)
    ⊎ (is_claimable now q ≡ false)
    ⊎ (in_workspace w q ≡ false)
    ⊎ IsNoLater c q

kept-IsPassedOver :
    (locked : ℕ → Bool) (now : ℕ) (cs : List TaskType) (w : Option ℕ) (c : TaskRow)
    (tasks : List TaskRow)
    → IsFirst c (keep (is_candidate locked now cs w) tasks)
    → All (IsPassedOver locked now cs w c) tasks
unfolding is_candidate
kept-IsPassedOver locked now cs w c [] h = tt
kept-IsPassedOver locked now cs w c (q ∷ qs) h =
    elim (Bool-cases (is_candidate locked now cs w q)) [
      | inl t ↦
          let both = rw t at h in
          (
            inr (inr (inr (inr (before-IsNoLater c q both.0)))),
            kept-IsPassedOver locked now cs w c qs both.1,
          )
      | inr f ↦ (
        missed_one (locked q.id) (has_capability cs q.capability) (is_claimable now q)
            (in_workspace w q) (IsNoLater c q) f,
        kept-IsPassedOver locked now cs w c qs (rw f at h),
      )
    ]

earlier-IsFirst :
    (r : TaskRow) (rs : List TaskRow) (o : Option TaskRow)
    → first_of_rows rs ≡ o
    → ((b : TaskRow) → first_of_rows rs ≡ some b → IsFirst b rs)
    → IsFirst (earlier r o) (r ∷ rs)
unfolding first_of_rows
earlier-IsFirst r [] none e h = (comes_before_irrefl r, tt)
earlier-IsFirst r (q ∷ rs) none e h = cc
earlier-IsFirst r rs (some b) e h = elim (Bool-cases (comes_before b r)) [
  | inl t ↦
      subst (λ (x : TaskRow). IsFirst x (r ∷ rs)) (sym (if-true b r t))
        (comes_before_asymm b r t, h b e)
  | inr f ↦
      subst (λ (x : TaskRow). IsFirst x (r ∷ rs)) (sym (if-false b r f))
        (comes_before_irrefl r, IsFirst-weaken r b rs f (h b e))
]

first_of_rows-IsFirst : (rs : List TaskRow) (c : TaskRow) → first_of_rows rs ≡ some c → IsFirst c rs
unfolding first_of_rows
first_of_rows-IsFirst [] c e = cc
first_of_rows-IsFirst (r ∷ rs) c e =
    let same : earlier r (first_of_rows rs) ≡ c = cc in
    subst (λ (x : TaskRow). IsFirst x (r ∷ rs)) same
      (earlier-IsFirst r rs (first_of_rows rs) refl (first_of_rows-IsFirst rs))

candidate_tests :
    (locked : ℕ → Bool) (now : ℕ) (cs : List TaskType) (w : Option ℕ) (c : TaskRow)
    → is_candidate locked now cs w c ≡ true
    → (locked c.id ≡ false)
      × (has_capability cs c.capability ≡ true)
      × (is_claimable now c ≡ true)
      × (in_workspace w c ≡ true)
unfolding is_candidate
candidate_tests locked now cs w c h = ground arith

none_first : (rs : List TaskRow) → first_of_rows rs ≡ none → rs ≡ []
unfolding first_of_rows
none_first [] e = refl
none_first (r ∷ rs) e = cc

-- The selected row is one of the table, not locked by another transaction, within the claimer's
-- capabilities and workspace, and claimable now: waiting and due, or under a lease that has run out. Any
-- row that the claimer could have instead is due later, or due at the same time and made no earlier.
pub select_claim_candidate_lem :
    (locked : ℕ → Bool) (now : ℕ) (cs : List TaskType) (w : Option ℕ) (tasks : List TaskRow)
    {c : TaskRow}
    → select_claim_candidate locked now cs w tasks ≡ some c
    → Memᴰ c tasks
      × (locked c.id ≡ false)
      × (has_capability cs c.capability ≡ true)
      × (is_claimable now c ≡ true)
      × (in_workspace w c ≡ true)
      × IsDue now c
      × All (IsPassedOver locked now cs w c) tasks
unfolding select_claim_candidate
select_claim_candidate_lem locked now cs w tasks {c} e =
    let found = keep-Memᴰ _ tasks (first_of_rows-Memᴰ _ c e) in
    let tests = candidate_tests locked now cs w c found.1 in
    (
      found.0,
      tests.0,
      tests.1,
      tests.2,
      tests.3,
      claimable-IsDue now c tests.2,
      kept-IsPassedOver locked now cs w c tasks (first_of_rows-IsFirst _ c e),
    )

-- No row is selected only where there is no candidate.
pub select_claim_candidate-eq-none :
    (locked : ℕ → Bool) (now : ℕ) (cs : List TaskType) (w : Option ℕ) (tasks : List TaskRow)
    → select_claim_candidate locked now cs w tasks ≡ none
    → keep (is_candidate locked now cs w) tasks ≡ []
unfolding select_claim_candidate
select_claim_candidate-eq-none locked now cs w tasks e = none_first _ e
