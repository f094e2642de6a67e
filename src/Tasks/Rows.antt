-- ===== src/Tasks/Rows.antt =====
-- One write to one row of the task table, and what it does to the table. The id is the primary key.
use mathlib.Core.List.{Memᴰ}
use octopus_job_search.Base.{
  ℕ, ◌≤◌, ◌<◌, ◌≡◌, refl, sym, ap, ◌∙◌, ◌≢◌, Bool, true, false, none, some, List, [], ◌∷◌, arith,
  inl, inr,
}
use octopus_job_search.Base.Tests.{◌==◌, ==_iff, is_some, Bool-cases}
use octopus_job_search.Base.Lists.{All, All-Memᴰ, find-Memᴰ}
use octopus_job_search.Tasks.Types.{TaskRow, TaskState, queued, leased}
use octopus_job_search.Tasks.Store.{update_task, task_by_id}
use octopus_job_search.Tasks.Retry.{no_retry}
use octopus_job_search.Tasks.Lease.{is_leased, is_queued}

abbrev pub is_terminal : TaskState → Bool
is_terminal queued = false
is_terminal leased = false
is_terminal _ = true

-- What holds of a row between two transactions.
pub record IsSound (r : TaskRow) : Type 0 where
  pub queued_budget : r.state ≡ queued → r.attempt < r.max_attempts
  pub leased_budget : r.state ≡ leased → r.attempt ≤ r.max_attempts
  pub held :
      r.state ≡ leased → (is_some r.lease_token_hash ≡ true) × (is_some r.lease_expires_at ≡ true)
  pub cleared :
      is_leased r.state ≡ false
      → (r.lease_token_hash ≡ none) × (r.lease_expires_at ≡ none) × (r.leased_by ≡ none)
  pub first_claim : no_retry r.type ≡ true → r.state ≡ queued → r.attempt ≡ 0
  pub one_claim : no_retry r.type ≡ true → r.attempt ≤ 1

-- What a row may become.
pub record Evolves (r t : TaskRow) : Type 0 where
  pub same_id : t.id ≡ r.id
  pub same_type : t.type ≡ r.type
  pub same_workspace : t.workspace_id ≡ r.workspace_id
  pub same_max : t.max_attempts ≡ r.max_attempts
  pub attempt_grows : r.attempt ≤ t.attempt
  pub final : is_terminal r.state ≡ true → t ≡ r
  pub not_repeated :
      no_retry r.type ≡ true
      → is_queued r.state ≡ false
      → (is_queued t.state ≡ false) × (t.attempt ≡ r.attempt)
  pub sound : IsSound r → IsSound t

pub Evolves-refl : (r : TaskRow) → Evolves r r
Evolves-refl r = record {
  same_id = refl;
  same_type = refl;
  same_workspace = refl;
  same_max = refl;
  attempt_grows = omega arith;
  final = λ _. refl;
  not_repeated = λ _ q. (q, refl);
  sound = λ s. s;
}

Evolves-trans : (r t u : TaskRow) → Evolves r t → Evolves t u → Evolves r u
Evolves-trans r t u e f = record {
  same_id = f.same_id ∙ e.same_id;
  same_type = f.same_type ∙ e.same_type;
  same_workspace = f.same_workspace ∙ e.same_workspace;
  same_max = f.same_max ∙ e.same_max;
  attempt_grows = omega arith;
  final = λ h.
      let back : t ≡ r = e.final h in
      f.final (ap (λ (q : TaskRow). is_terminal q.state) back ∙ h) ∙ back;
  not_repeated = λ n q.
      let first = e.not_repeated n q in
      let second = f.not_repeated (ap no_retry e.same_type ∙ n) first.0 in
      (second.0, second.1 ∙ first.1);
  sound = λ s. f.sound (e.sound s);
}

-- The same for two tables, row by row.
abbrev pub Evolution : List TaskRow → List TaskRow → Type 0
Evolution [] [] = Unit {0}
Evolution [] (t ∷ ts) = ⊥
Evolution (r ∷ rs) [] = ⊥
Evolution (r ∷ rs) (t ∷ ts) = Evolves r t × Evolution rs ts

pub Evolution-refl : (rs : List TaskRow) → Evolution rs rs
Evolution-refl [] = tt
Evolution-refl (r ∷ rs) = (Evolves-refl r, Evolution-refl rs)

pub Evolution-trans :
    (rs ts us : List TaskRow) → Evolution rs ts → Evolution ts us → Evolution rs us
Evolution-trans [] [] us e f = f
Evolution-trans [] (t ∷ ts) us e f = absurd e
Evolution-trans (r ∷ rs) [] us e f = absurd e
Evolution-trans (r ∷ rs) (t ∷ ts) [] e f = absurd f
Evolution-trans (r ∷ rs) (t ∷ ts) (u ∷ us) e f =
    (Evolves-trans r t u e.0 f.0, Evolution-trans rs ts us e.1 f.1)

-- No two rows have one id.
abbrev pub IsKeyed : List TaskRow → Type 0
IsKeyed [] = Unit {0}
IsKeyed (r ∷ rs) = All (λ q. q.id ≢ r.id) rs × IsKeyed rs

pub Evolution-All : (rs ts : List TaskRow) → Evolution rs ts → All IsSound rs → All IsSound ts
Evolution-All [] [] e h = tt
Evolution-All [] (t ∷ ts) e h = absurd e
Evolution-All (r ∷ rs) [] e h = absurd e
Evolution-All (r ∷ rs) (t ∷ ts) e h = (e.0.sound h.0, Evolution-All rs ts e.1 h.1)

apart_later :
    (id : ℕ) (rs ts : List TaskRow)
    → Evolution rs ts
    → All (λ q. q.id ≢ id) rs
    → All (λ q. q.id ≢ id) ts
apart_later id [] [] e h = tt
apart_later id [] (t ∷ ts) e h = absurd e
apart_later id (r ∷ rs) [] e h = absurd e
apart_later id (r ∷ rs) (t ∷ ts) e h =
    ((λ p. h.0 (sym e.0.same_id ∙ p)), apart_later id rs ts e.1 h.1)

pub Evolution-IsKeyed : (rs ts : List TaskRow) → Evolution rs ts → IsKeyed rs → IsKeyed ts
Evolution-IsKeyed [] [] e h = tt
Evolution-IsKeyed [] (t ∷ ts) e h = absurd e
Evolution-IsKeyed (r ∷ rs) [] e h = absurd e
Evolution-IsKeyed (r ∷ rs) (t ∷ ts) e h =
    (rw e.0.same_id (apart_later r.id rs ts e.1 h.0), Evolution-IsKeyed rs ts e.1 h.1)

-- The row that an id finds after a write to it.
pub task_by_id-update-found :
    (id : ℕ) (f : TaskRow → TaskRow) (rs : List TaskRow) {c : TaskRow}
    → task_by_id id rs ≡ some c
    → (f c).id ≡ id
    → task_by_id id (update_task id f rs) ≡ some (f c)
unfolding update_task
task_by_id-update-found id f [] e h = cc
task_by_id-update-found id f (r ∷ rs) {c} e h = elim (Bool-cases (r.id == id)) [
  | inl t ↦
      let found : some r ≡ some c = rw t at e in
      let same : r ≡ c = cc in rw (t, same, (==_iff (f c).id id).1 h) refl
  | inr n ↦ rw (n, n) (task_by_id-update-found id f rs (rw n at e) h)
]

-- A write that names an absent id changes nothing.
update_absent :
    (id : ℕ) (f : TaskRow → TaskRow) (rs : List TaskRow)
    → All (λ q. q.id ≢ id) rs
    → update_task id f rs ≡ rs
unfolding update_task
update_absent id f [] h = refl
update_absent id f (r ∷ rs) h = ground (arith, h.0, update_absent id f rs h.1)

-- One write to one row: what that row may become, the table may.
pub update-Evolution :
    (c : TaskRow) (f : TaskRow → TaskRow) (rs : List TaskRow)
    → IsKeyed rs
    → Memᴰ c rs
    → Evolves c (f c)
    → Evolution rs (update_task c.id f rs)
unfolding update_task
update-Evolution c f [] k m v = elim m [ ]
update-Evolution c f (r ∷ rs) k (Memᴰ.head e) v =
    rw (← e, (==_iff c.id c.id).1 refl, update_absent c.id f rs (rw e k.0)) (v, Evolution-refl rs)
update-Evolution c f (r ∷ rs) k (Memᴰ.tail m) v =
    let other : c.id ≢ r.id = All-Memᴰ (λ q. q.id ≢ r.id) rs k.0 m in
    let missed : (r.id == c.id) ≡ false = ground arith in
    rw missed (Evolves-refl r, update-Evolution c f rs k.1 m v)

pub task_by_id-Memᴰ :
    (id : ℕ) (rs : List TaskRow) {c : TaskRow} → task_by_id id rs ≡ some c → Memᴰ c rs × (c.id ≡ id)
task_by_id-Memᴰ id rs {c} e =
    let found = find-Memᴰ (λ r. r.id == id) rs e in (found.0, (==_iff c.id id).0 found.1)
