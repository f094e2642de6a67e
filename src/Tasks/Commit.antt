-- ===== src/Tasks/Commit.antt =====
-- What a completion keeps of a worker's result and of its artifacts.
use mathlib.Core.List.{Memᴰ}
use octopus_job_search.Base.{
  ℕ, ◌≡◌, Bool, true, false, Option, none, some, List, [], ◌∷◌, ◌++◌, ◌⊎◌,
}
use octopus_job_search.Base.Tests.{or_else}
use octopus_job_search.Tasks.Types.{TaskRow, TaskArtifact, Json, succeeded, failed}
use octopus_job_search.Tasks.Store.{Store, Env, task_by_id, Extends}
use octopus_job_search.Tasks.Finish.{CompleteResult, staged_under, success_audit}

-- The artifacts of this lease are committed, and the others are as they were.
abbrev pub CommitsOwn : ℕ → TaskRow → ℕ → List TaskArtifact → List TaskArtifact → Type 0
CommitsOwn now task digest before after =
    (a : TaskArtifact)
    → Memᴰ a before
    → ((staged_under task digest a ≡ true)
        × Memᴰ (record a { committed = true; updated_at = now }) after)
      ⊎ ((staged_under task digest a ≡ false) × Memᴰ a after)

module _ {D : Type 0} (env : Env D) (now : ℕ) where
  abbrev pub Accepted : TaskRow → ℕ → Json → Store D → CompleteResult → Store D → Type 0
  Accepted task digest result s r t =
      (r.accepted ≡ true)
      × (r.task.result ≡ some result)
      × ((row : TaskRow) × (task_by_id task.id t.tasks ≡ some row)
          × (row.state ≡ succeeded)
          × (row.lease_token_hash ≡ none)
          × ((extended : Option Json) × Extends env r.task result s.domain extended
              × (row.result ≡ some (or_else extended result))))
      × CommitsOwn now task digest s.artifacts t.artifacts
      × (t.audits ≡ s.audits ++ success_audit task ∷ [])

  abbrev pub Rejected : TaskRow → Store D → CompleteResult → Store D → Type 0
  Rejected task s r t =
      (r.accepted ≡ false)
      × (r.task.state ≡ failed)
      × (task_by_id task.id t.tasks ≡ some r.task)
      × (t.artifacts ≡ s.artifacts)
      × (t.files ≡ s.files)
      × (t.audits ≡ s.audits)

  -- Accepted just where a schema is registered and the result matches it.
  abbrev pub IsJudged :
      TaskRow → ℕ → Json → Store D → Option (Json → Bool) → CompleteResult → Store D → Type 0
  IsJudged task digest result s none r t = Rejected task s r t
  IsJudged task digest result s (some check) r t =
      ((check result ≡ true) × Accepted task digest result s r t)
      ⊎ ((check result ≡ false) × Rejected task s r t)
