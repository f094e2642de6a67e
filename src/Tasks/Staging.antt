-- ===== src/Tasks/Staging.antt =====
-- `sweepStaleArtifacts` of apps/api/src/tasks/scheduler.ts. The object store is an argument: its
-- deletion gives the store after it, whether or not it succeeded, as the code ignores its errors. The
-- statements of one sweep run without another's in between.
use octopus_job_search.Base.{
  ℕ, ◌+◌, Bool, true, false, not, ◌&&◌, Option, none, some, List, [], ◌∷◌,
}
use octopus_job_search.Base.Tests.{◌==◌, leb}
use octopus_job_search.Base.Lists.{keep, take, any, length}
use octopus_job_search.Base.Text.{Text}
use octopus_job_search.Tasks.Types.{TaskArtifact, FileRow, FileState, staging, ready}

abbrev is_staging : FileState → Bool
is_staging staging = true
is_staging ready = false

abbrev has_run_out : ℕ → Option ℕ → Bool
has_run_out now none = false
has_run_out now (some deadline) = leb deadline now

-- The `exists` of the query.
abbrev pub is_committed : List TaskArtifact → ℕ → Bool
is_committed artifacts id = any (λ (a : TaskArtifact). a.file_id == id && a.committed) artifacts

unfoldable pub is_stale : ℕ → List TaskArtifact → FileRow → Bool
is_stale now artifacts f =
    is_staging f.state && (has_run_out now f.expires_at && not (is_committed artifacts f.id))

-- The tables of the sweep, with the store of the objects.
pub record Holdings (S : Type 0) : Type 0 where
  pub files : List FileRow
  pub artifacts : List TaskArtifact
  pub objects : S

module _ {S : Type 0} (delete_object : Text → S → S) where
  -- One round of the loop.
  unfoldable pub sweep_file : FileRow → Holdings S → Holdings S
  sweep_file file h = record {
    files = keep (λ (f : FileRow). not (f.id == file.id)) h.files;
    artifacts = keep (λ (a : TaskArtifact). not (a.file_id == file.id)) h.artifacts;
    objects = delete_object file.storage_key h.objects;
  }

  -- The rows that a deletion of the file takes out.
  abbrev deleted_rows : FileRow → List FileRow → ℕ
  deleted_rows file files = length (keep (λ (f : FileRow). f.id == file.id) files)

  unfoldable pub sweep_files : List FileRow → ℕ → Holdings S → ℕ × Holdings S
  unfolding sweep_file
  sweep_files [] deleted h = (deleted, h)
  sweep_files (file ∷ stale) deleted h =
      sweep_files stale (deleted + deleted_rows file h.files) (sweep_file file h)

  unfoldable pub sweep_stale_artifacts : ℕ → Holdings S → ℕ × Holdings S
  unfolding sweep_files is_stale
  sweep_stale_artifacts now h = sweep_files (take 500 (keep (is_stale now h.artifacts) h.files)) 0 h
