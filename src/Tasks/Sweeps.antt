-- ===== src/Tasks/Sweeps.antt =====
-- A sweep that finds a stale upload beside a committed one.
use octopus_job_search.Base.{ℕ, ◌+◌, ◌≡◌, refl, true, false, some, [], ◌∷◌}
use octopus_job_search.Base.Text.{Text, codes}
use octopus_job_search.Tasks.Types.{TaskArtifact, FileRow, staging}
use octopus_job_search.Tasks.Staging.{
  is_stale, Holdings, sweep_file, sweep_files, sweep_stale_artifacts,
}
use octopus_job_search.Tasks.Swept.{IsSwept, sweep_stale_artifacts-IsSwept}

abbrev upload : FileRow
upload = record {
  id = 1;
  workspace_id = 7;
  purpose = codes "artifact";
  original_name = codes "cv.pdf";
  mime = codes "application/pdf";
  bytes = 10;
  sha256 = 99;
  storage_key = codes "a";
  state = staging;
  expires_at = some 100;
  updated_at = 0;
}

abbrev committed_upload : FileRow
committed_upload = record upload { id = 2; storage_key = codes "b" }

abbrev artifact : TaskArtifact
artifact = record {
  id = 1;
  workspace_id = 7;
  task_id = 3;
  file_id = 1;
  lease_token_hash = 8;
  committed = false;
  updated_at = 0;
}

-- A store that counts the deletions.
abbrev count_deletion : Text → ℕ → ℕ
count_deletion key n = n + 1

abbrev uploads : Holdings ℕ
uploads = record {
  files = upload ∷ committed_upload ∷ [];
  artifacts = artifact ∷ (record artifact { id = 2; file_id = 2; committed = true }) ∷ [];
  objects = 0;
}

one_swept : sweep_stale_artifacts count_deletion 200 uploads ≡ (
  1,
  record {
    files = committed_upload ∷ [];
    artifacts = (record artifact { id = 2; file_id = 2; committed = true }) ∷ [];
    objects = 1;
  },
)
unfolding sweep_stale_artifacts sweep_files sweep_file is_stale
one_swept = refl

none_swept_early : sweep_stale_artifacts count_deletion 99 uploads ≡ (0, uploads)
unfolding sweep_stale_artifacts sweep_files sweep_file is_stale
none_swept_early = refl

sweep_stale_artifacts-IsSwept_example :
    IsSwept 200 uploads (sweep_stale_artifacts count_deletion 200 uploads).1
sweep_stale_artifacts-IsSwept_example = sweep_stale_artifacts-IsSwept count_deletion 200 uploads
