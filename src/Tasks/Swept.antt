-- ===== src/Tasks/Swept.antt =====
-- What `sweepStaleArtifacts` of apps/api/src/tasks/scheduler.ts takes out of the tables.
use mathlib.Core.List.{Memᴰ}
use octopus_job_search.Base.{
  ℕ, zero, suc, ◌≡◌, refl, sym, ap, ◌∙◌, Bool, true, false, not, List, [], ◌∷◌, arith, inl, inr,
}
use octopus_job_search.Base.Tests.{◌==◌, ==_iff, Bool-cases}
use octopus_job_search.Base.Lists.{keep, take, keep-Memᴰ}
use octopus_job_search.Base.Text.{Text}
use octopus_job_search.Tasks.Types.{TaskArtifact, FileRow}
use octopus_job_search.Tasks.Staging.{
  is_committed, is_stale, Holdings, sweep_file, sweep_files, sweep_stale_artifacts,
}

Memᴰ-keep :
    {A : Type 0} (p : A → Bool) (xs : List A) {a : A} → Memᴰ a xs → p a ≡ true → Memᴰ a (keep p xs)
Memᴰ-keep p [] m e = elim m [ ]
Memᴰ-keep p (x ∷ xs) (Memᴰ.head h) e = let t : p x ≡ true = ap p (sym h) ∙ e in rw t (Memᴰ.head h)
Memᴰ-keep p (x ∷ xs) (Memᴰ.tail m) e =
    let later = Memᴰ-keep p xs m e in
    elim (Bool-cases (p x)) [ inl t ↦ rw t (Memᴰ.tail later) | inr f ↦ rw f later ]

take-Memᴰ : {A : Type 0} (n : ℕ) (xs : List A) {a : A} → Memᴰ a (take n xs) → Memᴰ a xs
take-Memᴰ zero xs m = elim m [ ]
take-Memᴰ (suc n) [] m = elim m [ ]
take-Memᴰ (suc n) (x ∷ xs) (Memᴰ.head h) = Memᴰ.head h
take-Memᴰ (suc n) (x ∷ xs) (Memᴰ.tail m) = Memᴰ.tail (take-Memᴰ n xs m)

stale-uncommitted :
    (now : ℕ) (artifacts : List TaskArtifact) (f : FileRow)
    → is_stale now artifacts f ≡ true
    → is_committed artifacts f.id ≡ false
unfolding is_stale
stale-uncommitted now artifacts f e = ground (arith, e)

-- A committed artifact is one of its file's.
committed-is_committed :
    (artifacts : List TaskArtifact) {a : TaskArtifact}
    → Memᴰ a artifacts
    → a.committed ≡ true
    → is_committed artifacts a.file_id ≡ true
committed-is_committed [] m c = elim m [ ]
committed-is_committed (x ∷ xs) {a} (Memᴰ.head h) c =
    let t : x.committed ≡ true = ap (λ (q : TaskArtifact). q.committed) (sym h) ∙ c in
    let s : x.file_id ≡ a.file_id = ap (λ (q : TaskArtifact). q.file_id) (sym h) in
    ground (arith, t, s)
committed-is_committed (x ∷ xs) (Memᴰ.tail m) c = rw (committed-is_committed xs m c) (ground arith)

-- What a sweep at `now` makes of the tables.
pub record IsSwept {S : Type 0} (now : ℕ) (h k : Holdings S) : Type 0 where
  pub files_known : (f : FileRow) → Memᴰ f k.files → Memᴰ f h.files
  pub files_kept :
      (f : FileRow)
      → Memᴰ f h.files
      → ((g : FileRow) → Memᴰ g h.files → g.id ≡ f.id → is_stale now h.artifacts g ≡ false)
      → Memᴰ f k.files
  pub artifacts_known : (a : TaskArtifact) → Memᴰ a k.artifacts → Memᴰ a h.artifacts
  pub committed_kept :
      (a : TaskArtifact) → Memᴰ a h.artifacts → a.committed ≡ true → Memᴰ a k.artifacts
  pub swept :
      (f g : FileRow)
      → Memᴰ f k.files
      → Memᴰ g (take 500 (keep (is_stale now h.artifacts) h.files))
      → (f.id == g.id) ≡ false

module _ {S : Type 0} (delete_object : Text → S → S) where
  files_known :
      (stale : List FileRow) (n : ℕ) (h : Holdings S) {f : FileRow}
      → Memᴰ f (sweep_files delete_object stale n h).1.files
      → Memᴰ f h.files
  unfolding sweep_files sweep_file
  files_known [] n h m = m
  files_known (file ∷ stale) n h m = (keep-Memᴰ _ h.files (files_known stale _ _ m)).0

  artifacts_known :
      (stale : List FileRow) (n : ℕ) (h : Holdings S) {a : TaskArtifact}
      → Memᴰ a (sweep_files delete_object stale n h).1.artifacts
      → Memᴰ a h.artifacts
  unfolding sweep_files sweep_file
  artifacts_known [] n h m = m
  artifacts_known (file ∷ stale) n h m = (keep-Memᴰ _ h.artifacts (artifacts_known stale _ _ m)).0

  -- Rows of other files stay.
  files_kept :
      (stale : List FileRow) (n : ℕ) (h : Holdings S) {f : FileRow}
      → ((g : FileRow) → Memᴰ g stale → (f.id == g.id) ≡ false)
      → Memᴰ f h.files
      → Memᴰ f (sweep_files delete_object stale n h).1.files
  unfolding sweep_files sweep_file
  files_kept [] n h other m = m
  files_kept (file ∷ stale) n h other m =
      files_kept stale _ _ (λ g l. other g (Memᴰ.tail l))
        (Memᴰ-keep _ h.files m (ap not (other file (Memᴰ.head refl))))

  artifacts_kept :
      (stale : List FileRow) (n : ℕ) (h : Holdings S) {a : TaskArtifact}
      → ((g : FileRow) → Memᴰ g stale → (a.file_id == g.id) ≡ false)
      → Memᴰ a h.artifacts
      → Memᴰ a (sweep_files delete_object stale n h).1.artifacts
  unfolding sweep_files sweep_file
  artifacts_kept [] n h other m = m
  artifacts_kept (file ∷ stale) n h other m =
      artifacts_kept stale _ _ (λ g l. other g (Memᴰ.tail l))
        (Memᴰ-keep _ h.artifacts m (ap not (other file (Memᴰ.head refl))))

  -- No row of a file that was swept is left.
  files_gone :
      (stale : List FileRow) (n : ℕ) (h : Holdings S) {f g : FileRow}
      → Memᴰ f (sweep_files delete_object stale n h).1.files
      → Memᴰ g stale
      → (f.id == g.id) ≡ false
  unfolding sweep_files sweep_file
  files_gone [] n h m l = elim l [ ]
  files_gone (file ∷ stale) n h {f} {g} m (Memᴰ.head e) =
      let out =
        (keep-Memᴰ (λ (q : FileRow). not (q.id == file.id)) h.files (files_known stale _ _ m)).1 in
      rw e (ground (arith, out))
  files_gone (file ∷ stale) n h m (Memᴰ.tail l) = files_gone stale _ _ m l

  -- A sweep takes out only rows of stale files: what it leaves was there; a file stays whose id is no
  -- stale file's, and so does every committed artifact. No row with the id of one of the first 500
  -- stale files is left.
  pub sweep_stale_artifacts-IsSwept :
      (now : ℕ) (h : Holdings S) → IsSwept now h (sweep_stale_artifacts delete_object now h).1
  unfolding sweep_stale_artifacts
  sweep_stale_artifacts-IsSwept now h =
      let p = is_stale now h.artifacts in
      let stale = take 500 (keep p h.files) in
      let known = λ (g : FileRow) (l : Memᴰ g stale).
        keep-Memᴰ p h.files (take-Memᴰ 500 (keep p h.files) l) in
      record {
        files_known = λ f m. files_known stale 0 h m;
        files_kept = λ f m other.
            files_kept stale 0 h
              (λ g l. elim (Bool-cases (f.id == g.id)) [
                | inl t ↦
                    let fresh = other g (known g l).0 (sym ((==_iff f.id g.id).0 t)) in
                    let old = (known g l).1 in cc
                | inr n ↦ n
              ])
              m;
        artifacts_known = λ a m. artifacts_known stale 0 h m;
        committed_kept = λ a m c.
            artifacts_kept stale 0 h
              (λ g l. elim (Bool-cases (a.file_id == g.id)) [
                | inl t ↦
                    let same = (==_iff a.file_id g.id).0 t in
                    let kept : is_committed h.artifacts g.id ≡ true =
                      ap (is_committed h.artifacts) (sym same)
                      ∙ committed-is_committed h.artifacts m c in
                    let free = stale-uncommitted now h.artifacts g (known g l).1 in cc
                | inr n ↦ n
              ])
              m;
        swept = λ f g m l. files_gone stale 0 h m l;
      }
