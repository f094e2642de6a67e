-- ===== src/Workspace/Examples.antt =====
-- An archive of two small files.
use octopus_job_search.Base.{ℕ, ◌≤◌, ◌≡◌, refl, some, List, [], ◌∷◌, ◌++◌, map, arith}
use octopus_job_search.Base.Text.{codes}
use octopus_job_search.Workspace.Zip.{
  ZipEntry, built, local_header, central_header, end_record, total_bytes, write_entries, finish,
  build_zip,
}
use octopus_job_search.Workspace.Reader.{read_zip}
use octopus_job_search.Workspace.Entries.{as_read}
use octopus_job_search.Workspace.Archive.{read_zip-build_zip}
use octopus_job_search.Workspace.Bounds.{build_zip-built}

-- Paths in ASCII, and a checksum that adds nothing up.
abbrev utf8 : List ℕ → List ℕ
utf8 path = path

abbrev crc32 : List ℕ → ℕ
crc32 contents = 3735928559

abbrev entries : List ZipEntry
entries =
    record { path = codes "a"; contents = 1 ∷ 2 ∷ [] }
    ∷ record { path = codes "b/c"; contents = 255 ∷ [] }
    ∷ []

abbrev archive : List ℕ
archive =
    local_header 2 1 3735928559 (97 ∷ 1 ∷ 2 ∷ local_header 1 3 3735928559 (98 ∷ 47 ∷ 99 ∷ 255 ∷ []))
    ++ (central_header 2 1 3735928559 0 (97 ∷ central_header 1 3 3735928559 33 (98 ∷ 47 ∷ 99 ∷ []))
        ++ end_record 2 96 67)

builds : build_zip utf8 crc32 entries ≡ built archive
unfolding build_zip total_bytes write_entries finish local_header central_header end_record
builds = refl

read_zip-build_zip_example : read_zip archive ≡ some (map (as_read utf8 crc32) entries)
read_zip-build_zip_example = read_zip-build_zip utf8 crc32 entries builds

checksum_bound : (contents : List ℕ) → crc32 contents ≤ 4294967295
checksum_bound contents = omega arith

light : total_bytes entries ≤ 1073741824
unfolding total_bytes
light = omega arith

build_zip-built_example : (bytes : List ℕ) × (build_zip utf8 crc32 entries ≡ built bytes)
build_zip-built_example =
    build_zip-built utf8 crc32 checksum_bound entries (omega arith, (omega arith, tt)) (omega arith)
      light
