-- ===== src/Workspace/Zip.antt =====
-- `buildZip` of apps/api/src/workspace/zip.ts. A buffer is the list of its bytes; the fields of a
-- header are written one after the other, so a header is their concatenation, and a value that its
-- field cannot hold throws. `utf8` is the encoding of a path and `crc32` the checksum of node:zlib.
use octopus_job_search.Base.{
  ℕ, ◌+◌, ◌*◌, ◌/◌, ◌%◌, Bool, ◌&&◌, Option, none, some, List, [], ◌∷◌, ◌++◌,
}
use octopus_job_search.Base.Tests.{leb, ltb, if◌then◌else◌}
use octopus_job_search.Base.Lists.{length}
use octopus_job_search.Base.Text.{Text}

pub record ZipEntry : Type 0 where
  pub path : Text
  pub contents : List ℕ

abbrev pub max_entries : ℕ
max_entries = 10000

abbrev pub max_total_bytes : ℕ
max_total_bytes = 1024 * 1024 * 1024

pub data ZipError : Type 0 where
  too_many_entries too_many_bytes out_of_range : ZipError

pub data ZipResult : Type 0 where
  built : List ℕ → ZipResult
  failed : ZipError → ZipResult

-- The bytes that `writeUInt16LE` and `writeUInt32LE` write, and the values that they accept.
abbrev pub le16 : ℕ → List ℕ → List ℕ
le16 n rest = n % 256 ∷ n / 256 % 256 ∷ rest

abbrev pub le32 : ℕ → List ℕ → List ℕ
le32 n rest = n % 256 ∷ n / 256 % 256 ∷ n / 65536 % 256 ∷ n / 16777216 % 256 ∷ rest

abbrev pub in_u16 : ℕ → Bool
in_u16 n = leb n 65535

abbrev pub in_u32 : ℕ → Bool
in_u32 n = leb n 4294967295

abbrev pub dos_time : ℕ
dos_time = 0

-- `(1 << 5) | 1`.
abbrev pub dos_date : ℕ
dos_date = 33

-- The three values of a local header that may be out of range.
abbrev pub fits_local : ℕ → ℕ → ℕ → Bool
fits_local size name checksum = in_u32 checksum && (in_u32 size && in_u16 name)

-- In front of `rest`.
unfoldable pub local_header : ℕ → ℕ → ℕ → List ℕ → List ℕ
local_header size name checksum rest = le32 0x04034b50 (
    le16 20 (
      le16 0 (
        le16 0 (
          le16 dos_time
            (le16 dos_date (le32 checksum (le32 size (le32 size (le16 name (le16 0 rest))))))))))

unfoldable pub central_header : ℕ → ℕ → ℕ → ℕ → List ℕ → List ℕ
central_header size name checksum offset rest = le32 0x02014b50 (
    le16 20 (
      le16 20 (
        le16 0 (
          le16 0 (
            le16 dos_time (
              le16 dos_date (
                le32 checksum (
                  le32 size (
                    le32 size (
                      le16 name
                        (le16 0 (le16 0 (le16 0 (le16 0 (le32 0 (le32 offset rest))))))))))))))))

unfoldable pub end_record : ℕ → ℕ → ℕ → List ℕ
end_record entries size offset =
    le32 0x06054b50
      (le16 0 (le16 0 (le16 entries (le16 entries (le32 size (le32 offset (le16 0 [])))))))

unfoldable pub total_bytes : List ZipEntry → ℕ
total_bytes [] = 0
total_bytes (e ∷ es) = length e.contents + total_bytes es

-- The parts, the central directory, and the offset where it begins.
pub record Written : Type 0 where
  pub parts : List ℕ
  pub central : List ℕ
  pub offset : ℕ

module _ (utf8 : Text → List ℕ) (crc32 : List ℕ → ℕ) where
  abbrev pub name_of : ZipEntry → List ℕ
  name_of e = utf8 e.path

  -- What an entry adds to the offset.
  abbrev pub entry_length : ZipEntry → ℕ
  entry_length e = 30 + length (name_of e) + length e.contents

  abbrev pub entry_part : ZipEntry → List ℕ → List ℕ
  entry_part e rest =
      local_header (length e.contents) (length (name_of e)) (crc32 e.contents)
        (name_of e ++ (e.contents ++ rest))

  abbrev pub entry_central : ZipEntry → ℕ → List ℕ → List ℕ
  entry_central e offset rest =
      central_header (length e.contents) (length (name_of e)) (crc32 e.contents) offset
        (name_of e ++ rest)

  abbrev pub prepend_entry : ZipEntry → ℕ → Option Written → Option Written
  prepend_entry e offset none = none
  prepend_entry e offset (some w) = some (record {
    parts = entry_part e w.parts;
    central = entry_central e offset w.central;
    offset = w.offset;
  })

  -- The loop over the entries, from an offset.
  unfoldable pub write_entries : List ZipEntry → ℕ → Option Written
  unfolding local_header central_header
  write_entries [] offset = some (record { parts = []; central = []; offset = offset })
  write_entries (e ∷ es) offset =
      let rest = write_entries es (offset + entry_length e) in
      if fits_local (length e.contents) (length (name_of e)) (crc32 e.contents) && in_u32 offset
      then prepend_entry e offset rest
      else none

  unfoldable pub finish : ℕ → Option Written → ZipResult
  unfolding end_record
  finish entries none = failed out_of_range
  finish entries (some w) =
      if in_u16 entries && (in_u32 (length w.central) && in_u32 w.offset)
      then built (w.parts ++ (w.central ++ end_record entries (length w.central) w.offset))
      else failed out_of_range

  unfoldable pub build_zip : List ZipEntry → ZipResult
  unfolding total_bytes write_entries finish
  build_zip entries =
      if ltb max_entries (length entries)
      then failed too_many_entries
      else if ltb max_total_bytes (total_bytes entries)
      then failed too_many_bytes
      else finish (length entries) (write_entries entries 0)
