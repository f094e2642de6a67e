-- ===== src/Workspace/Bounds.antt =====
-- That `buildZip` of apps/api/src/workspace/zip.ts refuses by its two limits only.
use octopus_job_search.Base.{
  ℕ, ◌+◌, ◌*◌, ◌≤◌, ◌≡◌, refl, true, false, ◌&&◌, some, List, [], ◌∷◌, arith,
}
use octopus_job_search.Base.Tests.{ltb}
use octopus_job_search.Base.Lists.{length, length-append, All}
use octopus_job_search.Base.Text.{Text}
use octopus_job_search.Workspace.Zip.{
  ZipEntry, built, max_entries, max_total_bytes, in_u16, in_u32, fits_local, central_header,
  total_bytes, Written, name_of, entry_length, entry_part, entry_central, write_entries, finish,
  build_zip,
}

module _ (utf8 : Text → List ℕ) (crc32 : List ℕ → ℕ) where
  -- The encoded path is at most as long as its field can say.
  abbrev pub HasShortName : ZipEntry → Type 0
  HasShortName e = length (name_of utf8 crc32 e) ≤ 65535

  length-entry_central :
      (e : ZipEntry) (offset : ℕ) (rest : List ℕ)
      → length (entry_central utf8 crc32 e offset rest)
        ≡ 46 + length (name_of utf8 crc32 e) + length rest
  unfolding central_header
  length-entry_central e offset rest = omega (arith, length-append (name_of utf8 crc32 e) rest)

  -- What so many entries of so many bytes can come to.
  record IsSmall (n total offset : ℕ) (w : Written) : Type 0 where
    central : length w.central ≤ n * 65581
    at : w.offset ≤ offset + n * 65565 + total

  write_entries-IsSmall :
      ((contents : List ℕ) → crc32 contents ≤ 4294967295)
      → (es : List ZipEntry) (offset : ℕ) → All HasShortName es
      → offset + length es * 65565 + total_bytes es ≤ 4294967295
      → (w : Written) × (write_entries utf8 crc32 es offset ≡ some w)
        × IsSmall (length es) (total_bytes es) offset w
  unfolding write_entries total_bytes
  write_entries-IsSmall sums [] offset short h =
      (_, refl, record { central = omega arith; at = omega arith })
  write_entries-IsSmall sums (e ∷ es) offset short h =
      let (w, rest, small) =
        write_entries-IsSmall sums es (offset + entry_length utf8 crc32 e) short.1
          (omega (arith, h, short.0)) in
      let fits : (fits_local (length e.contents) (length (name_of utf8 crc32 e)) (crc32 e.contents)
            && in_u32 offset)
          ≡ true =
        ground (arith, sums e.contents, h, short.0) in
      (
        record {
          parts = entry_part utf8 crc32 e w.parts;
          central = entry_central utf8 crc32 e offset w.central;
          offset = w.offset;
        },
        rw (fits, rest) refl,
        record {
          central = omega (arith, length-entry_central e offset w.central, small.central, short.0);
          at = omega (arith, small.at, short.0);
        },
      )

  -- Where the checksum is a number of 32 bits and every encoded path has 65535 bytes at most, an
  -- archive of at most 10000 entries and 1 GiB of contents is built: no count, size or offset is too
  -- large for its field.
  pub build_zip-built :
      ((contents : List ℕ) → crc32 contents ≤ 4294967295)
      → (entries : List ZipEntry) → All HasShortName entries
      → length entries ≤ max_entries
      → total_bytes entries ≤ max_total_bytes
      → (bytes : List ℕ) × (build_zip utf8 crc32 entries ≡ built bytes)
  unfolding build_zip finish
  build_zip-built sums entries short few light =
      let (w, wrote, small) =
        write_entries-IsSmall sums entries 0 short (omega (arith, few, light)) in
      let few_ : ltb max_entries (length entries) ≡ false = ground (arith, few) in
      let light_ : ltb max_total_bytes (total_bytes entries) ≡ false = ground (arith, light) in
      let fits : (in_u16 (length entries) && (in_u32 (length w.central) && in_u32 w.offset))
          ≡ true =
        ground (arith, small.central, small.at, few, light) in
      rw (few_, light_, wrote, fits) (_, refl)
