-- ===== src/Workspace/Archive.antt =====
-- What `buildZip` of apps/api/src/workspace/zip.ts writes, the reader reads back.
use octopus_job_search.Base.{
  ℕ, ◌+◌, ◌-◌, ◌≡◌, refl, sym, ap, subst, ◌∙◌, Bool, true, false, ◌&&◌, Option, none, some, List,
  [], ◌∷◌, ◌++◌, map, arith, inl, inr,
}
use octopus_job_search.Base.Tests.{ltb, if◌then◌else◌, Bool-cases}
use octopus_job_search.Base.Lists.{length, drop, length-append}
use octopus_job_search.Base.Text.{Text}
use octopus_job_search.Workspace.Zip.{
  ZipEntry, ZipError, built, failed, out_of_range, max_entries, max_total_bytes, in_u16, in_u32,
  local_header, central_header, end_record, total_bytes, Written, name_of, entry_length, entry_part,
  entry_central, write_entries, finish, build_zip,
}
use octopus_job_search.Workspace.Reader.{read_entry, read_central, read_from, read_zip, u32_at}
use octopus_job_search.Workspace.Entries.{
  append_assoc, drop-append, drop_add, value16, value32, some-injective, read_central-entry,
  drop-entry_part, write_entries-cons, as_read,
}

guard-built :
    (b : Bool) (l : List ℕ) {bytes : List ℕ}
    → (if b then built l else failed out_of_range) ≡ built bytes
    → (b ≡ true) × (l ≡ bytes)
guard-built true l h = (refl, cc)
guard-built false l h = cc

failed-ne : {r : ZipError} {b : List ℕ} → failed r ≡ built b → ⊥
failed-ne h = cc

module _ (utf8 : Text → List ℕ) (crc32 : List ℕ → ℕ) where
  entry_part-append :
      (e : ZipEntry) (rest tail : List ℕ)
      → entry_part utf8 crc32 e rest ++ tail ≡ entry_part utf8 crc32 e (rest ++ tail)
  unfolding local_header
  entry_part-append e rest tail =
      let name = name_of utf8 crc32 e in
      ap (local_header (length e.contents) (length name) (crc32 e.contents)) (
        append_assoc name (e.contents ++ rest) tail
        ∙ ap (λ l. name ++ l) (append_assoc e.contents rest tail))

  entry_central-append :
      (e : ZipEntry) (offset : ℕ) (rest tail : List ℕ)
      → entry_central utf8 crc32 e offset rest ++ tail
        ≡ entry_central utf8 crc32 e offset (rest ++ tail)
  unfolding central_header
  entry_central-append e offset rest tail =
      let name = name_of utf8 crc32 e in
      ap (central_header (length e.contents) (length name) (crc32 e.contents) offset)
        (append_assoc name rest tail)

  length-entry_part :
      (e : ZipEntry) (rest : List ℕ)
      → length (entry_part utf8 crc32 e rest) ≡ entry_length utf8 crc32 e + length rest
  unfolding local_header
  length-entry_part e rest = omega (
    arith,
    length-append (name_of utf8 crc32 e) (e.contents ++ rest),
    length-append e.contents rest,
  )

  -- The offset after the loop.
  write_entries-offset :
      (es : List ZipEntry) (offset : ℕ) {w : Written}
      → write_entries utf8 crc32 es offset ≡ some w
      → w.offset ≡ offset + length w.parts
  unfolding write_entries
  write_entries-offset [] offset h =
      let same = some-injective h in
      subst (λ w. w.offset ≡ offset + length w.parts) same (omega arith)
  write_entries-offset (e ∷ es) offset h =
      let (fits, near, (v, rest, made)) = write_entries-cons utf8 crc32 e es offset h in
      subst (λ w. w.offset ≡ offset + length w.parts) (some-injective made)
        (omega (
          arith,
          write_entries-offset es (offset + entry_length utf8 crc32 e) rest,
          length-entry_part e v.parts,
        ))

  -- The reader finds the entries, wherever the parts stand in the archive.
  read_central-write_entries :
      (es : List ZipEntry) (offset : ℕ) {w : Written} (after more bytes : List ℕ)
      → write_entries utf8 crc32 es offset ≡ some w
      → drop offset bytes ≡ w.parts ++ more
      → read_central (length es) (w.central ++ after) bytes ≡ some (map (as_read utf8 crc32) es)
  unfolding read_central
  read_central-write_entries [] offset after more bytes h here = refl
  read_central-write_entries (e ∷ es) offset {w} after more bytes h here =
      let (fits, near, (v, rest, made)) = write_entries-cons utf8 crc32 e es offset h in
      let same = some-injective made in
      let begins =
        here ∙ (ap (λ q. q.parts ++ more) (sym same) ∙ entry_part-append e v.parts more) in
      let beyond : drop (offset + entry_length utf8 crc32 e) bytes ≡ v.parts ++ more =
        drop_add offset (entry_length utf8 crc32 e) bytes
        ∙ (ap (drop (entry_length utf8 crc32 e)) begins
            ∙ drop-entry_part utf8 crc32 e (v.parts ++ more)) in
      let others =
        read_central-write_entries es (offset + entry_length utf8 crc32 e) after more bytes rest
          beyond in
      ap (λ q. read_central (ℕ.suc (length es)) (q.central ++ after) bytes) (sym same)
      ∙ (ap (λ q. read_central (ℕ.suc (length es)) q bytes)
            (entry_central-append e offset v.central after)
          ∙ (read_central-entry utf8 crc32 e offset (length es) (v.central ++ after)
                (v.parts ++ more) bytes fits near begins
              ∙ ap (read_entry (name_of utf8 crc32 e) (some e.contents)) others))

  finish-built :
      (n : ℕ) (o : Option Written) {bytes : List ℕ}
      → finish utf8 crc32 n o ≡ built bytes
      → (w : Written) × (o ≡ some w)
        × (in_u16 n ≡ true)
        × (in_u32 (length w.central) ≡ true)
        × (in_u32 w.offset ≡ true)
        × (w.parts ++ (w.central ++ end_record n (length w.central) w.offset) ≡ bytes)
  unfolding finish
  finish-built n none h = cc
  finish-built n (some w) h =
      let (t, same) =
        guard-built (in_u16 n && (in_u32 (length w.central) && in_u32 w.offset))
          (w.parts ++ (w.central ++ end_record n (length w.central) w.offset)) h in
      (w, refl, ground (arith, t), ground (arith, t), ground (arith, t), same)

  built-finish :
      (entries : List ZipEntry) {bytes : List ℕ}
      → build_zip utf8 crc32 entries ≡ built bytes
      → finish utf8 crc32 (length entries) (write_entries utf8 crc32 entries 0) ≡ built bytes
  unfolding build_zip
  built-finish entries {bytes} h = elim (Bool-cases (ltb max_entries (length entries))) [
    | inl t ↦ absurd (failed-ne {b = bytes} (rw (t, build_zip) at h))
    | inr f ↦ elim (Bool-cases (ltb max_total_bytes (total_bytes entries))) [
      | inl t ↦ absurd (failed-ne {b = bytes} (rw (f, build_zip, t) at h))
      | inr g ↦ rw (f, build_zip, g) at h
    ]
  ]

  drop-end :
      (parts central : List ℕ) (n size offset : ℕ)
      → let bytes = parts ++ (central ++ end_record n size offset) in
        drop (length bytes - 22) bytes ≡ end_record n size offset
  unfolding end_record
  drop-end parts central n size offset =
      let end = end_record n size offset in
      let bytes = parts ++ (central ++ end) in
      let short : length end ≡ 22 = refl in
      let begins : length bytes - 22 ≡ length parts + length central =
        omega (arith, length-append parts (central ++ end), length-append central end, short) in
      ap (λ k. drop k bytes) begins
      ∙ (drop_add (length parts) (length central) bytes
          ∙ (ap (drop (length central)) (drop-append parts (central ++ end))
              ∙ drop-append central end))

  -- An archive that is built is read back: the reader finds exactly the entries, in order, each with
  -- the bytes of its path and its contents.
  pub read_zip-build_zip :
      (entries : List ZipEntry) {bytes : List ℕ}
      → build_zip utf8 crc32 entries ≡ built bytes
      → read_zip bytes ≡ some (map (as_read utf8 crc32) entries)
  unfolding build_zip read_zip end_record
  read_zip-build_zip entries {bytes} h =
      let (w, wrote, few, wide, near, same) =
        finish-built (length entries) (write_entries utf8 crc32 entries 0)
          (built-finish entries h) in
      let end = end_record (length entries) (length w.central) w.offset in
      let whole = w.parts ++ (w.central ++ end) in
      let found = drop-end w.parts w.central (length entries) (length w.central) w.offset in
      let count = value16 (length entries) few in
      let start = value32 w.offset near in
      let begins : w.offset ≡ length w.parts =
        omega (arith, write_entries-offset entries 0 wrote) in
      subst (λ b. read_zip b ≡ some (map (as_read utf8 crc32) entries)) same
        (ap (λ q. read_from q whole) found
          ∙ (ap (λ k. read_central k (drop (u32_at 16 end) whole) whole) count
              ∙ (ap (λ k. read_central (length entries) (drop k whole) whole) (start ∙ begins)
                  ∙ (ap (λ q. read_central (length entries) q whole)
                        (drop-append w.parts (w.central ++ end))
                      ∙ read_central-write_entries entries 0 end (w.central ++ end) whole wrote
                          refl))))
