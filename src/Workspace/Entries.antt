-- ===== src/Workspace/Entries.antt =====
-- What the reader makes of one entry that `buildZip` of apps/api/src/workspace/zip.ts writes.
use octopus_job_search.Base.{
  ℕ, ◌+◌, ◌*◌, ◌/◌, ◌%◌, ◌≡◌, refl, sym, ap, ◌∙◌, Bool, true, ◌&&◌, none, some, List, [], ◌∷◌, ◌++◌,
  arith, inl, inr,
}
use octopus_job_search.Base.Tests.{Bool-cases, Option-cases}
use octopus_job_search.Base.Lists.{length, take, drop}
use octopus_job_search.Base.Text.{Text}
use octopus_job_search.Workspace.Zip.{
  ZipEntry, in_u16, in_u32, fits_local, local_header, central_header, Written, name_of,
  entry_length, entry_part, entry_central, prepend_entry, write_entries,
}
use octopus_job_search.Workspace.Reader.{
  ReadEntry, read_local, read_entry, read_central, u16_at, u32_at,
}

module _ {A : Type 0} where
  pub append_assoc : (xs ys zs : List A) → (xs ++ ys) ++ zs ≡ xs ++ (ys ++ zs)
  append_assoc [] ys zs = refl
  append_assoc (x ∷ xs) ys zs = ap (λ l. x ∷ l) (append_assoc xs ys zs)

  pub drop-append : (xs ys : List A) → drop (length xs) (xs ++ ys) ≡ ys
  drop-append [] ys = refl
  drop-append (x ∷ xs) ys = drop-append xs ys

  take-append : (xs ys : List A) → take (length xs) (xs ++ ys) ≡ xs
  take-append [] ys = refl
  take-append (x ∷ xs) ys = ap (λ l. x ∷ l) (take-append xs ys)

  drop_nil : (n : ℕ) → drop {A = A} n [] ≡ []
  drop_nil ℕ.zero = refl
  drop_nil (ℕ.suc n) = refl

  pub drop_add : (a b : ℕ) (l : List A) → drop (a + b) l ≡ drop b (drop a l)
  drop_add ℕ.zero b l = let e : 0 + b ≡ b = omega arith in ap (λ n. drop n l) e
  drop_add (ℕ.suc a) b [] =
      let e : ℕ.suc a + b ≡ ℕ.suc (a + b) = omega arith in
      ap (λ n. drop {A = A} n []) e ∙ sym (drop_nil b)
  drop_add (ℕ.suc a) b (x ∷ l) =
      let e : ℕ.suc a + b ≡ ℕ.suc (a + b) = omega arith in
      ap (λ n. drop n (x ∷ l)) e ∙ drop_add a b l

none-ne : {A : Type 0} {a : A} → none ≡ some a → ⊥
none-ne h = cc

pub some-injective : {A : Type 0} {a b : A} → some a ≡ some b → a ≡ b
some-injective h = cc

pub value16 : (n : ℕ) → in_u16 n ≡ true → n % 256 + 256 * (n / 256 % 256) ≡ n
value16 n h = ground (arith, h)

pub value32 :
    (n : ℕ)
    → in_u32 n ≡ true
    → n % 256 + 256 * (n / 256 % 256) + 65536 * (n / 65536 % 256) + 16777216 * (n / 16777216 % 256)
      ≡ n
value32 n h = ground (arith, h)

module _ (utf8 : Text → List ℕ) (crc32 : List ℕ → ℕ) where
  abbrev pub size_fits : ZipEntry → Bool
  size_fits e = fits_local (length e.contents) (length (name_of utf8 crc32 e)) (crc32 e.contents)

  -- The contents are found behind the local header.
  read_local-entry_part :
      (e : ZipEntry) (rest : List ℕ)
      → size_fits e ≡ true
      → read_local (length e.contents) (entry_part utf8 crc32 e rest) ≡ some e.contents
  unfolding read_local local_header
  read_local-entry_part e rest fits =
      let part = entry_part utf8 crc32 e rest in
      let name = name_of utf8 crc32 e in
      let long = value16 (length name) (ground (arith, fits)) in
      ap some (
        ap (take (length e.contents)) (
          ap (λ n. drop (30 + n) part) long
          ∙ (drop_add 30 (length name) part ∙ drop-append name (e.contents ++ rest)))
        ∙ take-append e.contents rest)

  -- Behind an entry's part come the parts of the others.
  pub drop-entry_part :
      (e : ZipEntry) (rest : List ℕ)
      → drop (entry_length utf8 crc32 e) (entry_part utf8 crc32 e rest) ≡ rest
  unfolding local_header
  drop-entry_part e rest =
      let part = entry_part utf8 crc32 e rest in
      let name = name_of utf8 crc32 e in
      drop_add (30 + length name) (length e.contents) part
      ∙ (ap (drop (length e.contents))
            (drop_add 30 (length name) part ∙ drop-append name (e.contents ++ rest))
          ∙ drop-append e.contents rest)

  -- What the reader makes of an entry.
  abbrev pub as_read : ZipEntry → ReadEntry
  as_read e = record { name = name_of utf8 crc32 e; contents = e.contents }

  -- One step of the reader through the central directory.
  pub read_central-entry :
      (e : ZipEntry) (offset n : ℕ) (rest more bytes : List ℕ)
      → size_fits e ≡ true
      → in_u32 offset ≡ true
      → drop offset bytes ≡ entry_part utf8 crc32 e more
      → read_central (ℕ.suc n) (entry_central utf8 crc32 e offset rest) bytes
        ≡ read_entry (name_of utf8 crc32 e) (some e.contents) (read_central n rest bytes)
  unfolding read_central central_header
  read_central-entry e offset n rest more bytes fits near here =
      let name = name_of utf8 crc32 e in
      let directory = entry_central utf8 crc32 e offset rest in
      let long = value16 (length name) (ground (arith, fits)) in
      let size = value32 (length e.contents) (ground (arith, fits)) in
      let at = value32 offset near in
      let named : take (u16_at 28 directory) (drop 46 directory) ≡ name =
        ap (λ k. take k (name ++ rest)) long ∙ take-append name rest in
      let found : read_local (u32_at 20 directory) (drop (u32_at 42 directory) bytes)
          ≡ some e.contents =
        ap (λ k. read_local k (drop (u32_at 42 directory) bytes)) size
        ∙ (ap (λ k. read_local (length e.contents) (drop k bytes)) at
            ∙ (ap (read_local (length e.contents)) here ∙ read_local-entry_part e more fits)) in
      let later : drop (46 + u16_at 28 directory) directory ≡ rest =
        ap (λ k. drop (46 + k) directory) long
        ∙ (drop_add 46 (length name) directory ∙ drop-append name rest) in
      ap
        (λ q.
          read_entry q (read_local (u32_at 20 directory) (drop (u32_at 42 directory) bytes))
            (read_central n (drop (46 + u16_at 28 directory) directory) bytes))
        named
      ∙ (ap
            (λ q.
              read_entry name q (read_central n (drop (46 + u16_at 28 directory) directory) bytes))
            found
          ∙ ap (λ q. read_entry name (some e.contents) (read_central n q bytes)) later)

  -- What the loop wrote for a first entry.
  pub write_entries-cons :
      (e : ZipEntry) (es : List ZipEntry) (offset : ℕ) {w : Written}
      → write_entries utf8 crc32 (e ∷ es) offset ≡ some w
      → (size_fits e ≡ true)
        × (in_u32 offset ≡ true)
        × ((v : Written) × (write_entries utf8 crc32 es (offset + entry_length utf8 crc32 e)
              ≡ some v)
            × (prepend_entry utf8 crc32 e offset (some v) ≡ some w))
  unfolding write_entries
  write_entries-cons e es offset {w} h = elim (Bool-cases (size_fits e && in_u32 offset)) [
    | inr f ↦ absurd (none-ne (rw f at h))
    | inl t ↦
        elim (Option-cases (write_entries utf8 crc32 es (offset + entry_length utf8 crc32 e))) [
          | inl n ↦ absurd (none-ne (ap (prepend_entry utf8 crc32 e offset) (sym n) ∙ (rw t at h)))
          | inr (v, y) ↦ (
            ground (arith, t),
            ground (arith, t),
            (v, y, ap (prepend_entry utf8 crc32 e offset) (sym y) ∙ (rw t at h)),
          )
        ]
  ]
