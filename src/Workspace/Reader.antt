-- ===== src/Workspace/Reader.antt =====
-- A reader of stored ZIP archives after PKZIP's description, independent of the writer: it finds the
-- central directory by the record at the end, and each entry by its offset.
use octopus_job_search.Base.{ℕ, ◌+◌, ◌-◌, ◌*◌, Option, none, some, List, [], ◌∷◌}
use octopus_job_search.Base.Tests.{◌==◌, if◌then◌else◌}
use octopus_job_search.Base.Lists.{length, take, drop}

abbrev first_u16 : List ℕ → ℕ
first_u16 (a ∷ b ∷ rest) = a + 256 * b
first_u16 _ = 0

abbrev first_u32 : List ℕ → ℕ
first_u32 (a ∷ b ∷ c ∷ d ∷ rest) = a + 256 * b + 65536 * c + 16777216 * d
first_u32 _ = 0

abbrev pub u16_at : ℕ → List ℕ → ℕ
u16_at n bytes = first_u16 (drop n bytes)

abbrev pub u32_at : ℕ → List ℕ → ℕ
u32_at n bytes = first_u32 (drop n bytes)

pub record ReadEntry : Type 0 where
  pub name : List ℕ
  pub contents : List ℕ

-- The contents of the entry whose local header these bytes begin with.
unfoldable pub read_local : ℕ → List ℕ → Option (List ℕ)
read_local size bytes =
    if u32_at 0 bytes == 0x04034b50
    then some (take size (drop (30 + u16_at 26 bytes) bytes))
    else none

abbrev pub read_entry : List ℕ → Option (List ℕ) → Option (List ReadEntry) → Option (List ReadEntry)
read_entry name (some contents) (some rest) =
    some (record { name = name; contents = contents } ∷ rest)
read_entry name (some contents) none = none
read_entry name none rest = none

-- So many entries of the central directory, in the archive `bytes`.
unfoldable pub read_central : ℕ → List ℕ → List ℕ → Option (List ReadEntry)
unfolding read_local
read_central ℕ.zero directory bytes = some []
read_central (ℕ.suc n) directory bytes =
    let rest = read_central n (drop (46 + u16_at 28 directory) directory) bytes in
    if u32_at 0 directory == 0x02014b50
    then read_entry (take (u16_at 28 directory) (drop 46 directory))
        (read_local (u32_at 20 directory) (drop (u32_at 42 directory) bytes)) rest
    else none

-- From the bytes of the record at the end.
abbrev pub read_from : List ℕ → List ℕ → Option (List ReadEntry)
read_from end bytes =
    if u32_at 0 end == 0x06054b50
    then read_central (u16_at 10 end) (drop (u32_at 16 end) bytes) bytes
    else none

unfoldable pub read_zip : List ℕ → Option (List ReadEntry)
unfolding read_central
read_zip bytes = read_from (drop (length bytes - 22) bytes) bytes
