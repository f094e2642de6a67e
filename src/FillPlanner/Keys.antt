-- ===== src/FillPlanner/Keys.antt =====
-- What a derived question key looks like.
use octopus_job_search.Base.{
  ℕ, zero, suc, ◌≤◌, ◌≡◌, refl, inl, inr, Bool, true, false, ◌||◌, [], ◌∷◌, arith,
}
use octopus_job_search.Base.Tests.{◌==◌, if◌then◌else◌, Bool-cases}
use octopus_job_search.Base.Lists.{All, take, length, length-take-le}
use octopus_job_search.Base.Text.{Text, trim}
use octopus_job_search.FillPlanner.Forms.{
  is_key_char, collapse, strip_start, strip_end, normalize_question_key,
}

-- A lower-case letter, a digit or an underscore.
abbrev pub is_slug : ℕ → Bool
is_slug c = is_key_char c || c == b'_'

abbrev pub AllSlug : Text → Type 0
AllSlug = All (λ c. is_slug c ≡ true)

abbrev pub starts_plain : Text → Bool
starts_plain [] = true
starts_plain (c ∷ s) = is_key_char c

collapse-AllSlug : (in_run : Bool) (s : Text) → AllSlug (collapse in_run s)
unfolding collapse
collapse-AllSlug in_run [] = tt
collapse-AllSlug true (c ∷ s) = elim (Bool-cases (is_key_char c)) [
  | inl h ↦ rw h (rw h, collapse-AllSlug false s)
  | inr h ↦ rw h (collapse-AllSlug true s)
]
collapse-AllSlug false (c ∷ s) = elim (Bool-cases (is_key_char c)) [
  | inl h ↦ rw h (rw h, collapse-AllSlug false s)
  | inr h ↦ rw h (refl, collapse-AllSlug true s)
]

strip_start-AllSlug : (s : Text) → AllSlug s → AllSlug (strip_start s)
unfolding strip_start
strip_start-AllSlug [] h = tt
strip_start-AllSlug (c ∷ s) h = elim (Bool-cases (c == b'_')) [
  | inl e ↦ rw e (strip_start-AllSlug s h.1)
  | inr e ↦ rw e h
]

strip_start-plain : (s : Text) → AllSlug s → starts_plain (strip_start s) ≡ true
unfolding strip_start
strip_start-plain [] h = refl
strip_start-plain (c ∷ s) h = elim (Bool-cases (c == b'_')) [
  | inl e ↦ rw e (strip_start-plain s h.1)
  | inr e ↦ rw e (ground (arith, h.0))
]

strip_end_cons : (c : ℕ) (rest : Text) → Text
strip_end_cons c [] = if c == b'_' then [] else c ∷ []
strip_end_cons c (d ∷ rest) = c ∷ d ∷ rest

strip_end-cons : (c : ℕ) (s : Text) → strip_end (c ∷ s) ≡ strip_end_cons c (strip_end s)
unfolding strip_end strip_end_cons
strip_end-cons c s = ground arith

strip_end_cons-AllSlug :
    (c : ℕ) (rest : Text) → is_slug c ≡ true → AllSlug rest → AllSlug (strip_end_cons c rest)
unfolding strip_end_cons
strip_end_cons-AllSlug c [] h k = elim (Bool-cases (c == b'_')) [
  | inl e ↦ rw e tt
  | inr e ↦ rw e (h, tt)
]
strip_end_cons-AllSlug c (d ∷ rest) h k = (h, k)

strip_end-AllSlug : (s : Text) → AllSlug s → AllSlug (strip_end s)
unfolding strip_end
strip_end-AllSlug [] h = tt
strip_end-AllSlug (c ∷ s) h =
    rw (strip_end-cons c s) (strip_end_cons-AllSlug c (strip_end s) h.0 (strip_end-AllSlug s h.1))

strip_end_cons-plain :
    (c : ℕ) (rest : Text) → is_key_char c ≡ true → starts_plain (strip_end_cons c rest) ≡ true
unfolding strip_end_cons
strip_end_cons-plain c [] h = elim (Bool-cases (c == b'_')) [ inl e ↦ rw e | inr e ↦ rw e h ]
strip_end_cons-plain c (d ∷ rest) h = h

strip_end-plain : (s : Text) → starts_plain s ≡ true → starts_plain (strip_end s) ≡ true
unfolding strip_end
strip_end-plain [] h = refl
strip_end-plain (c ∷ s) h = rw (strip_end-cons c s) (strip_end_cons-plain c (strip_end s) h)

take-AllSlug : (n : ℕ) (s : Text) → AllSlug s → AllSlug (take n s)
take-AllSlug zero s h = tt
take-AllSlug (suc n) [] h = tt
take-AllSlug (suc n) (c ∷ s) h = (h.0, take-AllSlug n s h.1)

take-plain : (n : ℕ) (s : Text) → starts_plain s ≡ true → starts_plain (take n s) ≡ true
take-plain zero s h = refl
take-plain (suc n) [] h = refl
take-plain (suc n) (c ∷ s) h = h

-- A question key has 120 characters at most, each a lower-case ASCII letter, a digit or an
-- underscore, and does not start with an underscore, whatever the label and its case conversion.
pub normalize_question_key-IsKey :
    (lower : Text → Text) (label : Text)
    → AllSlug (normalize_question_key lower label)
      × (length (normalize_question_key lower label) ≤ 120)
      × (starts_plain (normalize_question_key lower label) ≡ true)
unfolding normalize_question_key
normalize_question_key-IsKey lower label =
    let raw = collapse false (lower (trim label)) in
    let slug = strip_start-AllSlug raw (collapse-AllSlug false (lower (trim label))) in
    let trimmed = strip_start raw in
    (
      take-AllSlug 120 (strip_end trimmed) (strip_end-AllSlug trimmed slug),
      length-take-le 120 (strip_end trimmed),
      take-plain 120 (strip_end trimmed) (
          strip_end-plain trimmed
            (strip_start-plain raw (collapse-AllSlug false (lower (trim label))))),
    )
