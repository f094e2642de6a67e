-- ===== src/Extension/Named.antt =====
-- When a page names the packet's job, for `checkIdentity` of packages/fill-planner/src/inspect.ts.
use octopus_job_search.Base.{
  ◌≡◌, refl, inl, inr, Bool, true, false, not, ◌&&◌, ◌||◌, none, some, ◌⊎◌, arith,
}
use octopus_job_search.Base.Tests.{is_some, if◌then◌else◌, Bool-cases}
use octopus_job_search.Base.Text.{Text, trim, includes, is_blank}
use octopus_job_search.FillPlanner.Identity.{
  Mismatch, PageIdentity, some_text, normalise, contained, agrees, check_identity,
}

or_parts : (a b c : Bool) → (a || (b || c)) ≡ true → (a ≡ true) ⊎ (b ≡ true) ⊎ (c ≡ true)
or_parts true b c h = inl refl
or_parts false true c h = inr (inl refl)
or_parts false false c h = inr (inr h)

or_whole : (a b c : Bool) → (a ≡ true) ⊎ (b ≡ true) ⊎ (c ≡ true) → (a || (b || c)) ≡ true
or_whole a b c h = ground (arith, h)

module _ (lower : Text → Text) where
  -- What the page says, where it says anything, is contained in what the packet says, or the other way
  -- round, case and white space aside; or the packet says nothing.
  abbrev pub Agrees : Text → Text → Type 0
  Agrees stated expected =
      (is_blank stated ≡ true)
      ⊎ (is_blank (trim expected) ≡ true)
      ⊎ (includes (normalise lower expected) (normalise lower stated) ≡ true)
      ⊎ (includes (normalise lower stated) (normalise lower expected) ≡ true)

  abbrev pub NamesJob : Text → Text → Text → Text → Type 0
  NamesJob company title expected_company expected_title =
      ((is_blank company ≡ false) ⊎ (is_blank title ≡ false))
      × Agrees company expected_company
      × Agrees title expected_title

  agrees-Agrees :
      (stated expected : Text)
      → agrees lower (some_text stated) expected ≡ true
      → Agrees stated expected
  unfolding agrees contained
  agrees-Agrees stated expected h = elim (Bool-cases (is_blank stated)) [
    | inl t ↦ inl t
    | inr f ↦ inr (or_parts _ _ _ (rw f at h))
  ]

  Agrees-agrees :
      (stated expected : Text)
      → Agrees stated expected
      → agrees lower (some_text stated) expected ≡ true
  unfolding agrees contained
  Agrees-agrees stated expected (inl t) = rw t refl
  Agrees-agrees stated expected (inr h) = elim (Bool-cases (is_blank stated)) [
    | inl t ↦ rw t refl
    | inr f ↦ rw f (or_whole _ _ _ h)
  ]

  is_some-some_text : (t : Text) → is_some (some_text t) ≡ not (is_blank t)
  is_some-some_text t = elim (Bool-cases (is_blank t)) [ inl b ↦ rw b refl | inr n ↦ rw n refl ]

  stated_parts : (a b : Bool) → (not (not a) && not (not b)) ≡ false → (a ≡ false) ⊎ (b ≡ false)
  stated_parts false b h = inl refl
  stated_parts true false h = inr refl
  stated_parts true true h = cc

  stated_whole : (a b : Bool) → (a ≡ false) ⊎ (b ≡ false) → (not (not a) && not (not b)) ≡ false
  stated_whole a b h = ground (arith, h)

  guards_parts :
      (a b c : Bool) (x y z : Mismatch)
      → (if a then some x else if not b then some y else if not c then some z else none) ≡ none
      → (a ≡ false) × (b ≡ true) × (c ≡ true)
  guards_parts true b c x y z h = cc
  guards_parts false false c x y z h = cc
  guards_parts false true false x y z h = cc
  guards_parts false true true x y z h = (refl, refl, refl)

  module _ (company title url origin expected_company expected_title : Text) where
    abbrev page_of : PageIdentity
    page_of = record {
      company = some_text company;
      title = some_text title;
      url = url;
      origin = origin;
    }

    pub check_identity-NamesJob :
        check_identity lower page_of expected_company expected_title ≡ none
        → NamesJob company title expected_company expected_title
    unfolding check_identity
    check_identity-NamesJob h =
        let (stated, c, t) = guards_parts _ _ _ _ _ _ h in
        (
          stated_parts (is_blank company) (is_blank title)
              (rw (is_some-some_text company, is_some-some_text title) at stated),
          agrees-Agrees company expected_company c,
          agrees-Agrees title expected_title t,
        )

    pub NamesJob-check_identity :
        NamesJob company title expected_company expected_title
        → check_identity lower page_of expected_company expected_title ≡ none
    unfolding check_identity
    NamesJob-check_identity (stated, c, t) =
        rw
          (
            is_some-some_text company,
            is_some-some_text title,
            stated_whole (is_blank company) (is_blank title) stated,
            Agrees-agrees company expected_company c,
            Agrees-agrees title expected_title t,
          )
          refl
