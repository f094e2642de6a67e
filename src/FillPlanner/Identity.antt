-- ===== src/FillPlanner/Identity.antt =====
-- packages/fill-planner/src/inspect.ts: whether the page is the one that the packet names.
use octopus_job_search.Base.{ℕ, Bool, true, not, ◌&&◌, ◌||◌, Option, none, some, List, [], ◌∷◌}
use octopus_job_search.Base.Tests.{if◌then◌else◌, is_some}
use octopus_job_search.Base.Text.{Text, codes, trim, join, includes, is_blank, is_space}
use octopus_job_search.FillPlanner.Values.{Value, undefined, object, text_of, property}

pub record PageIdentity : Type 0 where
  pub company : Option Text
  pub title : Option Text
  pub url : Text
  pub origin : Text

pub data Mismatch : Type 0 where
  states_neither company_differs role_differs : Mismatch

-- No mismatch, or its reason.
abbrev pub IdentityCheck : Type 0
IdentityCheck = Option Mismatch

abbrev pub some_text : Text → Option Text
some_text t = if is_blank t then none else some t

unfoldable pub data_property : Text → Value → Value
unfolding property
data_property name (object entries) = property name entries
data_property name _ = undefined

unfoldable pub parse_identity : Value → Text → Text → PageIdentity
unfolding data_property text_of
parse_identity raw page_url origin = record {
  company = some_text (trim (text_of (data_property (codes "company") raw)));
  title = some_text (trim (text_of (data_property (codes "title") raw)));
  url = page_url;
  origin = origin;
}

-- `split(/\s+/).filter(Boolean)`: the runs of characters that are no white space.
abbrev prepend : ℕ → List Text → List Text
prepend c [] = (c ∷ []) ∷ []
prepend c (w ∷ ws) = (c ∷ w) ∷ ws

unfoldable pub attach : ℕ → Text → List Text → List Text
attach c [] ws = (c ∷ []) ∷ ws
attach c (d ∷ s) ws = if is_space d then (c ∷ []) ∷ ws else prepend c ws

unfoldable pub words : Text → List Text
unfolding attach
words [] = []
words (c ∷ s) = let rest = words s in if is_space c then rest else attach c s rest

module _ (lower : Text → Text) where
  unfoldable pub normalise : Text → Text
  unfolding words
  normalise value = lower (join (codes " ") (words value))

  -- One is contained in the other, white space and case aside.
  unfoldable pub contained : Text → Text → Bool
  unfolding normalise
  contained observed expected =
      includes (normalise expected) (normalise observed)
      || includes (normalise observed) (normalise expected)

  -- One comparison of the loop: passed, where the page or the packet says nothing.
  unfoldable pub agrees : Option Text → Text → Bool
  agrees none expected = true
  agrees (some observed) expected = is_blank (trim expected) || contained observed expected

  abbrev compare_both : PageIdentity → Text → Text → IdentityCheck
  compare_both page expected_company expected_title =
      if not (agrees page.company expected_company)
      then some company_differs
      else if not (agrees page.title expected_title)
      then some role_differs
      else none

  unfoldable pub check_identity : PageIdentity → Text → Text → IdentityCheck
  check_identity page expected_company expected_title =
      if not (is_some page.company) && not (is_some page.title)
      then some states_neither
      else compare_both page expected_company expected_title
