-- ===== src/FillPlanner/Chosen.antt =====
-- How `buildPlan` of packages/fill-planner/src/plan.ts chooses options for a choice field.
use octopus_job_search.Base.{
  suc, ◌≤◌, ◌≡◌, sym, ap, ◌∙◌, inl, inr, none, some, List, [], ◌∷◌, arith,
}
use octopus_job_search.Base.Tests.{Bool-cases, Option-cases, if-true, if-false}
use octopus_job_search.Base.Lists.{length}
use octopus_job_search.Base.Text.{Text, text_eq, text_eq_iff}
use octopus_job_search.FillPlanner.Plan.{cons_some, folded, match_option, matched_options}

-- Each value is the option that it names, white space around it and case aside.
abbrev pub Chosen : (Text → Text) → List Text → List Text → List Text → Type 0
Chosen lower options [] [] = Unit {0}
Chosen lower options [] (o ∷ os) = ⊥
Chosen lower options (v ∷ vs) [] = ⊥
Chosen lower options (v ∷ vs) (o ∷ os) =
    ((match_option lower v options ≡ some o) × (folded lower o ≡ folded lower v))
    × Chosen lower options vs os

module _ (lower : Text → Text) where
  match_option-folded :
      (v : Text) (options : List Text) {o : Text}
      → match_option lower v options ≡ some o
      → folded lower o ≡ folded lower v
  unfolding match_option
  match_option-folded v [] e = cc
  match_option-folded v (x ∷ options) e =
      elim (Bool-cases (text_eq (folded lower x) (folded lower v))) [
        | inl t ↦ cc (
          (text_eq_iff (folded lower x) (folded lower v)).0 t,
          sym (if-true (some x) (match_option lower v options) t) ∙ e,
        )
        | inr f ↦
            match_option-folded v options
              (sym (if-false (some x) (match_option lower v options) f) ∙ e)
      ]

  matched-none :
      (options values : List Text) (v : Text)
      → match_option lower v options ≡ none
      → matched_options lower options (v ∷ values) ≡ matched_options lower options values
  unfolding matched_options
  matched-none options values v e = ap (λ o. cons_some o (matched_options lower options values)) e

  matched-some :
      (options values : List Text) (v : Text) {o : Text}
      → match_option lower v options ≡ some o
      → matched_options lower options (v ∷ values) ≡ o ∷ matched_options lower options values
  unfolding matched_options
  matched-some options values v e = ap (λ o. cons_some o (matched_options lower options values)) e

  length-matched-le :
      (options values : List Text) → length (matched_options lower options values) ≤ length values
  unfolding matched_options
  length-matched-le options [] = omega arith
  length-matched-le options (v ∷ values) = elim (Option-cases (match_option lower v options)) [
    | inl e ↦ rw (matched-none options values v e) (omega (arith, length-matched-le options values))
    | inr (o, e) ↦
        rw (matched-some options values v e) (omega (arith, length-matched-le options values))
  ]

  pub matched-Chosen :
      (options values : List Text)
      → length (matched_options lower options values) ≡ length values
      → Chosen lower options values (matched_options lower options values)
  unfolding matched_options
  matched-Chosen options [] h = tt
  matched-Chosen options (v ∷ values) h = elim (Option-cases (match_option lower v options)) [
    | inl e ↦
        let short : length (matched_options lower options values) ≡ suc (length values) =
          sym (ap length (matched-none options values v e)) ∙ h in
        absurd (omega (arith, short, length-matched-le options values))
    | inr (o, e) ↦
        let rest : length (matched_options lower options values) ≡ length values =
          omega (arith, sym (ap length (matched-some options values v e)) ∙ h) in
        rw (matched-some options values v e)
          ((e, match_option-folded v options e), matched-Chosen options values rest)
  ]
