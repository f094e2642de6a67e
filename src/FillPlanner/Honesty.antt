-- ===== src/FillPlanner/Honesty.antt =====
-- What a plan of packages/fill-planner/src/plan.ts may be: typed values that are honest, open entries for
-- reasons that hold, and nothing else.
use octopus_job_search.Base.{none, ◌≢◌, ◌≡◌, Bool, true, false, some, List, [], ◌∷◌, ◌⊎◌}
use octopus_job_search.Base.Tests.{◌==◌}
use octopus_job_search.Base.Lists.{length}
use octopus_job_search.Base.Text.{Text, codes, is_blank, trim, join}
use octopus_job_search.FillPlanner.Forms.{FormField, is_choice, is_free_text, sensitivity_for}
use octopus_job_search.FillPlanner.Plan.{
  UnresolvedReason, no_answer, new_question, unsupported_widget, needs_exact_mapping,
  never_inferable, file_upload_blocked, UnresolvedField, FillField, PlannedValue, as_strings,
  answer_for, matched_options, is_file, is_unsupported, is_never_reuse,
}
use octopus_job_search.FillPlanner.Chosen.{Chosen}

-- The values that a field takes from an answer's texts.
abbrev pub FromAnswer : (Text → Text) → FormField → List Text → List Text → Type 0
FromAnswer lower field rendered values =
    ((is_choice field.kind ≡ true)
      × Chosen lower field.options rendered values
      × ((length values == 0) ≡ false))
    ⊎ ((is_choice field.kind ≡ false)
        × (is_free_text field.kind ≡ true)
        × (values ≡ trim (join (codes ", ") rendered) ∷ [])
        × (is_blank (trim (join (codes ", ") rendered)) ≡ false))

-- A file for a file control, where there is one; else the packet's own answer to this very question,
-- which is none that is never reused.
abbrev pub IsHonest : (Text → Text) → List FillField → Bool → PlannedValue → Type 0
IsHonest lower answers has_attachment v =
    (is_blank v.field.key ≡ false)
    × (((v.upload ≡ true) × (is_file v.field.kind ≡ true) × (has_attachment ≡ true))
        ⊎ ((v.upload ≡ false)
            × (is_file v.field.kind ≡ false)
            × (is_never_reuse (sensitivity_for lower v.field.label) ≡ false)
            × ((answer : FillField) × (answer_for v.field.key answers ≡ some answer)
                × FromAnswer lower v.field (as_strings answer.answer) v.values)))

-- When a field may be left open for a reason.
abbrev pub IsJustified :
    (Text → Text) → List FillField → Bool → FormField → UnresolvedReason → Type 0
IsJustified lower answers has_attachment field no_answer =
    (answer : FillField) × (answer_for field.key answers ≡ some answer)
    × (is_blank (trim (join (codes ", ") (as_strings answer.answer))) ≡ true)
IsJustified lower answers has_attachment field new_question = answer_for field.key answers ≡ none
IsJustified lower answers has_attachment field unsupported_widget =
    (is_blank field.key ≡ true)
    ⊎ (is_unsupported field.kind ≡ true)
    ⊎ ((is_choice field.kind ≡ false) × (is_free_text field.kind ≡ false))
IsJustified lower answers has_attachment field needs_exact_mapping =
    (is_choice field.kind ≡ true)
    × ((answer : FillField) × (answer_for field.key answers ≡ some answer)
        × ((length (matched_options lower field.options (as_strings answer.answer)) ≡ 0)
            ⊎ (length (matched_options lower field.options (as_strings answer.answer))
                ≢ length (as_strings answer.answer))))
IsJustified lower answers has_attachment field never_inferable =
    is_never_reuse (sensitivity_for lower field.label) ≡ true
IsJustified lower answers has_attachment field file_upload_blocked =
    (is_file field.kind ≡ true) × (has_attachment ≡ false)

-- The entry of a field that is left open, for a reason that holds: its key, unless it has none, its
-- required mark and its options.
abbrev pub IsLeftOpen : (Text → Text) → List FillField → Bool → FormField → UnresolvedField → Type 0
IsLeftOpen lower answers has_attachment field u =
    (u.required ≡ field.required)
    × (u.options ≡ field.options)
    × ((u.question_key ≡ field.key) ⊎ (is_blank field.key ≡ true))
    × IsJustified lower answers has_attachment field u.reason

-- The fields one by one, in order: each is the next that is typed or the next that is left open, and
-- nothing else is planned.
pub data Covers (lower : Text → Text) (answers : List FillField) (has_attachment : Bool)
    : List FormField → List PlannedValue → List UnresolvedField → Type 0 where
  ended : Covers lower answers has_attachment [] [] []
  next_typed :
      {field : FormField} {v : PlannedValue} {fields : List FormField} {vs : List PlannedValue}
      {us : List UnresolvedField}
      → v.field ≡ field
      → Covers lower answers has_attachment fields vs us
      → Covers lower answers has_attachment (field ∷ fields) (v ∷ vs) us
  next_open :
      {field : FormField} {u : UnresolvedField} {fields : List FormField} {vs : List PlannedValue}
      {us : List UnresolvedField}
      → IsLeftOpen lower answers has_attachment field u
      → Covers lower answers has_attachment fields vs us
      → Covers lower answers has_attachment (field ∷ fields) vs (u ∷ us)
