-- ===== src/FillPlanner/Plan.antt =====
-- packages/fill-planner/src/plan.ts: what to type, and what to refuse to type.
use octopus_job_search.Base.{Bool, true, false, not, ◌||◌, Option, none, some, List, [], ◌∷◌, ◌++◌}
use octopus_job_search.Base.Tests.{◌==◌, if◌then◌else◌}
use octopus_job_search.Base.Lists.{length, any}
use octopus_job_search.Base.Text.{Text, codes, text_eq, trim, join, is_blank}
use octopus_job_search.FillPlanner.Forms.{
  FieldKind, FormField, file, unsupported, is_choice, is_free_text, sensitivity_for, never_reuse,
  AnswerSensitivity,
}

-- A JSON number is given by the text that `String()` makes of it.
pub data AnswerValue : Type 0 where
  string : Text → AnswerValue
  numeral : Text → AnswerValue
  boolean : Bool → AnswerValue
  strings : List Text → AnswerValue

-- A packet's answer, as a fill client receives it.
pub record FillField : Type 0 where
  pub question_key : Text
  pub label : Option Text
  pub answer : AnswerValue
  pub required : Bool
  pub sensitivity : AnswerSensitivity

pub data UnresolvedReason : Type 0 where
  no_answer new_question unsupported_widget needs_exact_mapping : UnresolvedReason
  never_inferable file_upload_blocked : UnresolvedReason

pub record UnresolvedField : Type 0 where
  pub question_key : Text
  pub label : Option Text
  pub required : Bool
  pub reason : UnresolvedReason
  pub options : List Text

pub record PlannedValue : Type 0 where
  pub field : FormField
  pub values : List Text
  pub upload : Bool

pub record FillPlan : Type 0 where
  pub values : List PlannedValue
  pub unresolved : List UnresolvedField

unfoldable pub has_unresolved_required : FillPlan → Bool
has_unresolved_required plan = any (λ item. item.required) plan.unresolved

unfoldable pub as_strings : AnswerValue → List Text
as_strings (boolean true) = codes "yes" ∷ []
as_strings (boolean false) = codes "no" ∷ []
as_strings (strings items) = items
as_strings (numeral n) = n ∷ []
as_strings (string s) = s ∷ []

-- The last answer with the key: `new Map(…)` keeps the last of two entries.
unfoldable pub answer_for : Text → List FillField → Option FillField
answer_for key [] = none
answer_for key (a ∷ rest) = elim (answer_for key rest) [
  | some later ↦ some later
  | none ↦ if text_eq a.question_key key then some a else none
]

abbrev pub unresolved_as : FormField → UnresolvedReason → UnresolvedField
unresolved_as field reason = record {
  question_key = field.key;
  label = some field.label;
  required = field.required;
  reason = reason;
  options = field.options;
}

abbrev pub label_or_null : Text → Option Text
label_or_null label = if is_blank label then none else some label

abbrev pub unnamed_field : FormField → UnresolvedField
unnamed_field field = record {
  question_key = codes "unnamed_field";
  label = label_or_null field.label;
  required = field.required;
  reason = unsupported_widget;
  options = field.options;
}

-- Where one field of the form goes.
pub data Outcome : Type 0 where
  typed : PlannedValue → Outcome
  left_open : UnresolvedField → Outcome

abbrev pub is_file : FieldKind → Bool
is_file file = true
is_file _ = false

abbrev pub is_unsupported : FieldKind → Bool
is_unsupported unsupported = true
is_unsupported _ = false

abbrev pub is_never_reuse : AnswerSensitivity → Bool
is_never_reuse never_reuse = true
is_never_reuse _ = false

unfoldable pub plan_text : FormField → List Text → Outcome
plan_text field rendered =
    let text : Text = trim (join (codes ", ") rendered) in
    if is_blank text
    then left_open (unresolved_as field no_answer)
    else typed (record { field = field; values = text ∷ []; upload = false })

unfoldable pub plan_upload : FormField → Bool → Outcome
plan_upload field true = typed (record { field = field; values = []; upload = true })
plan_upload field false = left_open (unresolved_as field file_upload_blocked)

abbrev pub push_outcome : Outcome → FillPlan → FillPlan
push_outcome (typed v) plan = record plan { values = plan.values ++ v ∷ [] }
push_outcome (left_open u) plan = record plan { unresolved = plan.unresolved ++ u ∷ [] }

abbrev pub cons_some : Option Text → List Text → List Text
cons_some none rest = rest
cons_some (some option) rest = option ∷ rest

module _ (lower : Text → Text) where
  -- `trim().toLowerCase()`, the form in which options and answers are compared.
  abbrev pub folded : Text → Text
  folded t = lower (trim t)

  unfoldable pub match_option : Text → List Text → Option Text
  match_option value [] = none
  match_option value (option ∷ options) =
      if text_eq (folded option) (folded value) then some option else match_option value options

  -- The matched options, those that match none left out.
  unfoldable pub matched_options : List Text → List Text → List Text
  matched_options options [] = []
  matched_options options (value ∷ values) =
      cons_some (match_option value options) (matched_options options values)

  unfoldable pub plan_choice : FormField → List Text → Outcome
  unfolding matched_options
  plan_choice field rendered =
      let matched : List Text = matched_options field.options rendered in
      if not (length matched == length rendered) || length matched == 0
      then left_open (unresolved_as field needs_exact_mapping)
      else typed (record { field = field; values = matched; upload = false })

  unfoldable pub plan_answered : FormField → FillField → Outcome
  plan_answered field answer =
      if is_choice field.kind
      then plan_choice field (as_strings answer.answer)
      else if is_free_text field.kind
      then plan_text field (as_strings answer.answer)
      else left_open (unresolved_as field unsupported_widget)

  unfoldable pub plan_question : FormField → Option FillField → Outcome
  plan_question field none = left_open (unresolved_as field new_question)
  plan_question field (some answer) = plan_answered field answer

  -- The body of the loop of `buildPlan`.
  unfoldable pub plan_field : List FillField → Bool → FormField → Outcome
  plan_field answers has_attachment field =
      if is_blank field.key
      then left_open (unnamed_field field)
      else if is_unsupported field.kind
      then left_open (unresolved_as field unsupported_widget)
      else if is_file field.kind
      then plan_upload field has_attachment
      else if is_never_reuse (sensitivity_for lower field.label)
      then left_open (unresolved_as field never_inferable)
      else plan_question field (answer_for field.key answers)

  unfoldable pub plan_from : List FillField → Bool → List FormField → FillPlan → FillPlan
  plan_from answers has_attachment [] plan = plan
  plan_from answers has_attachment (field ∷ fields) plan =
      plan_from answers has_attachment fields
        (push_outcome (plan_field answers has_attachment field) plan)

  unfoldable pub build_plan : List FormField → List FillField → Bool → FillPlan
  unfolding plan_from
  build_plan fields answers has_attachment =
      plan_from answers has_attachment fields (record { values = []; unresolved = [] })
