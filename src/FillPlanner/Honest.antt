-- ===== src/FillPlanner/Honest.antt =====
-- What `buildPlan` of packages/fill-planner/src/plan.ts may type.
use octopus_job_search.Base.{
  sym, ap, ◌∙◌, ◌++◌, ◌≡◌, refl, inl, inr, Bool, true, false, some, List, [], ◌∷◌,
}
use octopus_job_search.Base.Tests.{Bool-cases, Option-cases, ◌==◌, ==_iff}
use octopus_job_search.Base.Lists.{All, length}
use octopus_job_search.Base.Text.{Text, codes, is_blank, trim, join}
use octopus_job_search.FillPlanner.Forms.{FormField, is_choice, is_free_text, sensitivity_for}
use octopus_job_search.FillPlanner.Plan.{
  UnresolvedField, FillField, FillPlan, PlannedValue, Outcome, typed, left_open, as_strings,
  answer_for, push_outcome, plan_text, plan_upload, matched_options, plan_choice, plan_answered,
  plan_question, plan_field, plan_from, build_plan, is_file, is_unsupported, is_never_reuse,
}
use octopus_job_search.FillPlanner.Chosen.{matched-Chosen}
use octopus_job_search.FillPlanner.Honesty.{
  IsHonest, IsLeftOpen, Covers, ended, next_typed, next_open,
}

abbrev IsFine : (Text → Text) → List FillField → Bool → FormField → Outcome → Type 0
IsFine lower answers att field (typed v) = (v.field ≡ field) × IsHonest lower answers att v
IsFine lower answers att field (left_open u) = IsLeftOpen lower answers att field u

module _ (lower : Text → Text) where
  module _ (answers : List FillField) where
    plan_upload-IsFine :
        (att : Bool) (field : FormField)
        → is_blank field.key ≡ false
        → is_file field.kind ≡ true
        → IsFine lower answers att field (plan_upload field att)
    unfolding plan_upload
    plan_upload-IsFine true field k f = (refl, (k, inl (refl, f, refl)))
    plan_upload-IsFine false field k f = (refl, refl, inl refl, (f, refl))

  module _ (answers : List FillField) (att : Bool) (field : FormField) where
    plan_choice-IsFine :
        (answer : FillField)
        → is_blank field.key ≡ false
        → is_file field.kind ≡ false
        → is_never_reuse (sensitivity_for lower field.label) ≡ false
        → answer_for field.key answers ≡ some answer
        → is_choice field.kind ≡ true
        → IsFine lower answers att field (plan_choice lower field (as_strings answer.answer))
    unfolding plan_choice
    plan_choice-IsFine answer k f n a c =
        let matched : List Text = matched_options lower field.options (as_strings answer.answer) in
        elim (Bool-cases (length matched == length (as_strings answer.answer))) [
          | inl e ↦ elim (Bool-cases (length matched == 0)) [
            | inl z ↦
                rw (e, z)
                  (refl, refl, inl refl, (c, (answer, a, inl ((==_iff (length matched) 0).0 z))))
            | inr z ↦
                rw (e, z)
                  (
                    refl,
                    (
                      k,
                      inr (
                        refl,
                        f,
                        n,
                        (
                          answer,
                          a,
                          inl (
                            c,
                            matched-Chosen lower field.options (as_strings answer.answer)
                                ((==_iff (length matched) (length (as_strings answer.answer))).0 e),
                            z,
                          ),
                        ),
                      ),
                    ),
                  )
          ]
          | inr d ↦ rw d (
            refl,
            refl,
            inl refl,
            (
              c,
              (
                answer,
                a,
                inr (λ q.
                    let same = (==_iff (length matched) (length (as_strings answer.answer))).1 q in
                    cc (same, d)),
              ),
            ),
          )
        ]

    plan_text-IsFine :
        (answer : FillField)
        → is_blank field.key ≡ false
        → is_file field.kind ≡ false
        → is_never_reuse (sensitivity_for lower field.label) ≡ false
        → answer_for field.key answers ≡ some answer
        → is_choice field.kind ≡ false
        → is_free_text field.kind ≡ true
        → IsFine lower answers att field (plan_text field (as_strings answer.answer))
    unfolding plan_text
    plan_text-IsFine answer k f n a c t =
        elim (Bool-cases (is_blank (trim (join (codes ", ") (as_strings answer.answer))))) [
          | inl b ↦ rw b (refl, refl, inl refl, (answer, a, b))
          | inr b ↦ rw b (refl, (k, inr (refl, f, n, (answer, a, inr (c, t, refl, b)))))
        ]

    plan_answered-IsFine :
        (answer : FillField)
        → is_blank field.key ≡ false
        → is_file field.kind ≡ false
        → is_never_reuse (sensitivity_for lower field.label) ≡ false
        → answer_for field.key answers ≡ some answer
        → IsFine lower answers att field (plan_answered lower field answer)
    unfolding plan_answered
    plan_answered-IsFine answer k f n a = elim (Bool-cases (is_choice field.kind)) [
      | inl c ↦ rw c (plan_choice-IsFine answer k f n a c)
      | inr c ↦ elim (Bool-cases (is_free_text field.kind)) [
        | inl t ↦ rw (c, t) (plan_text-IsFine answer k f n a c t)
        | inr t ↦ rw (c, t) (refl, refl, inl refl, inr (inr (c, t)))
      ]
    ]

    plan_question-IsFine :
        is_blank field.key ≡ false
        → is_file field.kind ≡ false
        → is_never_reuse (sensitivity_for lower field.label) ≡ false
        → IsFine lower answers att field (plan_question lower field (answer_for field.key answers))
    unfolding plan_question
    plan_question-IsFine k f n = elim (Option-cases (answer_for field.key answers)) [
      | inl a ↦ rw a (refl, refl, inl refl, a)
      | inr (answer, a) ↦ rw a (plan_answered-IsFine answer k f n a)
    ]

    plan_field-IsFine : IsFine lower answers att field (plan_field lower answers att field)
    unfolding plan_field
    plan_field-IsFine = elim (Bool-cases (is_blank field.key)) [
      | inl k ↦ rw k (refl, refl, inr k, inl k)
      | inr k ↦ elim (Bool-cases (is_unsupported field.kind)) [
        | inl u ↦ rw (k, u) (refl, refl, inl refl, inr (inl u))
        | inr u ↦ elim (Bool-cases (is_file field.kind)) [
          | inl f ↦ rw (k, u, f) (plan_upload-IsFine answers att field k f)
          | inr f ↦ elim (Bool-cases (is_never_reuse (sensitivity_for lower field.label))) [
            | inl n ↦ rw (k, u, f, n) (refl, refl, inl refl, n)
            | inr n ↦ rw (k, u, f, n) (plan_question-IsFine k f n)
          ]
        ]
      ]
    ]

  append-nil : {A : Type 0} (xs : List A) → xs ++ [] ≡ xs
  append-nil [] = refl
  append-nil (x ∷ xs) = ap (λ l. x ∷ l) (append-nil xs)

  append-one :
      {A : Type 0} (xs : List A) (y : A) (ys : List A) → (xs ++ (y ∷ [])) ++ ys ≡ xs ++ (y ∷ ys)
  append-one [] y ys = refl
  append-one (x ∷ xs) y ys = ap (λ l. x ∷ l) (append-one xs y ys)

  module _ (answers : List FillField) (att : Bool) where
    -- What is planned for the fields, after what was planned before.
    record IsPlanned (fields : List FormField) (plan after : FillPlan) : Type 0 where
      values : List PlannedValue
      unresolved : List UnresolvedField
      added_values : after.values ≡ plan.values ++ values
      added_unresolved : after.unresolved ≡ plan.unresolved ++ unresolved
      covers : Covers lower answers att fields values unresolved
      honest : All (IsHonest lower answers att) values

    push-IsPlanned :
        (field : FormField) (fields : List FormField) (o : Outcome) (plan after : FillPlan)
        → IsFine lower answers att field o
        → IsPlanned fields (push_outcome o plan) after
        → IsPlanned (field ∷ fields) plan after
    push-IsPlanned field fields (typed v) plan after h rest = record {
      values = v ∷ rest.values;
      unresolved = rest.unresolved;
      added_values = rest.added_values ∙ append-one plan.values v rest.values;
      added_unresolved = rest.added_unresolved;
      covers = next_typed h.0 rest.covers;
      honest = (h.1, rest.honest);
    }
    push-IsPlanned field fields (left_open u) plan after h rest = record {
      values = rest.values;
      unresolved = u ∷ rest.unresolved;
      added_values = rest.added_values;
      added_unresolved = rest.added_unresolved ∙ append-one plan.unresolved u rest.unresolved;
      covers = next_open h rest.covers;
      honest = rest.honest;
    }

    plan_from-IsPlanned :
        (fields : List FormField) (plan : FillPlan)
        → IsPlanned fields plan (plan_from lower answers att fields plan)
    unfolding plan_from
    plan_from-IsPlanned [] plan = record {
      values = [];
      unresolved = [];
      added_values = sym (append-nil plan.values);
      added_unresolved = sym (append-nil plan.unresolved);
      covers = ended;
      honest = tt;
    }
    plan_from-IsPlanned (field ∷ fields) plan =
        let o : Outcome = plan_field lower answers att field in
        push-IsPlanned field fields o plan _ (plan_field-IsFine answers att field)
          (plan_from-IsPlanned fields (push_outcome o plan))

pub build_plan-IsHonest :
    (lower : Text → Text) (fields : List FormField) (answers : List FillField)
    (has_attachment : Bool)
    → All
        (IsHonest lower answers has_attachment)
        (build_plan lower fields answers has_attachment).values
      × Covers lower answers has_attachment fields
          (build_plan lower fields answers has_attachment).values
          (build_plan lower fields answers has_attachment).unresolved
unfolding build_plan
build_plan-IsHonest lower fields answers has_attachment =
    let h =
      plan_from-IsPlanned lower answers has_attachment fields
        (record { values = []; unresolved = [] }) in
    (rw h.added_values h.honest, rw (h.added_values, h.added_unresolved) h.covers)
