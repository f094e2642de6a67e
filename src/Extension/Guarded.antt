-- ===== src/Extension/Guarded.antt =====
-- When `decide` of apps/extension/src/session.ts lets a page be touched, and what it then reports.
use octopus_job_search.Base.{◌≡◌, refl, ap, inl, inr, true, false, Option, none, some, List, []}
use octopus_job_search.Base.Tests.{◌==◌, is_some, or_else, Bool-cases, Option-cases}
use octopus_job_search.Base.Lists.{length, All}
use octopus_job_search.Base.Text.{Text, codes, trim, text_eq_iff}
use octopus_job_search.FillPlanner.Values.{text_of}
use octopus_job_search.FillPlanner.Identity.{data_property, parse_identity}
use octopus_job_search.FillPlanner.Plan.{FillPlan, has_unresolved_required}
use octopus_job_search.FillPlanner.Honesty.{IsHonest, Covers}
use octopus_job_search.FillPlanner.Honest.{build_plan-IsHonest}
use octopus_job_search.Extension.Session.{
  Grant, InspectedPage, Options, FillInstruction, Attachment, Report, Decision, fill, refuse,
  unsupported, same_origin, identity_match, fields_of, plan_for, fill_by, decide,
}
use octopus_job_search.Extension.Named.{NamesJob, check_identity-NamesJob, NamesJob-check_identity}
use octopus_job_search.Extension.Follows.{
  Fills, Attaches, Pauses, typed-Fills, found-Attaches, required_cases,
}

module _ (origin_of : Text → Option Text) (lower key_for : Text → Text) where
  -- The page is at the granted origin, has a form that can be read, and names the packet's job: it
  -- states a company or a title, and what it states agrees.
  abbrev pub IsGrantedPage : Grant → InspectedPage → Type 0
  IsGrantedPage grant page =
      (origin_of page.url ≡ some grant.origin)
      × ((length (fields_of origin_of lower key_for page) == 0) ≡ false)
      × NamesJob lower (trim (text_of (data_property (codes "company") page.identity)))
          (trim (text_of (data_property (codes "title") page.identity))) grant.company grant.title

  -- Nothing is reported as filled, and the page is reported as unsupported.
  abbrev pub IsUntouched : Report → Type 0
  IsUntouched report =
      (report.filled_fields ≡ []) × (report.unresolved_fields ≡ []) × (report.outcome ≡ unsupported)

  -- What goes into the page is a plan's: honest values of the packet, for fields of this form.
  abbrev pub FollowsPlan :
      Grant → InspectedPage → List FillInstruction → Option Attachment → Report → Type 0
  FollowsPlan grant page instructions attachment report =
      (plan : FillPlan) × All (IsHonest lower grant.fields (is_some grant.resume_file_id))
        plan.values
      × Covers lower grant.fields (is_some grant.resume_file_id)
          (fields_of origin_of lower key_for page) plan.values plan.unresolved
      × Fills plan.values instructions
      × Attaches plan.values attachment
      × (report.unresolved_fields ≡ plan.unresolved)

  abbrev pub IsGuarded : Grant → InspectedPage → Decision → Type 0
  IsGuarded grant page (fill instructions attachment report) =
      IsGrantedPage grant page
      × FollowsPlan grant page instructions attachment report
      × Pauses report
  IsGuarded grant page (refuse reason report) = (IsGrantedPage grant page → ⊥) × IsUntouched report

  same_origin-some :
      (o : Option Text) (granted : Text) → same_origin o granted ≡ true → o ≡ some granted
  unfolding same_origin
  same_origin-some none granted h = cc
  same_origin-some (some o) granted h = ap some ((text_eq_iff o granted).0 h)

  same_origin_refl :
      (o : Option Text) (granted : Text) → o ≡ some granted → same_origin o granted ≡ true
  unfolding same_origin
  same_origin_refl none granted h = cc
  same_origin_refl (some o) granted h = (text_eq_iff o granted).1 (cc h)

  fill_by-IsGuarded :
      (grant : Grant) (page : InspectedPage) (base : Report)
      → IsGrantedPage grant page
      → IsGuarded grant page (fill_by (plan_for origin_of lower key_for grant page) base)
  unfolding fill_by plan_for has_unresolved_required
  fill_by-IsGuarded grant page base granted =
      let plan = plan_for origin_of lower key_for grant page in
      let (honest, covers) =
        build_plan-IsHonest lower (fields_of origin_of lower key_for page) grant.fields
          (is_some grant.resume_file_id) in
      (
        granted,
        (plan, honest, covers, typed-Fills plan.values, found-Attaches plan.values _ refl, refl),
        elim (required_cases plan.unresolved) [
          | inl (open_one, h) ↦ inl (open_one, rw h refl)
          | inr (none_open, h) ↦ inr (none_open, rw h refl)
        ],
      )

  -- A page is touched only where it is at the granted origin, has a form that can be read, and names
  -- the packet's job, and it is always touched there. What goes into it are the values of a plan that
  -- goes through the form's fields in order and is honest about the packet's answers, each into its own
  -- control, and the attachment into a control that is planned as an upload; every field that the plan
  -- leaves open is reported, and the report asks for input exactly where a required one is open, and
  -- awaits the person's own submission otherwise. Where the page is not touched, the report says that
  -- nothing is filled.
  pub decide-IsGuarded :
      (grant : Grant) (page : InspectedPage) (options : Options)
      → IsGuarded grant page (decide origin_of lower key_for grant page options)
  unfolding decide identity_match parse_identity
  decide-IsGuarded grant page options =
      elim (Bool-cases (same_origin (origin_of page.url) grant.origin)) [
        | inr f ↦ rw f (
          (λ g. cc (same_origin_refl (origin_of page.url) grant.origin g.0, f)),
          (refl, refl, refl),
        )
        | inl t ↦ elim (Bool-cases (length (fields_of origin_of lower key_for page) == 0)) [
          | inl z ↦ rw (t, z) ((λ g. cc (g.1, z)), (refl, refl, refl))
          | inr z ↦ elim (Option-cases (identity_match origin_of lower key_for grant page)) [
            | inr (m, e) ↦
                rw (t, z, e)
                  (
                    (λ g.
                        let matched : identity_match origin_of lower key_for grant page ≡ none =
                          NamesJob-check_identity lower
                            (trim (text_of (data_property (codes "company") page.identity)))
                            (trim (text_of (data_property (codes "title") page.identity))) page.url
                            (or_else (origin_of page.url) []) grant.company grant.title g.2 in
                        cc (matched, e)),
                    (refl, refl, refl),
                  )
            | inl e ↦
                rw (t, z, e)
                  (fill_by-IsGuarded grant page _ (
                    same_origin-some (origin_of page.url) grant.origin t,
                    z,
                    check_identity-NamesJob lower _ _ page.url _ grant.company grant.title e,
                  ))
          ]
        ]
      ]
