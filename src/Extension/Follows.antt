-- ===== src/Extension/Follows.antt =====
-- What goes into a page and what is reported, against a plan, for apps/extension/src/session.ts.
use mathlib.Core.List.{Memᴰ}
use octopus_job_search.Base.{
  ◌≡◌, refl, inl, inr, true, false, Option, none, some, List, [], ◌∷◌, map, ◌⊎◌,
}
use octopus_job_search.Base.Tests.{Bool-cases}
use octopus_job_search.Base.Lists.{keep, find, find-Memᴰ, any, All}
use octopus_job_search.FillPlanner.Plan.{PlannedValue, UnresolvedField}
use octopus_job_search.Extension.Session.{
  FillInstruction, Attachment, Report, needs_input, awaiting_user_submit, is_typed, to_instruction,
  attachment_of,
}

-- The typed values in order, each with its control and what goes into it; uploads are left to the
-- attachment.
unfoldable pub Fills : List PlannedValue → List FillInstruction → Type 0
Fills [] made = made ≡ []
Fills (v ∷ vs) made =
    ((v.upload ≡ true) × Fills vs made)
    ⊎ ((v.upload ≡ false)
        × ((i : FillInstruction) × (rest : List FillInstruction) × (made ≡ i ∷ rest)
            × (i.selector ≡ v.field.selector)
            × (i.kind ≡ v.field.kind)
            × (i.values ≡ v.values)
            × Fills vs rest))

pub typed-Fills : (vs : List PlannedValue) → Fills vs (map to_instruction (keep is_typed vs))
unfolding Fills to_instruction
typed-Fills [] = refl
typed-Fills (v ∷ vs) = elim (Bool-cases v.upload) [
  | inl t ↦ inl (t, rw t (typed-Fills vs))
  | inr f ↦ inr (
    f,
    (
      to_instruction v,
      map to_instruction (keep is_typed vs),
      rw f refl,
      refl,
      refl,
      refl,
      typed-Fills vs,
    ),
  )
]

-- The attachment goes to a control that is planned as an upload, where there is one.
abbrev pub Attaches : List PlannedValue → Option Attachment → Type 0
Attaches vs none = All (λ (v : PlannedValue). v.upload ≡ false) vs
Attaches vs (some a) =
    (v : PlannedValue) × Memᴰ v vs × (v.upload ≡ true) × (a.selector ≡ v.field.selector)

none-uploads :
    (vs : List PlannedValue)
    → find (λ (v : PlannedValue). v.upload) vs ≡ none
    → All (λ (v : PlannedValue). v.upload ≡ false) vs
none-uploads [] e = tt
none-uploads (v ∷ vs) e = elim (Bool-cases v.upload) [
  | inl t ↦ cc (rw t at e)
  | inr f ↦ (f, none-uploads vs (rw f at e))
]

pub found-Attaches :
    (vs : List PlannedValue) (o : Option PlannedValue)
    → find (λ (v : PlannedValue). v.upload) vs ≡ o
    → Attaches vs (attachment_of o)
found-Attaches vs none e = none-uploads vs e
found-Attaches vs (some v) e =
    let (m, t) = find-Memᴰ (λ (q : PlannedValue). q.upload) vs e in (v, m, t, refl)

-- A required question is open, and input is asked for; or none is, and the person's own submission is
-- awaited.
abbrev pub Pauses : Report → Type 0
Pauses report =
    (((u : UnresolvedField) × Memᴰ u report.unresolved_fields × (u.required ≡ true))
      × (report.outcome ≡ needs_input))
    ⊎ (All (λ (u : UnresolvedField). u.required ≡ false) report.unresolved_fields
        × (report.outcome ≡ awaiting_user_submit))

pub required_cases :
    (us : List UnresolvedField)
    → (((u : UnresolvedField) × Memᴰ u us × (u.required ≡ true))
        × (any (λ (u : UnresolvedField). u.required) us ≡ true))
      ⊎ (All (λ (u : UnresolvedField). u.required ≡ false) us
          × (any (λ (u : UnresolvedField). u.required) us ≡ false))
required_cases [] = inr (tt, refl)
required_cases (u ∷ us) = elim (Bool-cases u.required) [
  | inl t ↦ inl ((u, Memᴰ.head refl, t), rw t refl)
  | inr f ↦ elim (required_cases us) [
    | inl ((v, m, t), h) ↦ inl ((v, Memᴰ.tail m, t), rw f h)
    | inr (none_open, h) ↦ inr ((f, none_open), rw f h)
  ]
]
