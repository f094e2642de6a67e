-- ===== src/Applications/Review.antt =====
-- What the transitions of an application guarantee along any history.
use octopus_job_search.Base.{
  ◌≡◌, refl, sym, ap, ◌∙◌, inl, inr, Bool, true, false, not, ◌||◌, List, [], ◌∷◌, arith,
}
use octopus_job_search.Base.Tests.{Bool-cases, if-true, if-false}
use octopus_job_search.Base.Lists.{any, every}
use octopus_job_search.Applications.Status.{
  ApplicationStatus, ApplicationStatus-discrete, same_status, application_transitions, is_allowed,
  is_terminal_status, draft, preparing, needs_input, ready_for_review, approved, filling,
  awaiting_user_submit, submitted, outcome_unknown, failed, cancelled, interview, rejected, offer,
  withdrawn,
}
use octopus_job_search.Applications.Transition.{done, walk}

abbrev all_statuses : List ApplicationStatus
all_statuses =
    draft ∷ preparing ∷ needs_input ∷ ready_for_review ∷ approved ∷ filling ∷ awaiting_user_submit
    ∷ submitted ∷ outcome_unknown ∷ failed ∷ cancelled ∷ interview ∷ rejected ∷ offer ∷ withdrawn
    ∷ []

-- A test that holds of every status on the list holds of every status.
every-status :
    (p : ApplicationStatus → Bool)
    → every p all_statuses ≡ true
    → (s : ApplicationStatus) → p s ≡ true
every-status p h draft = ground (arith, h)
every-status p h preparing = ground (arith, h)
every-status p h needs_input = ground (arith, h)
every-status p h ready_for_review = ground (arith, h)
every-status p h approved = ground (arith, h)
every-status p h filling = ground (arith, h)
every-status p h awaiting_user_submit = ground (arith, h)
every-status p h submitted = ground (arith, h)
every-status p h outcome_unknown = ground (arith, h)
every-status p h failed = ground (arith, h)
every-status p h cancelled = ground (arith, h)
every-status p h interview = ground (arith, h)
every-status p h rejected = ground (arith, h)
every-status p h offer = ground (arith, h)
every-status p h withdrawn = ground (arith, h)

every-two :
    (p : ApplicationStatus → ApplicationStatus → Bool)
    → every (λ a. every (p a) all_statuses) all_statuses ≡ true
    → (a b : ApplicationStatus) → p a b ≡ true
every-two p h a b = every-status (p a) (every-status (λ c. every (p c) all_statuses) h a) b

-- The path passes through the status.
abbrev pub visits : ApplicationStatus → List ApplicationStatus → Bool
visits s path = any (λ hop. same_status hop s) path

walk_parts :
    (from hop : ApplicationStatus) (path : List ApplicationStatus) {to : ApplicationStatus}
    → walk from (hop ∷ path) ≡ done to
    → (is_allowed from hop ≡ true) × (walk hop path ≡ done to)
unfolding walk
walk_parts from hop path e = elim (Bool-cases (is_allowed from hop)) [
  | inl t ↦ (t, sym (if-true _ _ t) ∙ e)
  | inr f ↦ cc (sym (if-false _ _ f) ∙ e)
]

done-injective : {a b : ApplicationStatus} → done a ≡ done b → a ≡ b
done-injective e = cc

-- A region of statuses that is entered through one status alone.
module _ (region : ApplicationStatus → Bool) (gate : ApplicationStatus)
    (only : (a b : ApplicationStatus)
      → (not (is_allowed a b) || (region a || (not (region b) || same_status b gate))) ≡ true) where
  gate-visited :
      (from : ApplicationStatus) (path : List ApplicationStatus) {to : ApplicationStatus}
      → walk from path ≡ done to
      → region from ≡ false
      → region to ≡ true
      → visits gate path ≡ true
  unfolding walk
  gate-visited from [] e out in_region = cc (ap region (done-injective e), out, in_region)
  gate-visited from (hop ∷ path) e out in_region =
      let parts = walk_parts from hop path e in
      elim (Bool-cases (region hop)) [
        | inl r ↦ ground (arith, only from hop, parts.0, out, r)
        | inr o ↦ ground (arith, gate-visited hop path parts.1 o in_region)
      ]

abbrev pub is_reviewed : ApplicationStatus → Bool
is_reviewed ready_for_review = true
is_reviewed approved = true
is_reviewed filling = true
is_reviewed _ = false

abbrev pub is_released : ApplicationStatus → Bool
is_released approved = true
is_released filling = true
is_released _ = false

only_review :
    (a b : ApplicationStatus)
    → (not (is_allowed a b)
        || (is_reviewed a || (not (is_reviewed b) || same_status b ready_for_review)))
      ≡ true
unfolding is_allowed same_status ApplicationStatus-discrete application_transitions
only_review = every-two _ refl

only_approval :
    (a b : ApplicationStatus)
    → (not (is_allowed a b) || (is_released a || (not (is_released b) || same_status b approved)))
      ≡ true
unfolding is_allowed same_status ApplicationStatus-discrete application_transitions
only_approval = every-two _ refl

reviewed_first : (s : ApplicationStatus) → (is_reviewed s || not (is_released s)) ≡ true
reviewed_first = every-status _ refl

-- No application comes to be filled unreviewed: each allowed path to `filling` that starts neither
-- there nor at `approved` or `ready_for_review` passes through both of these.
pub walk-IsReviewed :
    (from : ApplicationStatus) (path : List ApplicationStatus)
    → is_reviewed from ≡ false
    → walk from path ≡ done filling
    → (visits ready_for_review path ≡ true) × (visits approved path ≡ true)
walk-IsReviewed from path out e = (
  gate-visited is_reviewed ready_for_review only_review from path e out refl,
  gate-visited is_released approved only_approval from path e
      (ground (arith, reviewed_first from, out)) refl,
)

only_itself :
    (a b : ApplicationStatus)
    → (not (is_terminal_status a) || (not (is_allowed a b) || same_status b a)) ≡ true
unfolding is_allowed same_status ApplicationStatus-discrete application_transitions
    is_terminal_status
only_itself = every-two _ refl

decided :
    {a b : ApplicationStatus} (d : Dec (a ≡ b))
    → (elim d [ yes e ↦ true | no n ↦ false ]) ≡ true
    → a ≡ b
decided (yes e) h = e
decided (no n) h = cc

pub same_status-≡ : (a b : ApplicationStatus) → same_status a b ≡ true → a ≡ b
unfolding same_status
same_status-≡ a b h = decided (ApplicationStatus-discrete a b) h

walk-final :
    (from : ApplicationStatus) (path : List ApplicationStatus) {to : ApplicationStatus}
    → is_terminal_status from ≡ true
    → walk from path ≡ done to
    → to ≡ from
unfolding walk
walk-final from [] h e = sym (done-injective e)
walk-final from (hop ∷ path) h e =
    let parts = walk_parts from hop path e in
    let stays : hop ≡ from =
      same_status-≡ hop from (ground (arith, only_itself from hop, h, parts.0)) in
    walk-final hop path (cc (h, stays)) parts.1 ∙ stays

-- A path of one hop ends at it.
pub walk-last :
    (from hop : ApplicationStatus) {to : ApplicationStatus}
    → walk from (hop ∷ []) ≡ done to
    → to ≡ hop
unfolding walk
walk-last from hop e = sym (done-injective (walk_parts from hop [] e).1)
