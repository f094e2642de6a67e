-- ===== src/Applications/Status.antt =====
-- packages/contracts/src/schemas/applications.ts: the statuses and the transitions between them.
use octopus_job_search.Base.{Bool, true, false, ◌||◌, List, [], ◌∷◌}
use octopus_job_search.Base.Lists.{any}

pub data ApplicationStatus : Type 0 where
  draft preparing needs_input ready_for_review approved filling : ApplicationStatus
  awaiting_user_submit submitted outcome_unknown failed cancelled : ApplicationStatus
  interview rejected offer withdrawn : ApplicationStatus

unfoldable pub ApplicationStatus-discrete : Discrete ApplicationStatus
ApplicationStatus-discrete = hlevel

-- `===` on two statuses.
unfoldable pub same_status : ApplicationStatus → ApplicationStatus → Bool
unfolding ApplicationStatus-discrete
same_status a b = elim (ApplicationStatus-discrete a b) [ yes e ↦ true | no n ↦ false ]

-- APPLICATION_TRANSITIONS.
unfoldable pub application_transitions : ApplicationStatus → List ApplicationStatus
application_transitions draft = preparing ∷ submitted ∷ cancelled ∷ []
application_transitions preparing = needs_input ∷ ready_for_review ∷ failed ∷ cancelled ∷ []
application_transitions needs_input = preparing ∷ submitted ∷ cancelled ∷ []
application_transitions ready_for_review = approved ∷ preparing ∷ cancelled ∷ []
application_transitions approved =
    filling ∷ preparing ∷ ready_for_review ∷ submitted ∷ cancelled ∷ []
application_transitions filling =
    awaiting_user_submit ∷ needs_input ∷ approved ∷ failed ∷ preparing ∷ cancelled ∷ []
application_transitions awaiting_user_submit = submitted ∷ outcome_unknown ∷ failed ∷ cancelled ∷ []
application_transitions submitted = interview ∷ rejected ∷ offer ∷ withdrawn ∷ outcome_unknown ∷ []
application_transitions outcome_unknown = submitted ∷ preparing ∷ []
application_transitions failed = preparing ∷ cancelled ∷ []
application_transitions cancelled = []
application_transitions interview = rejected ∷ offer ∷ withdrawn ∷ []
application_transitions rejected = []
application_transitions offer = []
application_transitions withdrawn = []

-- TERMINAL_APPLICATION_STATUSES.
unfoldable pub is_terminal_status : ApplicationStatus → Bool
is_terminal_status cancelled = true
is_terminal_status rejected = true
is_terminal_status offer = true
is_terminal_status withdrawn = true
is_terminal_status _ = false

-- `isAllowedApplicationTransition`.
unfoldable pub is_allowed : ApplicationStatus → ApplicationStatus → Bool
unfolding same_status application_transitions
is_allowed from to = same_status from to || any (same_status to) (application_transitions from)
