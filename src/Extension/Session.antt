-- ===== src/Extension/Session.antt =====
-- apps/extension/src/session.ts: what to do with a page, given what the session was granted.
use octopus_job_search.Base.{Bool, false, not, Option, none, some, List, [], ◌∷◌, ◌++◌, map}
use octopus_job_search.Base.Tests.{◌==◌, if◌then◌else◌, is_some, or_else}
use octopus_job_search.Base.Lists.{length, keep, find, take}
use octopus_job_search.Base.Text.{Text, codes, text_eq}
use octopus_job_search.FillPlanner.Forms.{FieldKind, FormField, fingerprint_material}
use octopus_job_search.FillPlanner.Values.{Value}
use octopus_job_search.FillPlanner.Inspect.{parse_fields}
use octopus_job_search.FillPlanner.Identity.{
  Mismatch, IdentityCheck, parse_identity, check_identity,
}
use octopus_job_search.FillPlanner.Plan.{
  FillField, FillPlan, PlannedValue, UnresolvedField, file_upload_blocked, build_plan,
  has_unresolved_required, label_or_null,
}

pub data FillOutcome : Type 0 where
  awaiting_user_submit needs_input unsupported : FillOutcome

pub data FieldOutcome : Type 0 where
  filled skipped failed : FieldOutcome

pub record FilledField : Type 0 where
  pub question_key : Text
  pub outcome : FieldOutcome
  pub matched_label : Option Text

-- ReportFillSessionRequest.
pub record Report : Type 0 where
  pub filled_fields : List FilledField
  pub unresolved_fields : List UnresolvedField
  pub page_url : Option Text
  pub form_fingerprint : Option Text
  pub outcome : FillOutcome
  pub adapter : Option Text
  pub adapter_version : Option Text

-- What `decide` reads of a FillSessionGrant.
pub record Grant : Type 0 where
  pub origin : Text
  pub company : Text
  pub title : Text
  pub fields : List FillField
  pub resume_file_id : Option Text

pub record InspectedPage : Type 0 where
  pub url : Text
  pub identity : Value
  pub fields : Value

pub record FillInstruction : Type 0 where
  pub selector : Text
  pub kind : FieldKind
  pub values : List Text

pub record Attachment : Type 0 where
  pub selector : Text
  pub question_key : Text
  pub label : Option Text
  pub required : Bool

pub record Options : Type 0 where
  pub fingerprint : Option Text
  pub adapter : Option Text
  pub adapter_version : Option Text

pub data Refusal : Type 0 where
  wrong_origin : Option Text → Text → Refusal
  no_form : Refusal
  other_job : Mismatch → Refusal

pub data Decision : Type 0 where
  fill : List FillInstruction → Option Attachment → Report → Decision
  refuse : Refusal → Report → Decision

-- `formFingerprint`: `v1:` and the first 32 digits of the digest.
unfoldable pub form_fingerprint : Text → Text
form_fingerprint digest_hex = codes "v1:" ++ take 32 digest_hex

unfoldable pub to_instruction : PlannedValue → FillInstruction
to_instruction value = record {
  selector = value.field.selector;
  kind = value.field.kind;
  values = value.values;
}

abbrev filled_field : PlannedValue → FilledField
filled_field value = record {
  question_key = value.field.key;
  outcome = filled;
  matched_label = label_or_null value.field.label;
}

abbrev pub attachment_of : Option PlannedValue → Option Attachment
attachment_of none = none
attachment_of (some value) = some (record {
  selector = value.field.selector;
  question_key = value.field.key;
  label = label_or_null value.field.label;
  required = value.field.required;
})

abbrev pub is_typed : PlannedValue → Bool
is_typed value = not value.upload

abbrev base_report : InspectedPage → List FormField → Options → Report
base_report page fields options = record {
  filled_fields = [];
  unresolved_fields = [];
  page_url = some page.url;
  form_fingerprint = if length fields == 0 then none else options.fingerprint;
  outcome = unsupported;
  adapter = options.adapter;
  adapter_version = options.adapter_version;
}

-- `pageOrigin !== grant.origin`, negated.
unfoldable pub same_origin : Option Text → Text → Bool
same_origin none granted = false
same_origin (some origin) granted = text_eq origin granted

-- The decision once a plan is made.
unfoldable pub fill_by : FillPlan → Report → Decision
fill_by plan base =
    let typed : List PlannedValue = keep is_typed plan.values in
    fill (map to_instruction typed) (attachment_of (find (λ v. v.upload) plan.values))
      (record base {
        filled_fields = map filled_field typed;
        unresolved_fields = plan.unresolved;
        outcome = if has_unresolved_required plan then needs_input else awaiting_user_submit;
      })

-- `originOf`, the origin of a URL that parses, is the browser's; `lower` is `toLowerCase`, and
-- `key_for` the question key of a label.
module _ (origin_of : Text → Option Text) (lower key_for : Text → Text) where
  unfoldable pub fields_of : InspectedPage → List FormField
  fields_of page = parse_fields lower key_for page.fields

  unfoldable pub form_fingerprint_material : InspectedPage → Text
  form_fingerprint_material page = fingerprint_material (fields_of page)

  unfoldable pub identity_match : Grant → InspectedPage → IdentityCheck
  identity_match grant page =
      check_identity lower (parse_identity page.identity page.url (or_else (origin_of page.url) []))
        grant.company grant.title

  unfoldable pub plan_for : Grant → InspectedPage → FillPlan
  plan_for grant page =
      build_plan lower (fields_of page) grant.fields (is_some grant.resume_file_id)

  abbrev decide_matched : Grant → InspectedPage → Report → IdentityCheck → Decision
  decide_matched grant page base (some mismatch) = refuse (other_job mismatch) base
  decide_matched grant page base none = fill_by (plan_for grant page) base

  unfoldable pub decide : Grant → InspectedPage → Options → Decision
  decide grant page options =
      let base : Report = base_report page (fields_of page) options in
      if not (same_origin (origin_of page.url) grant.origin)
      then refuse (wrong_origin (origin_of page.url) grant.origin) base
      else if length (fields_of page) == 0
      then refuse no_form base
      else decide_matched grant page base (identity_match grant page)

-- `withBlockedAttachment`: the report when the CV could not be attached.
unfoldable pub with_blocked_attachment : Report → Attachment → Report
with_blocked_attachment report attachment = record report {
  unresolved_fields =
      report.unresolved_fields
      ++ record {
        question_key = attachment.question_key;
        label = attachment.label;
        required = attachment.required;
        reason = file_upload_blocked;
        options = [];
      }
        ∷ [];
  outcome = if attachment.required then needs_input else report.outcome;
}
