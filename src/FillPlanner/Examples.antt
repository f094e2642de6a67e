-- ===== src/FillPlanner/Examples.antt =====
-- A form of three controls, two of them asking the same, and the answers of a packet.
use mathlib.Core.List.{Memᴰ}
use octopus_job_search.Base.{
  ◌+◌, ◌≤◌, ◌≡◌, refl, sym, ◌∙◌, true, false, ◌&&◌, none, List, [], ◌∷◌, map, Permᴰ,
}
use octopus_job_search.Base.Tests.{if◌then◌else◌, leb}
use octopus_job_search.Base.Lists.{length}
use octopus_job_search.Base.Text.{Text, codes}
use octopus_job_search.FillPlanner.Forms.{
  FormField, AnswerSensitivity, email, select, normalize_question_key, fingerprint,
  AnswerSensitivity,
}
use octopus_job_search.FillPlanner.Values.{
  Value, Items, boolean, string, array, object, nil, cons, end, entry,
}
use octopus_job_search.FillPlanner.Plan
use octopus_job_search.FillPlanner.Plan.{FillField}
use octopus_job_search.FillPlanner.Keys.{AllSlug, starts_plain, normalize_question_key-IsKey}
use octopus_job_search.FillPlanner.Fingerprint.{
  same_field, SameShapes, HasKeys, fingerprint-SameShapes,
}

-- `toLowerCase` on ASCII.
abbrev ascii_lower : Text → Text
ascii_lower = map (λ c. if leb 65 c && leb c 90 then c + 32 else c)

abbrev key_for : Text → Text
key_for = normalize_question_key ascii_lower

normalize_question_key-IsKey_example :
    AllSlug (normalize_question_key ascii_lower (codes "First name?"))
    × (length (normalize_question_key ascii_lower (codes "First name?")) ≤ 120)
    × (starts_plain (normalize_question_key ascii_lower (codes "First name?")) ≡ true)
normalize_question_key-IsKey_example =
    normalize_question_key-IsKey ascii_lower (codes "First name?")

abbrev control : Text → Text → Items → Value
control label kind options = object (
    entry (codes "label") (string label) (
      entry (codes "kind") (string kind)
        (entry (codes "required") (boolean true) (entry (codes "options") (array options) end))))

abbrev controls : Value
controls = array (
    cons (control (codes "E-mail") (codes "email") nil) (
      cons
        (control (codes "Country") (codes "select")
          (cons (string (codes "Spain")) (cons (string (codes "France")) nil)))
        (cons (control (codes "e-mail") (codes "text") nil) nil)))

abbrev answer : Text → Text → FillField
answer key value = record {
  question_key = key;
  label = none;
  answer = Plan.string value;
  required = true;
  sensitivity = AnswerSensitivity.standard;
}

abbrev answers : List FillField
answers =
    answer (codes "e_mail") (codes "ada@example.org")
    ∷ answer (codes "country") (codes " spain ")
    ∷ []

abbrev email_field : FormField
email_field = record {
  key = codes "e_mail";
  label = codes "E-mail";
  kind = email;
  required = true;
  options = [];
  option_values = [];
  selector = codes "#a";
}

abbrev country_field : List Text → FormField
country_field options = record {
  key = codes "country";
  label = codes "Country";
  kind = select;
  required = false;
  options = options;
  option_values = options;
  selector = codes "#b";
}

abbrev spain_first : List Text
spain_first = codes "Spain" ∷ codes "France" ∷ []

abbrev france_first : List Text
france_first = codes "France" ∷ codes "Spain" ∷ []

abbrev form : List FormField
form = email_field ∷ country_field spain_first ∷ []

abbrev moved : List FormField
moved = country_field spain_first ∷ email_field ∷ []

-- The form on another day: the controls and the options stand in another order.
abbrev other_form : List FormField
other_form = country_field france_first ∷ email_field ∷ []

form-HasKeys : HasKeys form
form-HasKeys a b (Memᴰ.head e) (Memᴰ.head f) h = same_field a b (e ∙ sym f)
form-HasKeys a b (Memᴰ.head e) (Memᴰ.tail (Memᴰ.head f)) h = cc
form-HasKeys a b (Memᴰ.head e) (Memᴰ.tail (Memᴰ.tail n)) h = elim n [ ]
form-HasKeys a b (Memᴰ.tail (Memᴰ.head e)) (Memᴰ.head f) h = cc
form-HasKeys a b (Memᴰ.tail (Memᴰ.head e)) (Memᴰ.tail (Memᴰ.head f)) h = same_field a b (e ∙ sym f)
form-HasKeys a b (Memᴰ.tail (Memᴰ.head e)) (Memᴰ.tail (Memᴰ.tail n)) h = elim n [ ]
form-HasKeys a b (Memᴰ.tail (Memᴰ.tail m)) n h = elim m [ ]

form-moved : Permᴰ form moved
form-moved = Permᴰ.swap refl refl

moved-other : SameShapes moved other_form
moved-other = (
  record {
    same_key = refl;
    same_kind = refl;
    same_required = refl;
    same_options = Permᴰ.swap refl refl;
  },
  (
    record { same_key = refl; same_kind = refl; same_required = refl; same_options = Permᴰ.nil },
    tt,
  ),
)

fingerprint-SameShapes_example : fingerprint (λ t. t) form ≡ fingerprint (λ t. t) other_form
fingerprint-SameShapes_example =
    fingerprint-SameShapes (λ t. t) form moved other_form form-HasKeys form-moved moved-other
