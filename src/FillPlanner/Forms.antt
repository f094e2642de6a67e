-- ===== src/FillPlanner/Forms.antt =====
-- packages/fill-planner/src/forms.ts: fields, question keys, sensitivity and the fingerprint material.
use octopus_job_search.Base.{ℕ, Bool, true, false, ◌&&◌, ◌||◌, List, [], ◌∷◌, ◌++◌, map}
use octopus_job_search.Base.Tests.{◌==◌, leb, if◌then◌else◌}
use octopus_job_search.Base.Lists.{take, any}
use octopus_job_search.Base.Text.{Text, codes, text_lt, trim, includes, join}
use octopus_job_search.Base.Sort.{sort}

pub data FieldKind : Type 0 where
  text textarea email tel url number select radio checkbox file unsupported : FieldKind
  -- What `INPUT_KINDS['constructor']` and `INPUT_KINDS['__proto__']` are: inherited, and no kinds.
  object_constructor object_prototype : FieldKind

-- CHOICE_KINDS.
abbrev pub is_choice : FieldKind → Bool
is_choice select = true
is_choice radio = true
is_choice checkbox = true
is_choice _ = false

-- FREE_TEXT_KINDS.
abbrev pub is_free_text : FieldKind → Bool
is_free_text text = true
is_free_text textarea = true
is_free_text email = true
is_free_text tel = true
is_free_text url = true
is_free_text number = true
is_free_text _ = false

unfoldable pub kind_name : FieldKind → Text
kind_name text = codes "text"
kind_name textarea = codes "textarea"
kind_name email = codes "email"
kind_name tel = codes "tel"
kind_name url = codes "url"
kind_name number = codes "number"
kind_name select = codes "select"
kind_name radio = codes "radio"
kind_name checkbox = codes "checkbox"
kind_name file = codes "file"
kind_name unsupported = codes "unsupported"
kind_name object_constructor = codes "function Object() { [native code] }"
kind_name object_prototype = codes "[object Object]"

unfoldable pub never_reuse_label_fragments : List Text
never_reuse_label_fragments =
    codes "gender"
    ∷ codes "race"
    ∷ codes "ethnic"
    ∷ codes "hispanic"
    ∷ codes "latino"
    ∷ codes "veteran"
    ∷ codes "disability"
    ∷ codes "disabled"
    ∷ codes "sexual orientation"
    ∷ codes "date of birth"
    ∷ codes "birth date"
    ∷ codes "social security"
    ∷ codes "ssn"
    ∷ codes "national id"
    ∷ codes "identity verification"
    ∷ codes "passport number"
    ∷ codes "driver's license"
    ∷ codes "assessment"
    ∷ codes "personality"
    ∷ codes "criminal"
    ∷ codes "background check"
    ∷ codes "medical"
    ∷ codes "pregnan"
    ∷ codes "religio"
    ∷ codes "pronoun"
    ∷ codes "age range"
    ∷ codes "self-identif"
    ∷ []

unfoldable pub sensitive_label_fragments : List Text
sensitive_label_fragments =
    codes "phone"
    ∷ codes "address"
    ∷ codes "salary"
    ∷ codes "compensation"
    ∷ codes "visa"
    ∷ codes "sponsor"
    ∷ codes "work authorization"
    ∷ codes "right to work"
    ∷ codes "notice period"
    ∷ []

pub data AnswerSensitivity : Type 0 where
  standard sensitive never_reuse : AnswerSensitivity

abbrev pub max_question_key_length : ℕ
max_question_key_length = 120

abbrev pub is_key_char : ℕ → Bool
is_key_char c = (leb b'a' c && leb c b'z') || (leb b'0' c && leb c b'9')

-- `.replace(/[^a-z0-9]+/g, '_')`: each run of other characters becomes one underscore. The flag says
-- that the previous character was such a one.
unfoldable pub collapse : Bool → Text → Text
collapse in_run [] = []
collapse in_run (c ∷ s) =
    let plain = c ∷ collapse false s in
    let fresh = b'_' ∷ collapse true s in
    let more = collapse true s in if is_key_char c then plain else (if in_run then more else fresh)

-- `.replace(/^_+/, '')`.
unfoldable pub strip_start : Text → Text
strip_start [] = []
strip_start (c ∷ s) = let rest = strip_start s in if c == b'_' then rest else c ∷ s

-- `.replace(/_+$/, '')`.
unfoldable pub strip_end : Text → Text
strip_end [] = []
strip_end (c ∷ s) = elim (strip_end s) [
  | [] ↦ if c == b'_' then [] else c ∷ []
  | d ∷ rest ↦ c ∷ d ∷ rest
]

unfoldable pub normalize_question_key : (Text → Text) → Text → Text
normalize_question_key lower label =
    take max_question_key_length (strip_end (strip_start (collapse false (lower (trim label)))))

unfoldable pub sensitivity_for : (Text → Text) → Text → AnswerSensitivity
sensitivity_for lower label =
    if any (λ fragment. includes (lower label) fragment) never_reuse_label_fragments
    then never_reuse
    else if any (λ fragment. includes (lower label) fragment) sensitive_label_fragments
    then sensitive
    else standard

pub record FormField : Type 0 where
  pub key : Text
  pub label : Text
  pub kind : FieldKind
  pub required : Bool
  pub options : List Text
  pub option_values : List Text
  pub selector : Text

-- `key:kind:required:options` of one field, its options sorted.
unfoldable pub field_material : FormField → Text
field_material item =
    item.key
    ++ (codes ":"
        ++ (kind_name item.kind
            ++ (codes ":"
                ++ ((if item.required then codes "1" else codes "0")
                    ++ (codes ":" ++ join (codes "|") (sort text_lt item.options))))))

-- `left.key < right.key`.
unfoldable pub key_lt : FormField → FormField → Bool
key_lt left right = text_lt left.key right.key

unfoldable pub fingerprint_material : List FormField → Text
fingerprint_material fields = join (codes "\n") (map field_material (sort key_lt fields))

-- `v1:` and 32 characters of the digest, which is given.
unfoldable pub fingerprint : (Text → Text) → List FormField → Text
fingerprint sha256_hex fields = codes "v1:" ++ take 32 (sha256_hex (fingerprint_material fields))
