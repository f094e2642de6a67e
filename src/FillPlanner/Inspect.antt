-- ===== src/FillPlanner/Inspect.antt =====
-- packages/fill-planner/src/inspect.ts: from what a page reader saw to fields.
use octopus_job_search.Base.{Bool, ◌||◌, List, [], ◌∷◌, map}
use octopus_job_search.Base.Tests.{if◌then◌else◌}
use octopus_job_search.Base.Lists.{any}
use octopus_job_search.Base.Text.{Text, codes, text_eq, trim, is_blank}
use octopus_job_search.FillPlanner.Forms.{
  FieldKind, FormField, text, textarea, email, tel, url, number, select, radio, checkbox, file,
  unsupported, object_constructor, object_prototype,
}
use octopus_job_search.FillPlanner.Values.{
  Value, Items, Entries, object, nil, cons, to_string, text_of, truthy, list_of, property,
}

-- `INPUT_KINDS[name] ?? 'unsupported'`; a plain object also answers to two lower-case names that it
-- inherits.
unfoldable pub input_kind : Text → FieldKind
input_kind name =
    if text_eq name (codes "text")
    then text
    else if text_eq name (codes "email")
    then email
    else if text_eq name (codes "tel")
    then tel
    else if text_eq name (codes "url")
    then url
    else if text_eq name (codes "number")
    then number
    else if text_eq name (codes "search")
    then text
    else if text_eq name (codes "textarea")
    then textarea
    else if text_eq name (codes "select")
    then select
    else if text_eq name (codes "radio")
    then radio
    else if text_eq name (codes "checkbox")
    then checkbox
    else if text_eq name (codes "file")
    then file
    else if text_eq name (codes "constructor")
    then object_constructor
    else if text_eq name (codes "__proto__")
    then object_prototype
    else unsupported

unfoldable pub kind_from_raw : (Text → Text) → Text → FieldKind
kind_from_raw lower raw = input_kind (lower (trim raw))

-- The loop over `rawOptions` and `rawValues`, to the end of the shorter; blank options are skipped.
unfoldable pub zip_options : Items → Items → List (Text × Text)
unfolding to_string
zip_options nil vs = []
zip_options (cons o os) nil = []
zip_options (cons o os) (cons v vs) =
    let rest = zip_options os vs in
    if is_blank (trim (to_string o)) then rest else (to_string o, to_string v) ∷ rest

abbrev pub values_or : Items → Items → Items
values_or nil options = options
values_or (cons v vs) options = cons v vs

unfoldable pub row_options : Entries → List (Text × Text)
unfolding zip_options list_of property
row_options row =
    let raw_options : Items = list_of (property (codes "options") row) in
    zip_options raw_options (values_or (list_of (property (codes "option_values") row)) raw_options)

abbrev pub labels_of : List (Text × Text) → List Text
labels_of = map (λ p. p.0)

abbrev pub values_of : List (Text × Text) → List Text
values_of = map (λ p. p.1)

unfoldable pub seen_key : Text → List Text → Bool
seen_key key = any (λ k. text_eq k key)

module _ (lower key_for : Text → Text) where
  -- The field of one row, under the key that it is given.
  unfoldable pub row_field : Entries → Text → FieldKind → FormField
  unfolding text_of property truthy row_options
  row_field row key kind = record {
    key = key;
    label = trim (text_of (property (codes "label") row));
    kind = kind;
    required = truthy (property (codes "required") row);
    options = labels_of (row_options row);
    option_values = values_of (row_options row);
    selector = text_of (property (codes "selector") row);
  }

  unfoldable pub row_key : Entries → Text
  unfolding text_of property
  row_key row = key_for (trim (text_of (property (codes "label") row)))

  unfoldable pub row_kind : Entries → FieldKind
  unfolding text_of property kind_from_raw
  row_kind row = kind_from_raw lower (text_of (property (codes "kind") row))

  -- A second control with a key is reported as unsupported, with no key.
  unfoldable pub next_field : List Text → Entries → FormField
  next_field seen row =
      if seen_key (row_key row) seen
      then row_field row [] unsupported
      else row_field row (row_key row) (row_kind row)

  unfoldable pub next_seen : List Text → Entries → List Text
  next_seen seen row =
      if seen_key (row_key row) seen || is_blank (row_key row) then seen else row_key row ∷ seen

  -- The loop of `parseFields`; what is no object is passed over.
  unfoldable pub parse_rows : List Text → Items → List FormField
  unfolding next_field next_seen
  parse_rows seen nil = []
  parse_rows seen (cons (object row) rest) =
      next_field seen row ∷ parse_rows (next_seen seen row) rest
  parse_rows seen (cons _ rest) = parse_rows seen rest

  unfoldable pub parse_fields : Value → List FormField
  unfolding parse_rows list_of
  parse_fields raw = parse_rows [] (list_of raw)
