-- ===== src/FillPlanner/Reading.antt =====
-- What `parseFields` of packages/fill-planner/src/inspect.ts makes of the rows of a page.
use octopus_job_search.Base.{◌≡◌, true, false, List, [], ◌∷◌, ◌⊎◌}
use octopus_job_search.Base.Tests.{if◌then◌else◌}
use octopus_job_search.Base.Lists.{any, All}
use octopus_job_search.Base.Text.{codes, trim, Text, text_eq, is_blank}
use octopus_job_search.FillPlanner.Forms.{FormField, unsupported}
use octopus_job_search.FillPlanner.Values.{
  Value, Items, Entries, undefined, null, boolean, numeral, string, array, object, nil, cons,
  list_of, to_string, text_of, property, truthy,
}
use octopus_job_search.FillPlanner.Inspect.{kind_from_raw, seen_key}

-- Two lists of a page, options and what they submit, with the labels and values that are read of them:
-- entries at one place go together, a blank option is left out with its value, and the shorter list
-- ends both.
pub data ReadOff : Items → Items → List Text → List Text → Type 0 where
  no_option : {vs : Items} → ReadOff nil vs [] []
  no_value : {o : Value} {os : Items} → ReadOff (cons o os) nil [] []
  left_out :
      {o v : Value} {os vs : Items} {labels values : List Text}
      → is_blank (trim (to_string o)) ≡ true
      → ReadOff os vs labels values
      → ReadOff (cons o os) (cons v vs) labels values
  taken :
      {o v : Value} {os vs : Items} {labels values : List Text}
      → is_blank (trim (to_string o)) ≡ false
      → ReadOff os vs labels values
      → ReadOff (cons o os) (cons v vs) (to_string o ∷ labels) (to_string v ∷ values)

-- Where a row names no submitted values, its options are.
abbrev pub Submits : Items → Items → List Text → List Text → Type 0
Submits nil options = ReadOff options options
Submits (cons v vs) options = ReadOff options (cons v vs)

-- The keys that are taken after a field.
abbrev pub taken_after : FormField → List Text → List Text
taken_after f keys = if is_blank f.key then keys else f.key ∷ keys

module _ (lower key_for : Text → Text) where
  -- The field that is read of a row, given the keys that are taken: one whose key is taken is
  -- unsupported and has none.
  abbrev pub IsRead : List Text → Entries → FormField → Type 0
  IsRead keys row f =
      (f.label ≡ trim (text_of (property (codes "label") row)))
      × (f.selector ≡ text_of (property (codes "selector") row))
      × (f.required ≡ truthy (property (codes "required") row))
      × (((any (λ k. text_eq k (key_for f.label)) keys ≡ true)
            × (f.key ≡ [])
            × (f.kind ≡ unsupported))
          ⊎ ((any (λ k. text_eq k (key_for f.label)) keys ≡ false)
              × (f.key ≡ key_for f.label)
              × (f.kind ≡ kind_from_raw lower (text_of (property (codes "kind") row)))))
      × Submits (list_of (property (codes "option_values") row))
          (list_of (property (codes "options") row)) f.options f.option_values

  -- One field for each row that is an object, in order.
  unfoldable pub Reads : List Text → Items → List FormField → Type 0
  Reads keys nil fs = fs ≡ []
  Reads keys (cons (object row) rest) fs =
      (f : FormField) × (others : List FormField) × (fs ≡ f ∷ others)
      × IsRead keys row f
      × Reads (taken_after f keys) rest others
  Reads keys (cons undefined rest) fs = Reads keys rest fs
  Reads keys (cons null rest) fs = Reads keys rest fs
  Reads keys (cons (boolean b) rest) fs = Reads keys rest fs
  Reads keys (cons (numeral n) rest) fs = Reads keys rest fs
  Reads keys (cons (string s) rest) fs = Reads keys rest fs
  Reads keys (cons (array items) rest) fs = Reads keys rest fs

-- Each named field has a key of its own.
abbrev pub HasOwnKeys : List FormField → Type 0
HasOwnKeys [] = Unit {0}
HasOwnKeys (f ∷ fs) =
    ((is_blank f.key ≡ true) ⊎ All (λ (g : FormField). text_eq f.key g.key ≡ false) fs)
    × HasOwnKeys fs

-- The key is empty, or none of these.
abbrev IsFresh : List Text → FormField → Type 0
IsFresh seen f = (is_blank f.key ≡ true) ⊎ (seen_key f.key seen ≡ false)
