-- ===== src/FillPlanner/Fingerprint.antt =====
-- What the fingerprint of a form depends on.
use mathlib.Core.List.{Memᴰ}
use octopus_job_search.Base.{
  Bool, sym, ap, ◌∙◌, ◌≡◌, refl, inl, inr, true, false, List, [], ◌∷◌, map, Permᴰ,
}
use octopus_job_search.Base.Tests.{Bool-cases}
use octopus_job_search.Base.Text.{Text, text_lt, text_lt_trans, text_lt_irrefl, text_lt_total}
use octopus_job_search.Base.Sort.{sort, insert, IsStrict, IsTotalOn, sort-Permᴰ}
use octopus_job_search.FillPlanner.Forms.{
  FormField, field_material, key_lt, fingerprint_material, fingerprint,
}

text_strict : IsStrict text_lt
text_strict = record { irrefl = text_lt_irrefl; trans = text_lt_trans }

-- The same question with its options in any order; labels, values and selectors are left out.
pub record SameShape (f g : FormField) : Type 0 where
  pub same_key : f.key ≡ g.key
  pub same_kind : f.kind ≡ g.kind
  pub same_required : f.required ≡ g.required
  pub same_options : Permᴰ f.options g.options

field_material_same : (f g : FormField) → SameShape f g → field_material f ≡ field_material g
unfolding field_material
field_material_same f g h =
    let options : sort text_lt f.options ≡ sort text_lt g.options =
      sort-Permᴰ text_lt text_strict h.same_options (λ a b i j. text_lt_total a b) in
    cc (h.same_key, h.same_kind, h.same_required, options)

abbrev pub SameShapes : List FormField → List FormField → Type 0
SameShapes [] [] = Unit {0}
SameShapes [] (g ∷ gs) = ⊥
SameShapes (f ∷ fs) [] = ⊥
SameShapes (f ∷ fs) (g ∷ gs) = SameShape f g × SameShapes fs gs

insert_same :
    (f g : FormField) (fs gs : List FormField)
    → SameShape f g
    → SameShapes fs gs
    → SameShapes (insert key_lt f fs) (insert key_lt g gs)
unfolding insert key_lt
insert_same f g [] [] h k = (h, tt)
insert_same f g [] (y ∷ gs) h k = absurd k
insert_same f g (x ∷ fs) [] h k = absurd k
insert_same f g (x ∷ fs) (y ∷ gs) h k = elim (Bool-cases (text_lt x.key f.key)) [
  | inl t ↦
      let t' : text_lt y.key g.key ≡ true = cc (t, h.same_key, k.0.same_key) in
      rw (t, t') (k.0, insert_same f g fs gs h k.1)
  | inr t ↦
      let t' : text_lt y.key g.key ≡ false = cc (t, h.same_key, k.0.same_key) in rw (t, t') (h, k)
]

sort_same :
    (fs gs : List FormField) → SameShapes fs gs → SameShapes (sort key_lt fs) (sort key_lt gs)
unfolding sort
sort_same [] [] k = tt
sort_same [] (g ∷ gs) k = absurd k
sort_same (f ∷ fs) [] k = absurd k
sort_same (f ∷ fs) (g ∷ gs) k =
    insert_same f g (sort key_lt fs) (sort key_lt gs) k.0 (sort_same fs gs k.1)

material_same :
    (fs gs : List FormField) → SameShapes fs gs → map field_material fs ≡ map field_material gs
material_same [] [] k = refl
material_same [] (g ∷ gs) k = absurd k
material_same (f ∷ fs) [] k = absurd k
material_same (f ∷ fs) (g ∷ gs) k = cc (field_material_same f g k.0, material_same fs gs k.1)

-- A field's key and its line of the material, which is all that the fingerprint takes of it.
abbrev line : FormField → Text × Text
line f = (f.key, field_material f)

abbrev line_lt : Text × Text → Text × Text → Bool
line_lt a b = text_lt a.0 b.0

line_strict : IsStrict line_lt
line_strict = record {
  irrefl = λ a. text_lt_irrefl a.0;
  trans = λ a b c. text_lt_trans a.0 b.0 c.0;
}

insert-line :
    (f : FormField) (fs : List FormField)
    → map line (insert key_lt f fs) ≡ insert line_lt (line f) (map line fs)
unfolding insert key_lt
insert-line f [] = refl
insert-line f (g ∷ gs) = elim (Bool-cases (text_lt g.key f.key)) [
  | inl t ↦ rw (t, insert-line f gs) refl
  | inr n ↦ rw n refl
]

sort-line : (fs : List FormField) → map line (sort key_lt fs) ≡ sort line_lt (map line fs)
unfolding sort
sort-line [] = refl
sort-line (f ∷ fs) = insert-line f (sort key_lt fs) ∙ ap (insert line_lt (line f)) (sort-line fs)

material-line :
    (fs : List FormField) → map field_material fs ≡ map (λ (l : Text × Text). l.1) (map line fs)
material-line [] = refl
material-line (f ∷ fs) = ap (λ l. field_material f ∷ l) (material-line fs)

Permᴰ-line : {fs gs : List FormField} → Permᴰ fs gs → Permᴰ (map line fs) (map line gs)
Permᴰ-line Permᴰ.nil = Permᴰ.nil
Permᴰ-line (Permᴰ.cons e p) = Permᴰ.cons (ap line e) (Permᴰ-line p)
Permᴰ-line (Permᴰ.swap e f) = Permᴰ.swap (ap line e) (ap line f)
Permᴰ-line (Permᴰ.trans p q) = Permᴰ.trans (Permᴰ-line p) (Permᴰ-line q)

Memᴰ-line :
    (fs : List FormField) {l : Text × Text}
    → Memᴰ l (map line fs)
    → (f : FormField) × Memᴰ f fs × (l ≡ line f)
Memᴰ-line [] m = elim m [ ]
Memᴰ-line (f ∷ fs) (Memᴰ.head e) = (f, Memᴰ.head refl, e)
Memᴰ-line (f ∷ fs) (Memᴰ.tail m) = let (g, n, e) = Memᴰ-line fs m in (g, Memᴰ.tail n, e)

same_options-refl : (options : List Text) → Permᴰ options options
same_options-refl [] = Permᴰ.nil
same_options-refl (o ∷ options) = Permᴰ.cons refl (same_options-refl options)

pub same_field : (a b : FormField) → a ≡ b → SameShape a b
same_field a b e = record {
  same_key = ap (λ f. f.key) e;
  same_kind = ap (λ f. f.kind) e;
  same_required = ap (λ f. f.required) e;
  same_options = rw e (same_options-refl b.options);
}

-- Fields of the form with one key, as those without any are, have one shape.
abbrev pub HasKeys : List FormField → Type 0
HasKeys fs = (a b : FormField) → Memᴰ a fs → Memᴰ b fs → a.key ≡ b.key → SameShape a b

lines_total : (fs : List FormField) → HasKeys fs → IsTotalOn line_lt (map line fs)
lines_total fs h a b i j below above =
    let (f, m, e) = Memᴰ-line fs i in
    let (g, n, d) = Memᴰ-line fs j in
    let keys : f.key ≡ g.key =
      sym (ap (λ (q : Text × Text). q.0) e)
      ∙ (text_lt_total a.0 b.0 below above ∙ ap (λ (q : Text × Text). q.0) d) in
    let materials = field_material_same f g (h f g m n keys) in e ∙ (cc (keys, materials) ∙ sym d)

moved_same :
    (fs hs : List FormField)
    → HasKeys fs
    → Permᴰ fs hs
    → map field_material (sort key_lt fs) ≡ map field_material (sort key_lt hs)
moved_same fs hs keys p =
    let lines : sort line_lt (map line fs) ≡ sort line_lt (map line hs) =
      sort-Permᴰ line_lt line_strict (Permᴰ-line p) (lines_total fs keys) in
    let all_lines : map line (sort key_lt fs) ≡ map line (sort key_lt hs) =
      sort-line fs ∙ (lines ∙ sym (sort-line hs)) in
    material-line (sort key_lt fs)
    ∙ (ap (map (λ (l : Text × Text). l.1)) all_lines ∙ sym (material-line (sort key_lt hs)))

-- Two forms have one fingerprint if their fields agree in key, kind, required mark and set of options,
-- whatever the order of the fields and of the options, the labels, the submitted values and the
-- selectors, where fields of a form that share a key, as those without any do, agree in kind, required
-- mark and set of options too.
pub fingerprint-SameShapes :
    (sha256_hex : Text → Text) (fs hs gs : List FormField)
    → HasKeys fs
    → Permᴰ fs hs
    → SameShapes hs gs
    → fingerprint sha256_hex fs ≡ fingerprint sha256_hex gs
unfolding fingerprint fingerprint_material
fingerprint-SameShapes sha256_hex fs hs gs keys p k =
    let moved = moved_same fs hs keys p in
    let lines : map field_material (sort key_lt hs) ≡ map field_material (sort key_lt gs) =
      material_same _ _ (sort_same hs gs k) in
    rw (moved, lines) refl
