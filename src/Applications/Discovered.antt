-- ===== src/Applications/Discovered.antt =====
-- What `mergeDiscoveredQuestions` of apps/api/src/applications/fill.ts keeps of a packet's answers.
use octopus_job_search.Base.{
  ◌≡◌, refl, sym, ◌∙◌, Bool, true, false, not, ◌||◌, Option, none, some, List, [], ◌∷◌, arith, inl,
  inr, subst,
}
use octopus_job_search.Base.Tests.{if◌then◌else◌, Bool-cases}
use octopus_job_search.Base.Lists.{find-Memᴰ, All}
use octopus_job_search.Base.Text.{Text, text_eq, text_eq_iff}
use octopus_job_search.FillPlanner.Plan.{UnresolvedField}
use octopus_job_search.Applications.Packet.{PacketAnswer}
use octopus_job_search.Applications.Discover.{
  set_answer, get_answer, by_key_from, merged_answer, merge_fields, merge_discovered_questions,
}

text_eq-same : (a b c : Text) → text_eq a b ≡ true → text_eq a c ≡ text_eq b c
text_eq-same a b c e = let same = (text_eq_iff a b).0 e in rw same refl

get_answer-set_answer :
    (key : Text) (a : PacketAnswer) (l : List PacketAnswer)
    → get_answer key (set_answer a l)
      ≡ (if text_eq a.question_key key then some a else get_answer key l)
unfolding set_answer
get_answer-set_answer key a [] = refl
get_answer-set_answer key a (b ∷ bs) = elim (Bool-cases (text_eq b.question_key a.question_key)) [
  | inl t ↦
      rw (t, text_eq-same b.question_key a.question_key key t)
        (elim (Bool-cases (text_eq a.question_key key)) [ inl y ↦ rw y refl | inr n ↦ rw n refl ])
  | inr f ↦
      rw (f, get_answer-set_answer key a bs)
        (elim (Bool-cases (text_eq a.question_key key)) [
          | inl y ↦
              let same = (text_eq_iff a.question_key key).0 y in
              let other : text_eq b.question_key key ≡ false =
                subst (λ k. text_eq b.question_key k ≡ false) same f in
              rw (y, other) refl
          | inr n ↦ rw n refl
        ])
]

-- The last answer with the key, as the packet lists them.
abbrev pub last_answer : Text → List PacketAnswer → Option PacketAnswer
last_answer key [] = none
last_answer key (a ∷ given) = elim (last_answer key given) [
  | some later ↦ some later
  | none ↦ if text_eq a.question_key key then some a else none
]

-- What becomes of an answer: none is invented, none is lost or altered, and a required one stays so.
abbrev pub IsKept : Option PacketAnswer → Option PacketAnswer → Type 0
IsKept none none = Unit
IsKept none (some b) = b.answer ≡ none
IsKept (some a) none = ⊥
IsKept (some a) (some b) =
    (b.answer ≡ a.answer)
    × (b.label ≡ a.label)
    × (b.sensitivity ≡ a.sensitivity)
    × (b.provenance ≡ a.provenance)
    × (b.source_id ≡ a.source_id)
    × ((b.required || not a.required) ≡ true)

-- A question that the page asked is in the packet, and required where the page requires it.
abbrev pub IsAsked : UnresolvedField → Option PacketAnswer → Type 0
IsAsked field none = ⊥
IsAsked field (some b) = (b.required || not field.required) ≡ true

IsKept-refl : (o : Option PacketAnswer) → IsKept o o
IsKept-refl none = tt
IsKept-refl (some a) = (refl, refl, refl, refl, refl, ground arith)

IsKept-trans : (a b c : Option PacketAnswer) → IsKept a b → IsKept b c → IsKept a c
IsKept-trans none none c h k = k
IsKept-trans none (some b) none h k = absurd k
IsKept-trans none (some b) (some c) h k = k.0 ∙ h
IsKept-trans (some a) (some b) none h k = k
IsKept-trans (some a) none c h k = absurd h
IsKept-trans (some a) (some b) (some c) h k =
    (k.0 ∙ h.0, k.1 ∙ h.1, k.2 ∙ h.2, k.3 ∙ h.3, k.4 ∙ h.4, ground (arith, h.5, k.5))

IsAsked-kept :
    (field : UnresolvedField) (a b : Option PacketAnswer)
    → IsAsked field a
    → IsKept a b
    → IsAsked field b
IsAsked-kept field none b h k = absurd h
IsAsked-kept field (some a) none h k = k
IsAsked-kept field (some a) (some b) h k = ground (arith, h, k.5)

merged-IsKept :
    (field : UnresolvedField) (o : Option PacketAnswer) → IsKept o (some (merged_answer field o))
merged-IsKept field none = refl
merged-IsKept field (some a) = (refl, refl, refl, refl, refl, ground arith)

merged-IsAsked :
    (field : UnresolvedField) (o : Option PacketAnswer)
    → IsAsked field (some (merged_answer field o))
merged-IsAsked field none = ground arith
merged-IsAsked field (some a) = ground arith

text_eq_refl : (a : Text) → text_eq a a ≡ true
text_eq_refl a = (text_eq_iff a a).1 refl

merged_key :
    (field : UnresolvedField) (o : Option PacketAnswer) (l : List PacketAnswer)
    → get_answer field.question_key l ≡ o
    → text_eq (merged_answer field o).question_key field.question_key ≡ true
merged_key field none l e = text_eq_refl field.question_key
merged_key field (some a) l e = (find-Memᴰ (λ b. text_eq b.question_key field.question_key) l e).1

-- One discovered field.
abbrev merge_one : List PacketAnswer → UnresolvedField → List PacketAnswer
merge_one m field = set_answer (merged_answer field (get_answer field.question_key m)) m

merge_one-IsKept :
    (m : List PacketAnswer) (field : UnresolvedField) (key : Text)
    → IsKept (get_answer key m) (get_answer key (merge_one m field))
merge_one-IsKept m field key =
    let a = merged_answer field (get_answer field.question_key m) in
    let named = merged_key field (get_answer field.question_key m) m refl in
    subst (IsKept (get_answer key m)) (sym (get_answer-set_answer key a m))
      (elim (Bool-cases (text_eq a.question_key key)) [
        | inl y ↦
            let same =
              sym ((text_eq_iff a.question_key key).0 y)
              ∙ (text_eq_iff a.question_key field.question_key).0 named in
            subst (λ b. IsKept (get_answer key m) (if b then some a else get_answer key m)) (sym y)
              (subst (λ k. IsKept (get_answer k m) (some a)) (sym same)
                (merged-IsKept field (get_answer field.question_key m)))
        | inr n ↦
            subst (λ b. IsKept (get_answer key m) (if b then some a else get_answer key m)) (sym n)
              (IsKept-refl (get_answer key m))
      ])

merge_one-IsAsked :
    (m : List PacketAnswer) (field : UnresolvedField)
    → IsAsked field (get_answer field.question_key (merge_one m field))
merge_one-IsAsked m field =
    let a = merged_answer field (get_answer field.question_key m) in
    let named = merged_key field (get_answer field.question_key m) m refl in
    subst (IsAsked field) (sym (get_answer-set_answer field.question_key a m)) (
      subst (λ b. IsAsked field (if b then some a else get_answer field.question_key m)) (sym named)
        (merged-IsAsked field (get_answer field.question_key m)))

merge_fields-IsKept :
    (fields : List UnresolvedField) (m : List PacketAnswer) (key : Text)
    → IsKept (get_answer key m) (get_answer key (merge_fields m fields))
unfolding merge_fields
merge_fields-IsKept [] m key = IsKept-refl (get_answer key m)
merge_fields-IsKept (field ∷ fields) m key =
    IsKept-trans (get_answer key m) (get_answer key (merge_one m field)) _
      (merge_one-IsKept m field key) (merge_fields-IsKept fields (merge_one m field) key)

merge_fields-IsAsked :
    (fields : List UnresolvedField) (m : List PacketAnswer)
    → All (λ f. IsAsked f (get_answer f.question_key (merge_fields m fields))) fields
unfolding merge_fields
merge_fields-IsAsked [] m = tt
merge_fields-IsAsked (field ∷ fields) m = (
  IsAsked-kept field (get_answer field.question_key (merge_one m field)) _
      (merge_one-IsAsked m field)
      (merge_fields-IsKept fields (merge_one m field) field.question_key),
  merge_fields-IsAsked fields (merge_one m field),
)

abbrev latest : Option PacketAnswer → Option PacketAnswer → Option PacketAnswer
latest (some a) earlier = some a
latest none earlier = earlier

by_key_from-last :
    (given m : List PacketAnswer) (key : Text)
    → get_answer key (by_key_from m given) ≡ latest (last_answer key given) (get_answer key m)
unfolding by_key_from
by_key_from-last [] m key = refl
by_key_from-last (a ∷ given) m key =
    by_key_from-last given (set_answer a m) key
    ∙ last_step (last_answer key given) (text_eq a.question_key key) (get_answer-set_answer key a m)
  where
    last_step :
        (later : Option PacketAnswer) (b : Bool)
        → get_answer key (set_answer a m) ≡ (if b then some a else get_answer key m)
        → latest later (get_answer key (set_answer a m))
          ≡ latest
              (elim later [ some l ↦ some l | none ↦ if b then some a else none ])
              (get_answer key m)
    last_step (some l) b e = refl
    last_step none true e = e
    last_step none false e = e

last_or_none : (o : Option PacketAnswer) → latest o none ≡ o
last_or_none none = refl
last_or_none (some a) = refl

-- Under every key the merged answers keep the packet's last answer, with its label, sensitivity and
-- source, required if it was; a key that is new has no answer; and each question that the page left
-- open is there, required where the page requires it.
pub merge_discovered_questions-IsKept :
    (existing : List PacketAnswer) (fields : List UnresolvedField) (key : Text)
    → IsKept
        (last_answer key existing)
        (get_answer key (merge_discovered_questions existing fields))
      × All
          (λ f. IsAsked f (get_answer f.question_key (merge_discovered_questions existing fields)))
          fields
unfolding merge_discovered_questions
merge_discovered_questions-IsKept existing fields key =
    let start = by_key_from [] existing in
    (
      subst (λ o. IsKept o (get_answer key (merge_fields start fields)))
          (by_key_from-last existing [] key ∙ last_or_none (last_answer key existing))
          (merge_fields-IsKept fields start key),
      merge_fields-IsAsked fields start,
    )
