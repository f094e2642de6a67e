-- ===== src/Tasks/Records.antt =====
-- The rows of apps/api/src/tasks/idempotency.ts: finding one under its key after another is written or
-- old ones are pruned.
use octopus_job_search.Base.{
  ℕ, ◌≡◌, refl, ◌∙◌, Bool, true, false, ◌&&◌, some, List, [], ◌∷◌, arith, inl, inr,
}
use octopus_job_search.Base.Tests.{◌==◌, Bool-cases}
use octopus_job_search.Base.Lists.{find, keep}
use octopus_job_search.Base.Text.{Text, text_eq, text_eq_iff}
use octopus_job_search.Tasks.Idempotency.{IdempotencyRecord, is_record_of, upsert}

pub find-keep :
    {A : Type 0} (p q : A → Bool) (l : List A) {a : A}
    → find p l ≡ some a
    → q a ≡ true
    → find p (keep q l) ≡ some a
find-keep p q [] e h = e
find-keep p q (x ∷ xs) {a} e h = elim (Bool-cases (p x)) [
  | inl t ↦
      let found : some x ≡ some a = rw t at e in
      let same : x ≡ a = cc in let kept : q x ≡ true = rw same h in rw (kept, t) found
  | inr f ↦
      let later = find-keep p q xs (rw f at e) h in
      elim (Bool-cases (q x)) [ inl y ↦ rw (y, f) later | inr n ↦ rw n later ]
]

-- A record under a key carries that key.
pub record_key :
    (ws : ℕ) (route k : Text) (q : IdempotencyRecord)
    → is_record_of ws route k q ≡ true
    → (q.workspace_id ≡ ws) × (q.route_key ≡ route) × (q.idempotency_key ≡ k)
unfolding is_record_of
record_key ws route k q e = (
  ground (arith, e),
  (text_eq_iff q.route_key route).0 (ground (arith, e)),
  (text_eq_iff q.idempotency_key k).0 (ground (arith, e)),
)

-- Two records of which one is under the key of the other are under the same keys.
pub same_keys :
    (ws : ℕ) (route k : Text) (r q : IdempotencyRecord)
    → is_record_of r.workspace_id r.route_key r.idempotency_key q ≡ true
    → is_record_of ws route k q ≡ is_record_of ws route k r
unfolding is_record_of
same_keys ws route k r q e =
    let (a, b, c) = record_key r.workspace_id r.route_key r.idempotency_key q e in rw (a, b, c) refl

pub find-upsert-other :
    (ws : ℕ) (route k : Text) (r : IdempotencyRecord) (l : List IdempotencyRecord)
    → is_record_of ws route k r ≡ false
    → find (is_record_of ws route k) (upsert r l) ≡ find (is_record_of ws route k) l
unfolding upsert
find-upsert-other ws route k r [] h = rw h refl
find-upsert-other ws route k r (q ∷ qs) h =
    elim (Bool-cases (is_record_of r.workspace_id r.route_key r.idempotency_key q)) [
      | inl t ↦
          let gone : is_record_of ws route k q ≡ false = same_keys ws route k r q t ∙ h in
          rw (t, h, gone) refl
      | inr f ↦ rw (f, find-upsert-other ws route k r qs h) refl
    ]

-- Whether a request goes under the key of the record.
abbrev pub is_key : ℕ → Text → Text → ℕ → Text → Text → Bool
is_key ws route k ws2 route2 k2 = ws2 == ws && (text_eq route2 route && text_eq k2 k)

pub is_key_refl : (ws : ℕ) (route k : Text) → is_key ws route k ws route k ≡ true
is_key_refl ws route k = ground (arith, (text_eq_iff route route).1 refl, (text_eq_iff k k).1 refl)
